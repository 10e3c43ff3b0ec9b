-- ===== src/Engine/Compare.antt =====
-- kaitai/expr/engine/evaluate.go: comparisons.
pub mod Order
use Prim.Native.Nat.{bit_and as nat_and}
use zanbato.Base.{
  ℕ, suc, ◌+◌, Bool, true, false, not, ◌&&◌, ◌||◌, Option, none, some, [], ◌∷◌, Text, ltb, leb,
  ◌==◌, if◌then◌else◌,
}
use mathlib.Core.Option
use zanbato.Base.Int.{ℤ, pos, negsuc, pos_part, neg_part}
use zanbato.Base.Platform.{BigFloat, Sign, less, same, more}
use zanbato.Engine.Value
use zanbato.Engine.Value.{
  ExprValue, Items, Result, ok, err, kind, nil, cons, unhandled_comparison,
  invalid_boolean_comparison, cannot_compare_array, ◌>>=◌,
}
use zanbato.Engine.Integers.{to_int64}

-- CompareLessThan, CompareEqual and CompareGreaterThan are bits of a mask.
abbrev pub less_than : ℕ
less_than = 1

abbrev pub equal : ℕ
equal = 2

abbrev pub greater_than : ℕ
greater_than = 4

unfoldable pub cmp_nat : ℕ → ℕ → Sign
cmp_nat a b = if ltb a b then less else if a == b then same else more

-- big.Int.Cmp
unfoldable pub cmp_int : ℤ → ℤ → Sign
unfolding cmp_nat
cmp_int a b = cmp_nat (pos_part a + neg_part b) (pos_part b + neg_part a)

-- bytes.Compare, strings.Compare: lexicographic, a prefix first.
unfoldable pub cmp_bytes : Text → Text → Sign
unfolding cmp_nat
cmp_bytes [] [] = same
cmp_bytes [] (y ∷ ys) = less
cmp_bytes (x ∷ xs) [] = more
cmp_bytes (x ∷ xs) (y ∷ ys) = let rest = cmp_bytes xs ys in if x == y then rest else cmp_nat x y

-- cmpResultToMode
unfoldable pub mode : Sign → ℕ
mode less = less_than
mode same = equal
mode more = greater_than

-- arrayOfIntsToBytes
unfoldable pub array_to_bytes : {F : Type 0} → Items F → Option Text
unfolding to_int64
array_to_bytes nil = some []
array_to_bytes (cons (ExprValue.integer i) xs) =
    let rest = array_to_bytes xs in
    elim (to_int64 i) [
      | pos v ↦ if ltb 255 v then none else Option.map (λ bs. v ∷ bs) rest
      | negsuc v ↦ none
    ]
array_to_bytes (cons _ xs) = none

abbrev masked : ℕ → Sign → Result Bool
masked mask s = ok (not (nat_and (mode s) mask == 0))

abbrev masked_bytes : ℕ → (Text → Sign) → Option Text → Result Bool
masked_bytes mask cmp none = err (cannot_compare_array Value.ExprKind.array)
masked_bytes mask cmp (some bs) = masked mask (cmp bs)

module _ (fl : BigFloat) where
  unfoldable pub compare : ExprValue fl.Float → ExprValue fl.Float → ℕ → Result Bool
  unfolding cmp_int cmp_bytes mode array_to_bytes kind
  compare (ExprValue.integer a) (ExprValue.integer b) mask = masked mask (cmp_int a b)
  compare (ExprValue.float a) (ExprValue.float b) mask = masked mask (fl.cmp a b)
  compare (ExprValue.integer a) (ExprValue.float b) mask = masked mask (fl.cmp (fl.of_int a) b)
  compare (ExprValue.float a) (ExprValue.integer b) mask = masked mask (fl.cmp a (fl.of_int b))
  compare (ExprValue.string a) (ExprValue.string b) mask = masked mask (cmp_bytes a b)
  compare (ExprValue.byte_array a) (ExprValue.byte_array b) mask = masked mask (cmp_bytes a b)
  compare (ExprValue.string a) (ExprValue.byte_array b) mask = masked mask (cmp_bytes a b)
  compare (ExprValue.byte_array a) (ExprValue.string b) mask = masked mask (cmp_bytes a b)
  compare (ExprValue.byte_array a) (ExprValue.array b) mask =
      masked_bytes mask (cmp_bytes a) (array_to_bytes b)
  compare (ExprValue.array a) (ExprValue.byte_array b) mask =
      masked_bytes mask (λ bs. cmp_bytes bs b) (array_to_bytes a)
  compare (ExprValue.boolean a) (ExprValue.boolean b) mask =
      if mask == equal
      then ok (if a then b else not b)
      else if mask == less_than + greater_than
      then ok (if a then not b else b)
      else err invalid_boolean_comparison
  compare a b mask = err (unhandled_comparison (kind a) (kind b))

  -- evalCmp
  unfoldable pub eval_cmp :
      ExprValue fl.Float → ExprValue fl.Float → ℕ → Result (ExprValue fl.Float)
  unfolding compare
  eval_cmp a b mask = compare a b mask >>= λ c. ok (ExprValue.boolean c)
