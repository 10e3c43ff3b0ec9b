-- ===== src/Engine/Compare/Order.antt =====
-- kaitai/expr/engine/evaluate.go, `Compare`: the orders that it rests on, and its masks.
use Prim.Native.Nat.{bit_and as nat_and}
use zanbato.Base.{
  ℕ, ◌-◌, ◌≤◌, ◌<◌, ◌≡◌, ◌↔◌, ◌≢◌, refl, Bool, true, false, not, Option, none, some, [], ◌∷◌, Text,
  arith, ◌==◌,
}
use zanbato.Base.Tables.{checks, checks_lem}
use zanbato.Base.Int.{ℤ, ◌<ℤ◌}
use zanbato.Base.Platform.{BigFloat, Sign, less, same, more}
use zanbato.Engine.Value.{ExprValue, Result, ok, err}
use zanbato.Engine.Compare.{
  cmp_nat, cmp_int, cmp_bytes, mode, masked_bytes, array_to_bytes, compare,
}

-- The sign seen from the other side.
abbrev pub flip : Sign → Sign
flip less = more
flip same = same
flip more = less

cmp_nat-flip : (a b : ℕ) → cmp_nat b a ≡ flip (cmp_nat a b)
unfolding cmp_nat
cmp_nat-flip a b = ground arith

cmp_nat-same : (a b : ℕ) → cmp_nat a b ≡ same → a ≡ b
unfolding cmp_nat
cmp_nat-same a b h = ground arith

cmp_nat-ne_same : (a b : ℕ) → (a == b) ≡ false → cmp_nat a b ≢ same
unfolding cmp_nat
cmp_nat-ne_same a b h = ground arith

cmp_nat-less : (a b : ℕ) → (cmp_nat a b ≡ less) ↔ (a < b)
unfolding cmp_nat
cmp_nat-less a b = ground arith

-- The order of integers.
pub cmp_int-less : (a b : ℤ) → (cmp_int a b ≡ less) ↔ (a <ℤ b)
unfolding cmp_int
cmp_int-less a b = cmp_nat-less _ _

pub cmp_bytes-flip : (xs ys : Text) → cmp_bytes ys xs ≡ flip (cmp_bytes xs ys)
unfolding cmp_bytes
cmp_bytes-flip [] [] = refl
cmp_bytes-flip [] (y ∷ ys) = refl
cmp_bytes-flip (x ∷ xs) [] = refl
cmp_bytes-flip (x ∷ xs) (y ∷ ys) = ground (arith, cmp_bytes-flip xs ys, cmp_nat-flip x y)

pub cmp_bytes_refl : (xs : Text) → cmp_bytes xs xs ≡ same
unfolding cmp_bytes
cmp_bytes_refl [] = refl
cmp_bytes_refl (x ∷ xs) = ground (arith, cmp_bytes_refl xs)

pub cmp_bytes-same : (xs ys : Text) → cmp_bytes xs ys ≡ same → xs ≡ ys
unfolding cmp_bytes
cmp_bytes-same [] [] h = refl
cmp_bytes-same [] (y ∷ ys) h = cc
cmp_bytes-same (x ∷ xs) [] h = cc
cmp_bytes-same (x ∷ xs) (y ∷ ys) h = ground (arith, cmp_bytes-same xs ys, cmp_nat-ne_same x y)

pub cmp_bytes_trans :
    (xs ys zs : Text) → cmp_bytes xs ys ≡ less → cmp_bytes ys zs ≡ less → cmp_bytes xs zs ≡ less
unfolding cmp_bytes
cmp_bytes_trans [] [] zs h k = cc
cmp_bytes_trans [] (y ∷ ys) [] h k = cc
cmp_bytes_trans [] (y ∷ ys) (z ∷ zs) h k = refl
cmp_bytes_trans (x ∷ xs) [] zs h k = cc
cmp_bytes_trans (x ∷ xs) (y ∷ ys) [] h k = cc
cmp_bytes_trans (x ∷ xs) (y ∷ ys) (z ∷ zs) h k =
    ground (arith, cmp_bytes_trans xs ys zs, cmp_nat-less x y, cmp_nat-less y z, cmp_nat-less x z)

-- The masks below 8, by evaluation.
abbrev selected : ℕ → Sign → Bool
selected mask s = not (nat_and (mode s) mask == 0)

abbrev differ : Bool → Bool → Bool
differ true b = not b
differ false b = b

differ-not : (a b : Bool) → differ a b ≡ true → b ≡ not a
differ-not a b h = ground arith

selected_table : (s : Sign) → checks (λ m. differ (selected m s) (selected (7 - m) s)) 8 ≡ true
unfolding checks mode
selected_table less = refl
selected_table same = refl
selected_table more = refl

selected-complement :
    (mask : ℕ) (s : Sign) → mask ≤ 7 → selected (7 - mask) s ≡ not (selected mask s)
selected-complement mask s h = differ-not _ _ (checks_lem _ 8 mask (selected_table s) (omega arith))

abbrev pub Complements : Result Bool → Result Bool → Type 0
Complements (ok c) (ok d) = d ≡ not c
Complements (ok c) (err e) = ⊥
Complements (err e) r = Unit

bytes-complement :
    (mask : ℕ) (cmp : Text → Sign) (o : Option Text)
    → mask ≤ 7
    → Complements (masked_bytes mask cmp o) (masked_bytes (7 - mask) cmp o)
bytes-complement mask cmp none h = tt
bytes-complement mask cmp (some bs) h = selected-complement mask (cmp bs) h

-- A comparison that has an answer has the opposite one under the complement of its mask.
pub compare-Complements :
    (fl : BigFloat) (a b : ExprValue fl.Float) (mask : ℕ)
    → mask ≤ 7
    → Complements (compare fl a b mask) (compare fl a b (7 - mask))
unfolding compare
compare-Complements fl (ExprValue.integer a) (ExprValue.integer b) mask h =
    selected-complement mask (cmp_int a b) h
compare-Complements fl (ExprValue.float a) (ExprValue.float b) mask h =
    selected-complement mask (fl.cmp a b) h
compare-Complements fl (ExprValue.integer a) (ExprValue.float b) mask h =
    selected-complement mask (fl.cmp (fl.of_int a) b) h
compare-Complements fl (ExprValue.float a) (ExprValue.integer b) mask h =
    selected-complement mask (fl.cmp a (fl.of_int b)) h
compare-Complements fl (ExprValue.string a) (ExprValue.string b) mask h =
    selected-complement mask (cmp_bytes a b) h
compare-Complements fl (ExprValue.byte_array a) (ExprValue.byte_array b) mask h =
    selected-complement mask (cmp_bytes a b) h
compare-Complements fl (ExprValue.string a) (ExprValue.byte_array b) mask h =
    selected-complement mask (cmp_bytes a b) h
compare-Complements fl (ExprValue.byte_array a) (ExprValue.string b) mask h =
    selected-complement mask (cmp_bytes a b) h
compare-Complements fl (ExprValue.byte_array a) (ExprValue.array b) mask h =
    bytes-complement mask (cmp_bytes a) (array_to_bytes b) h
compare-Complements fl (ExprValue.array a) (ExprValue.byte_array b) mask h =
    bytes-complement mask (λ bs. cmp_bytes bs b) (array_to_bytes a) h
compare-Complements fl (ExprValue.boolean a) (ExprValue.boolean b) mask h = ground arith
compare-Complements fl a b mask h = tt
