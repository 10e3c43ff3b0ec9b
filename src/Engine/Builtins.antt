-- ===== src/Engine/Builtins.antt =====
-- kaitai/expr/engine/builtin.go: the methods of integers, strings, Booleans, bytes and arrays. An argument
-- that is a nil pointer is `none`. An array has its items at hand: one that a runtime reads lazily is not
-- modelled.
pub mod Laws
pub mod Extremes
mod Tests
use zanbato.Base.{
  ℕ, suc, ◌-◌, ◌%◌, ◌^◌, Bool, true, false, ◌&&◌, Option, none, some, List, [], ◌∷◌, Text, length,
  take, drop, ltb, leb, if◌then◌else◌,
}
use zanbato.Base.Int.{ℤ, pos, negsuc}
use zanbato.Base.Digits.{int_text}
use zanbato.Base.Platform.{BigFloat}
use zanbato.Engine.Value.{ExprValue, Items, nil, cons, Result, ok, err}
use zanbato.Engine.Integers.{to_int64}
use zanbato.Engine.Compare.{compare, less_than, greater_than}

-- A value, a nil without an error, an error, and a panic.
pub data Answer (F : Type 0) : Type 0 where
  answer : ExprValue F → Answer F
  null failed crashed : Answer F

-- Go's conversions of a string to runes and back.
pub record Utf8 : Type 0 where
  pub runes : Text → Text
  pub encode : Text → Text

-- a < b
unfoldable pub int_ltb : ℤ → ℤ → Bool
int_ltb (pos a) (pos b) = ltb a b
int_ltb (pos a) (negsuc b) = false
int_ltb (negsuc a) (pos b) = true
int_ltb (negsuc a) (negsuc b) = ltb b a

-- runes[from:to], `none` for bounds out of range.
unfoldable pub slice : Text → ℤ → ℤ → Option Text
slice runes (pos a) (pos b) =
    if leb a b && leb b (length runes) then some (take (b - a) (drop a runes)) else none
slice runes (pos a) (negsuc b) = none
slice runes (negsuc a) to = none

abbrev pub lower_end : ℤ → ℤ
lower_end from = if int_ltb from (pos 0) then pos 0 else from

abbrev pub upper_end : ℕ → ℤ → ℤ
upper_end len to = if int_ltb (pos len) to then pos len else to

abbrev pub no_later : ℤ → ℤ → ℤ
no_later from to = if int_ltb to from then to else from

unfoldable pub substring : Text → ℤ → ℤ → Option Text
substring runes from to =
    let to = upper_end (length runes) to in slice runes (no_later (lower_end from) to) to

abbrev base_of : ℤ → ℕ
base_of (pos b) = if leb 2 b && leb b 36 then b else 10
base_of (negsuc b) = 10

abbrev base_arg : Option ℤ → ℕ
base_arg none = 10
base_arg (some i) = base_of (to_int64 i)

abbrev last_byte : ℕ → Text → ℕ
last_byte b [] = b
last_byte b (c ∷ bs) = last_byte c bs

module _ {F : Type 0} where
  abbrev pub integer_arg : Option (ExprValue F) → Option ℤ
  integer_arg (some (ExprValue.integer i)) = some i
  integer_arg _ = none

  abbrev text_base : List (Option (ExprValue F)) → ℕ
  text_base [] = 10
  text_base (a ∷ rest) = base_arg (integer_arg a)

  unfoldable pub int_to_string : ExprValue F → List (Option (ExprValue F)) → Answer F
  int_to_string (ExprValue.integer i) args = answer (ExprValue.string (int_text (text_base args) i))
  int_to_string this args = crashed

  unfoldable pub byte_array_length : ExprValue F → Answer F
  byte_array_length (ExprValue.byte_array bs) = answer (ExprValue.integer (pos (length bs)))
  byte_array_length this = crashed

  unfoldable pub string_length : Utf8 → ExprValue F → Answer F
  string_length u (ExprValue.string s) = answer (ExprValue.integer (pos (length (u.runes s))))
  string_length u this = crashed

  abbrev pub encoded : Utf8 → Option Text → Answer F
  encoded u none = crashed
  encoded u (some s) = answer (ExprValue.string (u.encode s))

  abbrev between : Utf8 → ExprValue F → Option ℤ → Option ℤ → Answer F
  between u (ExprValue.string s) (some from) (some to) =
      encoded u (substring (u.runes s) (to_int64 from) (to_int64 to))
  between u this from to = crashed

  unfoldable pub string_substring : Utf8 → ExprValue F → List (Option (ExprValue F)) → Answer F
  string_substring u this [] = failed
  string_substring u this (from ∷ []) = failed
  string_substring u this (from ∷ to ∷ rest) = between u this (integer_arg from) (integer_arg to)

  unfoldable pub bool_to_int : ExprValue F → Answer F
  bool_to_int (ExprValue.boolean b) = answer (ExprValue.integer (if b then pos 1 else pos 0))
  bool_to_int this = crashed

  abbrev byte_value : ℕ → Answer F
  byte_value b = answer (ExprValue.integer (pos b))

  unfoldable pub array_first : ExprValue F → Answer F
  array_first (ExprValue.byte_array (b ∷ bs)) = byte_value b
  array_first (ExprValue.array (cons x xs)) = answer x
  array_first this = null

  abbrev last_item : ExprValue F → Items F → ExprValue F
  last_item x nil = x
  last_item x (cons y xs) = last_item y xs

  unfoldable pub array_last : ExprValue F → Answer F
  array_last (ExprValue.byte_array (b ∷ bs)) = byte_value (last_byte b bs)
  array_last (ExprValue.array (cons x xs)) = answer (last_item x xs)
  array_last this = null

  abbrev item_count : Items F → ℕ
  item_count nil = 0
  item_count (cons x xs) = suc (item_count xs)

  unfoldable pub array_size : ExprValue F → Answer F
  array_size (ExprValue.byte_array bs) = answer (ExprValue.integer (pos (length bs)))
  array_size (ExprValue.array xs) = answer (ExprValue.integer (pos (item_count xs)))
  array_size this = answer (ExprValue.integer (pos 0))

-- The loops of builtinMethodArrayMin and builtinMethodArrayMax over bytes.
abbrev pub least_byte : ℕ → Text → ℕ
least_byte m [] = m
least_byte m (b ∷ bs) = least_byte (if ltb b m then b else m) bs

abbrev pub greatest_byte : ℕ → Text → ℕ
greatest_byte m [] = m
greatest_byte m (b ∷ bs) = greatest_byte (if ltb m b then b else m) bs

module _ (fl : BigFloat) where
  abbrev pub better : Result Bool → ExprValue fl.Float → ExprValue fl.Float → ExprValue fl.Float
  better (ok true) item best = item
  better (ok false) item best = best
  better (err e) item best = best

  -- The loops over items: an item that does not compare is passed over.
  unfoldable pub best_item : ℕ → ExprValue fl.Float → Items fl.Float → ExprValue fl.Float
  best_item mask best nil = best
  best_item mask best (cons item items) =
      best_item mask (better (compare fl item best mask) item best) items

  unfoldable pub array_min : ExprValue fl.Float → Answer fl.Float
  array_min (ExprValue.byte_array (b ∷ bs)) = byte_value (least_byte b bs)
  array_min (ExprValue.array (cons x xs)) = answer (best_item less_than x xs)
  array_min this = failed

  unfoldable pub array_max : ExprValue fl.Float → Answer fl.Float
  array_max (ExprValue.byte_array (b ∷ bs)) = byte_value (greatest_byte b bs)
  array_max (ExprValue.array (cons x xs)) = answer (best_item greater_than x xs)
  array_max this = failed
