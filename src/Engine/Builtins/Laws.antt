-- ===== src/Engine/Builtins/Laws.antt =====
-- kaitai/expr/engine/builtin.go: substrings, and the least and the greatest item.
use zanbato.Base.{
  ℕ, zero, suc, ◌-◌, ◌≤◌, ◌<◌, ◌^◌, ◌≡◌, refl, sym, ap, ap₂, ◌∙◌, Bool, true, false, ◌&&◌, Option,
  none, some, List, [], ◌∷◌, Text, length, take, drop, ltb, leb, if◌then◌else◌, arith, inl, inr,
  Bool-cases,
}
use zanbato.Base.Int.{ℤ, pos, negsuc}
use zanbato.Engine.Value.{ExprValue}
use zanbato.Engine.Integers.{to_int64}
use zanbato.Engine.Sizes.Exact.{to_int64-small, to_int64-negative}
use zanbato.Engine.Builtins.{
  answer, crashed, Utf8, int_ltb, slice, lower_end, upper_end, no_later, encoded, substring,
  string_substring,
}

unfoldable pub start : ℤ → ℕ
start (pos n) = n
start (negsuc n) = 0

take-all {ℓ} : {A : Type ℓ} (n : ℕ) (xs : List A) → length xs ≤ n → take n xs ≡ xs
take-all zero [] h = refl
take-all (suc n) [] h = refl
take-all zero (x ∷ xs) h = absurd (omega arith)
take-all (suc n) (x ∷ xs) h = ap (λ ys. x ∷ ys) (take-all n xs (omega arith))

drop-all {ℓ} : {A : Type ℓ} (n : ℕ) (xs : List A) → length xs ≤ n → drop n xs ≡ []
drop-all zero [] h = refl
drop-all (suc n) [] h = refl
drop-all zero (x ∷ xs) h = absurd (omega arith)
drop-all (suc n) (x ∷ xs) h = drop-all n xs (omega arith)

take_eq {ℓ} : {A : Type ℓ} (a b : ℕ) (xs : List A) → a ≡ b → take a xs ≡ take b xs
take_eq a b xs h = ap (λ k. take k xs) h

take-nil {ℓ} : {A : Type ℓ} (n : ℕ) → take {A = A} n [] ≡ []
take-nil zero = refl
take-nil (suc n) = refl

drop-take {ℓ} : {A : Type ℓ} (n m : ℕ) (xs : List A) → take (m - n) (drop n xs) ≡ drop n (take m xs)
drop-take zero m xs = take_eq (m - 0) m xs (omega arith)
drop-take (suc n) zero xs = take_eq (0 - suc n) 0 (drop (suc n) xs) (omega arith)
drop-take (suc n) (suc m) [] = take-nil (suc m - suc n)
drop-take (suc n) (suc m) (x ∷ xs) =
    take_eq (suc m - suc n) (m - n) (drop n xs) (omega arith) ∙ drop-take n m xs

length-take_le {ℓ} : {A : Type ℓ} (m : ℕ) (xs : List A) → length (take m xs) ≤ m
length-take_le zero xs = omega arith
length-take_le (suc m) [] = omega arith
length-take_le (suc m) (x ∷ xs) = omega (arith, length-take_le m xs)

if_true {ℓ} : {A : Type ℓ} (b : Bool) (x y : A) → b ≡ true → (if b then x else y) ≡ x
if_true b x y h = ap (λ c. if c then x else y) h

if_false {ℓ} : {A : Type ℓ} (b : Bool) (x y : A) → b ≡ false → (if b then x else y) ≡ y
if_false b x y h = ap (λ c. if c then x else y) h

slice-inside :
    (s : Text) (a b : ℕ) → a ≤ b → b ≤ length s → slice s (pos a) (pos b) ≡ some (drop a (take b s))
unfolding slice
slice-inside s a b h k =
    if_true (leb a b && leb b (length s)) _ none (ground arith) ∙ ap some (drop-take a b s)

past : (s : Text) (a b : ℕ) → ltb b a ≡ true → length (take b s) ≤ a
past s a b h = ground (arith, length-take_le b s)

-- The start moved back to the end.
slice-no_later :
    (s : Text) (a b : ℕ)
    → b ≤ length s
    → slice s (if ltb b a then pos b else pos a) (pos b) ≡ some (drop a (take b s))
slice-no_later s a b h = elim (Bool-cases (ltb b a)) [
  | inl p ↦
      ap (λ i. slice s i (pos b)) (if_true (ltb b a) (pos b) (pos a) p)
      ∙ slice-inside s b b (omega arith) h
      ∙ ap some
          (drop-all b (take b s) (length-take_le b s) ∙ sym (drop-all a (take b s) (past s a b p)))
  | inr p ↦
      ap (λ i. slice s i (pos b)) (if_false (ltb b a) (pos b) (pos a) p)
      ∙ slice-inside s a b (ground arith) h
]

slice-upper_end :
    (s : Text) (a m : ℕ)
    → slice s (no_later (pos a) (upper_end (length s) (pos m))) (upper_end (length s) (pos m))
      ≡ some (drop a (take m s))
unfolding int_ltb
slice-upper_end s a m = elim (Bool-cases (ltb (length s) m)) [
  | inl p ↦
      ap (λ to. slice s (no_later (pos a) to) to)
        (if_true (ltb (length s) m) (pos (length s)) (pos m) p)
      ∙ slice-no_later s a (length s) (omega arith)
      ∙ ap (λ t. some (drop a t))
          (take-all (length s) s (omega arith) ∙ sym (take-all m s (ground arith)))
  | inr p ↦
      ap (λ to. slice s (no_later (pos a) to) to)
        (if_false (ltb (length s) m) (pos (length s)) (pos m) p)
      ∙ slice-no_later s a m (ground arith)
]

lower_end-pos : (a : ℕ) → lower_end (pos a) ≡ pos a
unfolding int_ltb
lower_end-pos a = if_false (ltb a 0) (pos 0) (pos a) (ground arith)

substring-start : (s : Text) (a m : ℕ) → substring s (pos a) (pos m) ≡ some (drop a (take m s))
unfolding substring
substring-start s a m =
    let to = upper_end (length s) (pos m) in
    ap (λ from. slice s (no_later from to) to) (lower_end-pos a) ∙ slice-upper_end s a m

substring-negative :
    (s : Text) (a m : ℕ) → substring s (negsuc a) (pos m) ≡ some (drop 0 (take m s))
unfolding substring int_ltb
substring-negative s a m = substring-start s 0 m

substring-some :
    (s : Text) (from : ℤ) (m : ℕ) → substring s from (pos m) ≡ some (drop (start from) (take m s))
unfolding start
substring-some s (pos a) m = substring-start s a m
substring-some s (negsuc a) m = substring-negative s a m

substring-none : (s : Text) (from : ℤ) (m : ℕ) → substring s from (negsuc m) ≡ none
unfolding substring int_ltb slice
substring-none s (pos a) m =
    ap (λ from. slice s (no_later from (negsuc m)) (negsuc m)) (lower_end-pos a)
substring-none s (negsuc a) m = refl

-- A substring of integers that are an int64 each: the runes before the end, without those before the start; a
-- negative start is the beginning. A negative end makes the method slice out of bounds.
pub string_substring-runes :
    {F : Type 0} (u : Utf8) (s : Text) (from : ℤ) (m : ℕ) (rest : List (Option (ExprValue F)))
    → to_int64 from ≡ from
    → m < 2 ^ 63
    → (string_substring u
          (ExprValue.string s)
          (some (ExprValue.integer from) ∷ some (ExprValue.integer (pos m)) ∷ rest)
        ≡ answer (ExprValue.string (u.encode (drop (start from) (take m (u.runes s))))))
      × (string_substring u
            (ExprValue.string s)
            (some (ExprValue.integer from) ∷ some (ExprValue.integer (negsuc m)) ∷ rest)
          ≡ crashed)
unfolding string_substring
string_substring-runes u s from m rest h k = (
  ap₂ (λ from to. encoded u (substring (u.runes s) from to)) h (to_int64-small m k)
      ∙ ap (encoded u) (substring-some (u.runes s) from m),
  ap₂ (λ from to. encoded u (substring (u.runes s) from to)) h (to_int64-negative m k)
      ∙ ap (encoded u) (substring-none (u.runes s) from m),
)
