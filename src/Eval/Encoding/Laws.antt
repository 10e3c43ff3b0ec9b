-- ===== src/Eval/Encoding/Laws.antt =====
-- kaitai/eval/encoding.go and readtypes.go: the two tests for UTF-16, and the two ways to read a string.
use zanbato.Base.{
  ℕ, Bool, true, false, ◌&&◌, ◌||◌, Option, none, some, List, [], ◌∷◌, map, Text, codes, text_eq,
  text_eq→eq, ◌==◌, if◌then◌else◌, ◌≡◌, refl, sym, ap, ap₂, ◌∙◌, Bool-cases, inl, inr, arith,
}
use zanbato.Base.Int.{ℤ, pos, negsuc}
use zanbato.Eval.Path.Runes.{lacks}
use zanbato.Eval.Strip.{strip_bytes}
use zanbato.Eval.Encoding.{
  Encoding, utf16_le, utf16_be, shift_jis, code_page437, iso8859_1, windows1252, without,
  lookup_encoding, get_encoding, is_utf16, sized_string_bytes, eos_string_bytes,
}

-- A decoder of UTF-16.
unfoldable pub decodes_utf16 : Option Encoding → Bool
decodes_utf16 (some utf16_le) = true
decodes_utf16 (some utf16_be) = true
decodes_utf16 _ = false

unfoldable pub names_utf16 : Text → Bool
names_utf16 s = text_eq s (codes "UTF16LE") || text_eq s (codes "UTF16BE")

==→≡ : (a b : ℕ) → (a == b) ≡ true → a ≡ b
==→≡ a b h = ground arith

==-refl : (a : ℕ) → (a == a) ≡ true
==-refl a = ground arith

chain :
    (a b c d e f g h : Bool)
    → (a ≡ true → (c || d) ≡ false)
    → (b ≡ true → (c || d) ≡ false)
    → decodes_utf16 (
        if a
        then none
        else if b
        then none
        else if c
        then some utf16_le
        else if d
        then some utf16_be
        else if e
        then some shift_jis
        else if f
        then some code_page437
        else if g
        then some iso8859_1
        else if h
        then some windows1252
        else none)
      ≡ (c || d)
unfolding decodes_utf16
chain a b c d e f g h k l = ground arith

named_otherwise : (s t : Text) → text_eq s t ≡ true → names_utf16 t ≡ false → names_utf16 s ≡ false
named_otherwise s t h k = ap names_utf16 (text_eq→eq s t h) ∙ k

either :
    (s t u : Text)
    → (text_eq s t || text_eq s u) ≡ true
    → names_utf16 t ≡ false
    → names_utf16 u ≡ false
    → names_utf16 s ≡ false
either s t u h k l = elim (Bool-cases (text_eq s t)) [
  | inl e ↦ named_otherwise s t e k
  | inr e ↦ named_otherwise s u (ap (λ c. c || text_eq s u) (sym e) ∙ h) l
]

lookup_encoding-utf16 : (s : Text) → decodes_utf16 (lookup_encoding s) ≡ names_utf16 s
unfolding names_utf16
lookup_encoding-utf16 s =
    chain _ _ (text_eq s (codes "UTF16LE")) (text_eq s (codes "UTF16BE")) _ _ _ _
      (λ h. either s (codes "UTF8") [] h refl refl) (λ h. named_otherwise s (codes "ASCII") h refl)

lacks-without : (s : Text) → lacks b'_' (without b'-' s) ≡ lacks b'_' s
unfolding lacks without
lacks-without [] = refl
lacks-without (c ∷ s) = ground (arith, lacks-without s)

without-lacks : (c : ℕ) (s : Text) → lacks c s ≡ true → without c s ≡ s
unfolding lacks without
without-lacks c [] h = refl
without-lacks c (d ∷ s) h = ground (arith, without-lacks c s)

mapped : (f : ℕ → ℕ) (c d : ℕ) → f c ≡ c → (d == c) ≡ true → (f d == c) ≡ true
mapped f c d e h = ap (λ x. f x == c) (==→≡ d c h) ∙ ap (λ x. x == c) e ∙ ==-refl c

lacks-map : (f : ℕ → ℕ) (c : ℕ) (s : Text) → f c ≡ c → lacks c (map f s) ≡ true → lacks c s ≡ true
unfolding lacks
lacks-map f c [] e h = refl
lacks-map f c (d ∷ s) e h = ground (arith, lacks-map f c s e, mapped f c d e)

no_underscore_le : lacks b'_' (codes "UTF16LE") ≡ true
unfolding lacks
no_underscore_le = refl

no_underscore_be : lacks b'_' (codes "UTF16BE") ≡ true
unfolding lacks
no_underscore_be = refl

names_utf16-lacks : (s : Text) → names_utf16 s ≡ true → lacks b'_' s ≡ true
unfolding names_utf16
names_utf16-lacks s h = elim (Bool-cases (text_eq s (codes "UTF16LE"))) [
  | inl e ↦ ap (lacks b'_') (text_eq→eq s (codes "UTF16LE") e) ∙ no_underscore_le
  | inr e ↦
      ap (lacks b'_')
        (text_eq→eq s (codes "UTF16BE") (ap (λ c. c || text_eq s (codes "UTF16BE")) (sym e) ∙ h))
      ∙ no_underscore_be
]

and_true : (b : Bool) → (b && true) ≡ b
and_true true = refl
and_true false = refl

and_false : (b : Bool) → (b && false) ≡ false
and_false true = refl
and_false false = refl

true≢false : true ≡ false → ⊥
true≢false h = cc

not_named : (b : Bool) → (b ≡ true → ⊥) → b ≡ false
not_named true f = absurd (f refl)
not_named false f = refl

same_branches {ℓ} :
    {A : Type ℓ} (c : Bool) (x y : A) → (if c then x else y) ≡ (if c && true then x else y)
same_branches true x y = refl
same_branches false x y = refl

same_bytes {ℓ} :
    {A : Type ℓ} (c : Bool) (x y : A) → (if c then x else x) ≡ (if c && false then y else x)
same_bytes true x y = refl
same_bytes false x y = refl

-- readStringBytes takes an encoding for one of UTF-16 exactly where getEncoding has a decoder of UTF-16
-- for its name, and the name is written without an underscore, where an underscore is its own capital.
pub is_utf16-get_encoding :
    (to_upper : ℕ → ℕ) (name : Text)
    → to_upper b'_' ≡ b'_'
    → is_utf16 to_upper name ≡ (decodes_utf16 (get_encoding to_upper name) && lacks b'_' name)
unfolding is_utf16 get_encoding names_utf16
is_utf16-get_encoding to_upper name h = elim (Bool-cases (lacks b'_' (without b'-' name))) [
  | inl k ↦ sym (
      ap₂ (λ a b. a && b)
        (lookup_encoding-utf16 (map to_upper (without b'_' (without b'-' name)))
          ∙ ap (λ y. names_utf16 (map to_upper y)) (without-lacks b'_' (without b'-' name) k))
        (sym (lacks-without name) ∙ k)
      ∙ and_true (names_utf16 (map to_upper (without b'-' name))))
  | inr k ↦
      not_named (names_utf16 (map to_upper (without b'-' name))) (λ e. true≢false (
        sym (
          lacks-map to_upper b'_' (without b'-' name) h
            (names_utf16-lacks (map to_upper (without b'-' name)) e))
        ∙ k))
      ∙ sym (
          ap (λ b. decodes_utf16 (get_encoding to_upper name) && b) (sym (lacks-without name) ∙ k)
          ∙ and_false (decodes_utf16 (get_encoding to_upper name)))
]

-- Where no padding is given, a string has the same bytes whether its size is given or it reads up to
-- the end of a stream of that size.
sized_string_bytes-eos :
    (to_upper : ℕ → ℕ) (bytes_strip_right : List ℕ → ℕ → List ℕ) (bytes : List ℕ) (name : Text)
    (term : ℤ) (n : ℕ) (include_ : Bool)
    → sized_string_bytes to_upper bytes_strip_right bytes name term (negsuc n) include_
      ≡ eos_string_bytes to_upper bytes_strip_right bytes name term (negsuc n) include_
unfolding sized_string_bytes eos_string_bytes strip_bytes
sized_string_bytes-eos to_upper strip bytes name (pos t) n include_ =
    same_branches (is_utf16 to_upper name) _ _
sized_string_bytes-eos to_upper strip bytes name (negsuc t) n include_ =
    same_bytes (is_utf16 to_upper name) bytes _
