-- ===== src/Eval/Path/Runes.antt =====
-- kaitai/eval/annotation.go: the runes that a printed path does not have.
use zanbato.Base.{
  ℕ, zero, suc, ◌<◌, ◌/◌, ◌%◌, not, ltb→lt, ◌++◌, ◌≡◌, refl, Bool, true, false, ◌&&◌, [], ◌∷◌, Text,
  ◌==◌, ltb, if◌then◌else◌, arith,
}
use zanbato.Base.Digits.{digit_char, digits_text, int_text}
use zanbato.Base.Int.{ℤ, pos, negsuc}

-- A rune does not occur in a text.
unfoldable pub lacks : ℕ → Text → Bool
lacks c [] = true
lacks c (d ∷ s) = not (d == c) && lacks c s

pub lacks-append :
    (c : ℕ) (s t : Text) → lacks c s ≡ true → lacks c t ≡ true → lacks c (s ++ t) ≡ true
unfolding lacks
lacks-append c [] t h k = k
lacks-append c (d ∷ s) t h k = ground (arith, lacks-append c s t)

nil_lacks : lacks b'.' [] ≡ true
unfolding lacks
nil_lacks = refl

minus_lacks : lacks b'.' (b'-' ∷ []) ≡ true
unfolding lacks
minus_lacks = refl

digit_char-dot : (d : ℕ) → d < 10 → lacks b'.' (digit_char d ∷ []) ≡ true
unfolding lacks digit_char
digit_char-dot d h = ground arith

digits_text-dot : (fuel n : ℕ) → lacks b'.' (digits_text fuel 10 n) ≡ true
unfolding digits_text
digits_text-dot zero n = nil_lacks
digits_text-dot (suc fuel) n = decided (digits_text-dot fuel (n / 10)) (ltb n 10) refl
  where
    decided :
        lacks b'.' (digits_text fuel 10 (n / 10)) ≡ true
        → (b : Bool) → ltb n 10 ≡ b
        → lacks b'.' (
            if b
            then digit_char n ∷ []
            else digits_text fuel 10 (n / 10) ++ digit_char (n % 10) ∷ [])
          ≡ true
    decided high true h = digit_char-dot n (ltb→lt n 10 h)
    decided high false h =
        lacks-append b'.' (digits_text fuel 10 (n / 10)) (digit_char (n % 10) ∷ []) high
          (digit_char-dot (n % 10) (omega arith))

pub int_text-dot : (i : ℤ) → lacks b'.' (int_text 10 i) ≡ true
unfolding int_text
int_text-dot (pos n) = digits_text-dot (suc n) n
int_text-dot (negsuc n) =
    lacks-append b'.' (b'-' ∷ []) (digits_text (suc (suc n)) 10 (suc n)) minus_lacks
      (digits_text-dot (suc (suc n)) (suc n))
