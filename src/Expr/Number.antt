-- ===== src/Expr/Number.antt =====
-- kaitai/expr/expr.go, `number`: integer and float literals.
pub mod Lengths
use zanbato.Base.{
  ℕ, Bool, true, false, not, ◌&&◌, ◌||◌, none, some, [], ◌∷◌, ◌++◌, Text, codes, text_eq, leb, ◌==◌,
  if◌then◌else◌, drop,
}
use zanbato.Base.Platform.{Unicode, BigFloat}
use zanbato.Base.Digits.{set_string}
use zanbato.Expr.Ast.{Node, int, float}
use zanbato.Expr.Outcome.{
  Runes, Outcome, Parser, Failure, ok, panic, invalid_hex, invalid_octal, invalid_binary,
  invalid_float, invalid_integer,
}
use zanbato.Expr.Lexer.{
  encode_rune, lower, is_hex, is_digit, is_number, is_ident_start, peek, peek2, token,
}

-- strings.ReplaceAll(token, "_", "")
unfoldable pub strip_underscores : Text → Text
strip_underscores [] = []
strip_underscores (c ∷ s) = let rest = strip_underscores s in if c == b'_' then rest else c ∷ rest

module _ (u : Unicode) (fl : BigFloat) where
  -- big.Int.SetString(token, 0)
  unfoldable pub int_literal : Failure → Text → Parser (Node fl.Float)
  int_literal e tok s = elim (set_string (strip_underscores tok)) [
    | none ↦ panic e s
    | some i ↦ ok (int i) s
  ]

  -- big.Float.Parse(token, 0)
  unfoldable pub float_literal : Text → Parser (Node fl.Float)
  float_literal tok s = elim (fl.parse (strip_underscores tok)) [
    | none ↦ panic invalid_float s
    | some x ↦ ok (float x) s
  ]

  -- Behind "0" and the letter of a base: the letter, then the digits of that base.
  unfoldable pub prefixed : Failure → (ℕ → Bool) → Text → Parser (Node fl.Float)
  prefixed e test tok s =
      let (t, rest) = token test (drop 1 s) in int_literal e (tok ++ encode_rune (peek s) ++ t) rest

  -- The point is part of the number unless a member name follows it.
  unfoldable pub point_ahead : Runes → Bool
  point_ahead s =
      peek s == b'.'
      && (is_digit u (peek2 s) || lower (peek2 s) == b'e' || not (is_ident_start u (peek2 s)))

  unfoldable pub fraction : Text → Runes → Text × Runes × Bool
  fraction tok s =
      let (t, rest) = token (is_number u) (drop 1 s) in
      if point_ahead s then (tok ++ encode_rune (peek s) ++ t, rest, true) else (tok, s, false)

  unfoldable pub exponent_sign : Text → Runes → Text × Runes
  exponent_sign tok s =
      if peek s == b'+' || peek s == b'-' then (tok ++ encode_rune (peek s), drop 1 s) else (tok, s)

  unfoldable pub exponent : Text → Runes → Bool → Text × Runes × Bool
  exponent tok s is_float =
      let (signed, behind) = exponent_sign (tok ++ encode_rune (peek s)) (drop 1 s) in
      let (t, rest) = token (is_number u) behind in
      if lower (peek s) == b'e' then (signed ++ t, rest, true) else (tok, s, is_float)

  unfoldable pub decimal : Text → Parser (Node fl.Float)
  decimal tok s =
      let (tok₁, s₁, point) = fraction tok s in
      let (tok₂, s₂, is_float) = exponent tok₁ s₁ point in
      if is_float then float_literal tok₂ s₂ else int_literal invalid_integer tok₂ s₂

  -- Behind the first digits: the letter of a base, or a decimal number.
  unfoldable pub based : Text → Parser (Node fl.Float)
  based tok s =
      let base = lower (peek s) in
      if text_eq tok (codes "0") && base == b'x'
      then prefixed invalid_hex (λ c. is_hex c || c == b'_') tok s
      else if text_eq tok (codes "0") && base == b'o'
      then prefixed invalid_octal (λ c. leb b'0' c && leb c b'7' || c == b'_') tok s
      else if text_eq tok (codes "0") && base == b'b'
      then prefixed invalid_binary (λ c. c == b'0' || c == b'1' || c == b'_') tok s
      else decimal tok s

  unfoldable pub number : Parser (Node fl.Float)
  number s = let (tok, rest) = token (is_number u) s in based tok rest
