-- ===== src/Expr/Number/Lengths.antt =====
-- kaitai/expr/expr.go, `number`: a number takes a rune at least.
use zanbato.Base.{
  ℕ, ◌≤◌, ◌<◌, ◌≡◌, refl, Bool, true, false, ◌&&◌, ◌||◌, none, some, [], ◌∷◌, ◌++◌, Text, ◌==◌,
  arith, drop, length, length-drop, Bool-cases, inl, inr,
}
use zanbato.Base.Platform.{Unicode, BigFloat}
use zanbato.Base.Digits.{set_string}
use zanbato.Expr.Ast.{Node, int, float}
use zanbato.Expr.Outcome.{
  Runes, Failure, Leaves, returns, panics, Leaves-if, Leaves-either, Leaves-weaken, ok, panic,
  invalid_float, invalid_integer,
}
use zanbato.Expr.Lexer.{peek, peek2, is_digit, is_number, lower, encode_rune}
use zanbato.Expr.Lexer.Lengths.{AtMost, Below, length-token, length-token_lt, token_none}
use zanbato.Expr.Number.{
  strip_underscores, int_literal, float_literal, prefixed, fraction, exponent_sign, exponent,
  decimal, based, number, point_ahead,
}

module _ (u : Unicode) (fl : BigFloat) where
  int_literal-Leaves :
      (P : Runes → Type 0) (e : Failure) (tok : Text) (s : Runes)
      → P s
      → Leaves P (int_literal u fl e tok s)
  unfolding int_literal
  int_literal-Leaves P e tok s h =
      elim (set_string (strip_underscores tok))
        as (λ o.
          Leaves {A = Node fl.Float} P (elim o [ none ↦ panic e s | some i ↦ ok (int i) s ])) [
            | none ↦ panics e s
            | some i ↦ returns (int i) s h
          ]

  float_literal-Leaves :
      (P : Runes → Type 0) (tok : Text) (s : Runes) → P s → Leaves P (float_literal u fl tok s)
  unfolding float_literal
  float_literal-Leaves P tok s h =
      elim (fl.parse (strip_underscores tok))
        as (λ o.
          Leaves {A = Node fl.Float} P
            (elim o [ none ↦ panic invalid_float s | some x ↦ ok (float x) s ])) [
              | none ↦ panics invalid_float s
              | some x ↦ returns (float x) s h
            ]

  prefixed-Leaves :
      (e : Failure) (test : ℕ → Bool) (tok : Text) (s : Runes)
      → Leaves (AtMost s) (prefixed u fl e test tok s)
  unfolding prefixed
  prefixed-Leaves e test tok s =
      int_literal-Leaves _ e _ _ (omega (arith, length-token test (drop 1 s), length-drop 1 s))

  length-fraction : (tok : Text) (s : Runes) → length (fraction u fl tok s).1 ≤ length s
  unfolding fraction
  length-fraction tok s = elim (Bool-cases (point_ahead u fl s)) [
    | inl h ↦ rw h (omega (arith, length-token (is_number u) (drop 1 s), length-drop 1 s))
    | inr h ↦ rw h (omega arith)
  ]

  length-exponent_sign : (tok : Text) (s : Runes) → length (exponent_sign u fl tok s).1 ≤ length s
  unfolding exponent_sign
  length-exponent_sign tok s = ground (arith, length-drop 1 s)

  length-exponent :
      (tok : Text) (s : Runes) (b : Bool) → length (exponent u fl tok s b).1 ≤ length s
  unfolding exponent
  length-exponent tok s b =
      let tok₁ = tok ++ encode_rune (peek s) in
      elim (Bool-cases (lower (peek s) == b'e')) [
        | inl h ↦ rw h (
            omega (
              arith,
              length-token (is_number u) (exponent_sign u fl tok₁ (drop 1 s)).1,
              length-exponent_sign tok₁ (drop 1 s),
              length-drop 1 s,
            ))
        | inr h ↦ rw h (omega arith)
      ]

  decimal-Leaves :
      (P : Runes → Type 0) (tok : Text) (s : Runes)
      → ((r : Runes) → length r ≤ length (fraction u fl tok s).1 → P r)
      → Leaves P (decimal u fl tok s)
  unfolding decimal
  decimal-Leaves P tok s k =
      let f = fraction u fl tok s in
      let e = exponent u fl f.0 f.1 f.2 in
      let h = k e.1 (length-exponent f.0 f.1 f.2) in
      Leaves-if e.2 (λ _. float_literal-Leaves P e.0 e.1 h)
        (λ _. int_literal-Leaves P invalid_integer e.0 e.1 h)

  based-Leaves : (tok : Text) (s : Runes) → Leaves (AtMost s) (based u fl tok s)
  unfolding based
  based-Leaves tok s =
      let plain : Leaves (AtMost s) (decimal u fl tok s) =
        decimal-Leaves _ tok s (λ r h. omega (arith, length-fraction tok s)) in
      search (Leaves-either, prefixed-Leaves, plain) depth 10

  is_number-zero : is_number u 0 ≡ false
  unfolding is_number is_digit
  is_number-zero = refl

  point_ahead-digit :
      (s : Runes) → (peek s == b'.' && is_digit u (peek2 s)) ≡ true → point_ahead u fl s ≡ true
  unfolding point_ahead
  point_ahead-digit s h = ground arith

  -- A point before a digit is taken.
  length-fraction_lt :
      (tok : Text) (s : Runes)
      → (peek s == b'.' && is_digit u (peek2 s)) ≡ true
      → length (fraction u fl tok s).1 < length s
  unfolding fraction peek
  length-fraction_lt tok [] h = cc
  length-fraction_lt tok (c ∷ s) h =
      rw (point_ahead-digit (c ∷ s) h) (omega (arith, length-token (is_number u) s))

  based-Leaves_point :
      (s : Runes)
      → (peek s == b'.' && is_digit u (peek2 s)) ≡ true
      → Leaves (Below s) (based u fl [] s)
  unfolding based
  based-Leaves_point s h = decimal-Leaves _ [] s (λ r k. omega (arith, length-fraction_lt [] s h))

  -- At a digit, or at a point before one, as `expr` tests.
  pub number-Leaves :
      (s : Runes)
      → (is_number u (peek s) || peek s == b'.' && is_digit u (peek2 s)) ≡ true
      → Leaves (Below s) (number u fl s)
  unfolding number
  number-Leaves s h = elim (Bool-cases (is_number u (peek s))) [
    | inl n ↦
        let taken = length-token_lt (is_number u) s n is_number-zero in
        Leaves-weaken (based-Leaves _ _) (λ r k. omega (arith, taken))
    | inr n ↦ rw (token_none (is_number u) s n) (based-Leaves_point s (rw n at h))
  ]
