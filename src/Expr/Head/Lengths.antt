-- ===== src/Expr/Head/Lengths.antt =====
-- kaitai/expr/expr.go, the first switch of `expr`: the beginning of an operand takes a rune at least.
use zanbato.Base.{
  ℕ, suc, ◌+◌, ◌≡◌, refl, true, false, not, ◌&&◌, ◌||◌, [], ◌∷◌, Text, ◌==◌, arith, drop, length,
  length-drop,
}
use zanbato.Base.Platform.{Unicode, BigFloat}
use zanbato.Expr.Ast.{Node, ident, string}
use zanbato.Expr.Outcome.{
  Runes, Failure, Leaves, returns, panics, Leaves-if, Leaves-either, Leaves-weaken, Leaves-bind, ok,
  expected_greater, expected_primary,
}
use zanbato.Expr.Lexer.{
  peek, peek2, is_digit, is_number, is_ident, is_ident_start, is_letter, token, is_quote,
}
use zanbato.Expr.Lexer.Lengths.{
  AtMost, Below, length-token, length-token_lt, str_lit-Leaves, str_concat-Leaves, quote_ahead,
}
use zanbato.Expr.Number.Lengths.{number-Leaves}
use zanbato.Expr.Head.{
  Head, leaf, fstring, paren, array, negate, plus, invert, expect, type_name, size_head, word_head,
  strings, sign_head, head,
}

-- A rune that is matched is taken.
pub expect-Leaves : (c : ℕ) (e : Failure) (s : Runes) → Leaves (AtMost s) (expect c e s)
unfolding expect
expect-Leaves c e s =
    Leaves-if (peek s == c) (λ _. returns tt (drop 1 s) (omega (arith, length-drop 1 s)))
      (λ _. panics e (drop 1 s))

pub type_name-Leaves : (s : Runes) → Leaves (AtMost s) (type_name s)
unfolding type_name
type_name-Leaves s =
    let test = λ (c : ℕ). not (c == b'>') && not (c == 0) in
    let (t, rest) = token test s in
    Leaves-bind (expect-Leaves b'>' expected_greater rest)
      λ _ r h. returns t r (omega (arith, length-token test s))

module _ (u : Unicode) (fl : BigFloat) where
  size_head-Leaves :
      (tok : Text) (make : Text → Node fl.Float) (s : Runes)
      → Leaves (AtMost s) (size_head u fl tok make s)
  unfolding size_head
  size_head-Leaves tok make s =
      Leaves-if (peek s == b'<')
        (λ _.
          Leaves-bind (type_name-Leaves (drop 1 s))
            λ t r h. returns (leaf (make t)) r (omega (arith, length-drop 1 s)))
        (λ _. returns (leaf (ident tok)) s (omega arith))

  stays : (h : Head fl.Float) (s : Runes) → Leaves (AtMost s) (ok h s)
  stays h s = returns h s (omega arith)

  word_head-Leaves : (tok : Text) (s : Runes) → Leaves (AtMost s) (word_head u fl tok s)
  unfolding word_head
  word_head-Leaves tok s =
      let quoted : Leaves {A = Head fl.Float} (AtMost s) (ok (fstring (peek s)) (drop 1 s)) =
        returns (fstring (peek s)) (drop 1 s) (omega (arith, length-drop 1 s)) in
      search (Leaves-either, quoted, stays, size_head-Leaves) depth 12

  strings-Leaves : (s : Runes) → is_quote (peek s) ≡ true → Leaves (Below s) (strings u fl s)
  unfolding strings
  strings-Leaves s q = Leaves-bind (str_lit-Leaves s (quote_ahead s q)) λ first r h.
      Leaves-bind (str_concat-Leaves (length r + 1) first r (omega arith))
        λ t r' h'. returns (leaf (string t)) r' (omega arith)

  ident_start_is_ident : (c : ℕ) → is_ident_start u c ≡ true → is_ident u c ≡ true
  unfolding is_ident
  ident_start_is_ident c h = rw h

  is_ident-zero : is_ident u 0 ≡ false
  unfolding is_ident is_ident_start is_letter is_digit
  is_ident-zero = refl

  -- An operator sign is taken.
  sign-Leaves :
      (c : ℕ) (h : Head fl.Float) (s : Runes)
      → (peek s == suc c) ≡ true
      → Leaves (Below s) (ok h (drop 1 s))
  unfolding peek
  sign-Leaves c h [] e = ground arith
  sign-Leaves c h (d ∷ s) e = returns h s (omega arith)

  sign_head-Leaves : (s : Runes) → Leaves (Below s) (sign_head u fl s)
  unfolding sign_head
  sign_head-Leaves s = Leaves-if (peek s == b'(') (sign-Leaves 39 paren s) (λ _.
      Leaves-if (peek s == b'[') (sign-Leaves 90 array s) (λ _.
        Leaves-if (peek s == b'-') (sign-Leaves 44 negate s) (λ _.
          Leaves-if (peek s == b'+') (sign-Leaves 42 plus s) (λ _.
            Leaves-if (peek s == b'~') (sign-Leaves 125 invert s)
              (λ _. panics expected_primary s)))))

  pub head-Leaves : (s : Runes) → Leaves (Below s) (head u fl s)
  unfolding head
  head-Leaves s =
      Leaves-if (is_ident_start u (peek s))
        (λ i. Leaves-weaken (word_head-Leaves _ _) (λ r h.
          omega (arith, length-token_lt (is_ident u) s (ident_start_is_ident _ i) is_ident-zero)))
        (λ _.
          Leaves-if (is_number u (peek s) || peek s == b'.' && is_digit u (peek2 s))
            (λ n. Leaves-bind (number-Leaves u fl s n) λ n' r h. returns (leaf n') r h)
            (λ _.
              Leaves-if (is_quote (peek s)) (λ q. strings-Leaves s q) (λ _. sign_head-Leaves s)))
