-- ===== src/Expr/Parser/Fuel.antt =====
-- kaitai/expr/expr.go: the parser ends. The fuel that `parse_expr` hands out is enough for every
-- source, since each operand and each operator takes a rune at least.
use zanbato.Base.{
  ℕ, zero, suc, ◌+◌, ◌*◌, ◌≤◌, refl, ◌≢◌, Bool, true, false, ◌||◌, [], ◌∷◌, ◌++◌, Text, ◌==◌, arith,
  drop, leb, length, length-drop,
}
use zanbato.Base.Platform.{Unicode, BigFloat}
use zanbato.Expr.Ast.{
  Node, fstring, array, call, cast, unary, binary, ternary, member, subscript, nil, cons, end,
  embedded, UnaryOp,
}
use zanbato.Expr.Depth
use zanbato.Expr.Outcome.{
  Runes, Outcome, Leaves, returns, panics, Leaves-either, Leaves-weaken, Leaves-bind,
  Leaves-out_of_fuel, ok, panic, out_of_fuel, expected_paren, expected_bracket, expected_colon,
  expected_brace, expected_comma_or_bracket,
}
use zanbato.Expr.Lexer.{peek, skip_whitespace, token, is_ident, encode_rune}
use zanbato.Expr.Lexer.Lengths.{
  AtMost, Below, length-skip_whitespace, length-token, str_escape-Leaves,
}
use zanbato.Expr.Head.{Head}
use zanbato.Expr.Head.Lengths.{expect-Leaves, type_name-Leaves, head-Leaves}
use zanbato.Expr.Operators.{Operation}
use zanbato.Expr.Operators.Lengths.{
  Takes, stops, wrongs, scopes, dots, calls, indexes, ternaries, binaries, operation-Takes,
}
use zanbato.Expr.Parser.{
  flush, dot_suffix, expr, operand, expr_loop, apply_operation, call_args, more_args, array_lit,
  more_items, fstr_lit, parse_fuel, parse_outcome, parse_expr, exhausted,
}

module _ (u : Unicode) (fl : BigFloat) where
  dot_suffix-Leaves : (n : Node fl.Float) (s : Runes) → Leaves (AtMost s) (dot_suffix u fl n s)
  unfolding dot_suffix
  dot_suffix-Leaves n s =
      let (prop, rest) = token (is_ident u) s in
      let behind = length-token (is_ident u) s in
      Leaves-either _
        (Leaves-bind (type_name-Leaves (drop 1 rest))
          λ t r h. returns (cast n t) r (omega (arith, behind, length-drop 1 rest)))
        (returns (member n prop) rest behind)

  mutual
    unfolding expr

    expr-Leaves :
        (f depth : ℕ) (s : Runes) → 4 * length s + 1 ≤ f → Leaves (Below s) (expr u fl f depth s)
    expr-Leaves zero depth s h = absurd (omega arith)
    expr-Leaves (suc f) depth s h =
        let short = length-skip_whitespace s in
        Leaves-bind (head-Leaves u fl (skip_whitespace s)) λ hd r k.
          Leaves-bind (operand-Leaves f hd r (omega arith)) λ n r' k'.
            elim (leb Depth.primary depth)
              as (λ b.
                Leaves {A = Node fl.Float} (Below s)
                  (elim b [ true ↦ ok n r' | false ↦ expr_loop u fl f depth false n r' ])) [
                    | true ↦ returns n r' (omega arith)
                    | false ↦
                        Leaves-weaken {Q = Below s}
                          (expr_loop-Leaves f depth false n r' (omega arith)) (λ q j. omega arith)
                  ]

    operand-Leaves :
        (f : ℕ) (h : Head fl.Float) (s : Runes)
        → 4 * length s + 3 ≤ f
        → Leaves (AtMost s) (operand u fl f h s)
    operand-Leaves zero hd s h = absurd (omega arith)
    operand-Leaves (suc f) (Head.leaf n) s h = returns n s (omega arith)
    operand-Leaves (suc f) (Head.fstring quote) s h =
        Leaves-bind (fstr_lit-Leaves f quote [] s (omega arith)) λ ps r k. returns (fstring ps) r k
    operand-Leaves (suc f) Head.logical_not s h =
        Leaves-bind (expr-Leaves f Depth.compare s (omega arith))
          λ n r k. returns (unary n UnaryOp.logical_not) r (omega arith)
    operand-Leaves (suc f) Head.paren s h = Leaves-bind (expr-Leaves f 0 s (omega arith)) λ n r k.
        Leaves-bind (expect-Leaves b')' expected_paren r) λ _ r' k'. returns n r' (omega arith)
    operand-Leaves (suc f) Head.array s h =
        Leaves-bind (array_lit-Leaves f s (omega arith)) λ xs r k. returns (array xs) r k
    operand-Leaves (suc f) Head.negate s h =
        Leaves-bind (expr-Leaves f Depth.member s (omega arith))
          λ n r k. returns (unary n UnaryOp.negate) r (omega arith)
    operand-Leaves (suc f) Head.plus s h =
        Leaves-weaken (expr-Leaves f Depth.member s (omega arith)) (λ r k. omega arith)
    operand-Leaves (suc f) Head.invert s h =
        Leaves-bind (expr-Leaves f Depth.member s (omega arith))
          λ n r k. returns (unary n UnaryOp.invert) r (omega arith)

    expr_loop-Leaves :
        (f depth : ℕ) (saw : Bool) (n : Node fl.Float) (s : Runes)
        → 4 * length s + 2 ≤ f
        → Leaves (AtMost s) (expr_loop u fl f depth saw n s)
    expr_loop-Leaves zero depth saw n s h = absurd (omega arith)
    expr_loop-Leaves (suc f) depth saw n s h =
        apply_operation-Leaves f depth saw n s (operation-Takes u depth saw s) (omega arith)

    apply_operation-Leaves :
        (f depth : ℕ) (saw : Bool) (n : Node fl.Float) (s : Runes) {op : Operation}
        → Takes s op
        → 4 * length s + 1 ≤ f
        → Leaves (AtMost s) (apply_operation u fl f depth saw n op)
    apply_operation-Leaves zero depth saw n s t h = absurd (omega arith)
    apply_operation-Leaves (suc f) depth saw n s (stops r b) h = returns n r b
    apply_operation-Leaves (suc f) depth saw n s (wrongs e r) h = panics e r
    apply_operation-Leaves (suc f) depth saw n s (scopes r b) h =
        let behind = length-token (is_ident u) r in
        Leaves-weaken (expr_loop-Leaves f depth saw _ _ (omega arith)) (λ q k. omega arith)
    apply_operation-Leaves (suc f) depth saw n s (dots r b) h =
        Leaves-bind (dot_suffix-Leaves n r) λ n' q k.
          Leaves-weaken (expr_loop-Leaves f depth saw n' q (omega arith)) (λ q' k'. omega arith)
    apply_operation-Leaves (suc f) depth saw n s (calls r b) h =
        Leaves-bind (call_args-Leaves f r (omega arith)) λ args q k.
          Leaves-bind (expect-Leaves b')' expected_paren (skip_whitespace q)) λ _ q' k'.
            let short = length-skip_whitespace q in
            Leaves-weaken (expr_loop-Leaves f depth saw (call n args) q' (omega arith))
              (λ p j. omega arith)
    apply_operation-Leaves (suc f) depth saw n s (indexes r b) h =
        Leaves-bind (expr-Leaves f 0 r (omega arith)) λ i q k.
          Leaves-bind (expect-Leaves b']' expected_bracket q) λ _ q' k'.
            Leaves-weaken (expr_loop-Leaves f depth saw (subscript n i) q' (omega arith))
              (λ p j. omega arith)
    apply_operation-Leaves (suc f) depth saw n s (ternaries r b) h =
        Leaves-bind (expr-Leaves f 0 r (omega arith)) λ t q k.
          Leaves-bind (expect-Leaves b':' expected_colon q) λ _ q' k'.
            Leaves-bind (expr-Leaves f 0 q' (omega arith))
              λ e p j. returns (ternary n t e) p (omega arith)
    apply_operation-Leaves (suc f) depth saw n s (binaries op right compares r b) h =
        Leaves-bind (expr-Leaves f right r (omega arith)) λ m q k.
          Leaves-weaken (expr_loop-Leaves f depth (saw || compares) (binary n m op) q (omega arith))
            (λ p j. omega arith)

    call_args-Leaves :
        (f : ℕ) (s : Runes) → 4 * length s + 2 ≤ f → Leaves (AtMost s) (call_args u fl f s)
    call_args-Leaves zero s h = absurd (omega arith)
    call_args-Leaves (suc f) s h =
        let short = length-skip_whitespace s in
        Leaves-either (peek (skip_whitespace s) == b')') (returns nil (skip_whitespace s) short) (
          Leaves-bind (expr-Leaves f 0 (skip_whitespace s) (omega arith)) λ x r k.
            Leaves-bind (more_args-Leaves f r (omega arith))
              λ xs q j. returns (cons x xs) q (omega arith))

    more_args-Leaves :
        (f : ℕ) (s : Runes) → 4 * length s + 2 ≤ f → Leaves (AtMost s) (more_args u fl f s)
    more_args-Leaves zero s h = absurd (omega arith)
    more_args-Leaves (suc f) s h =
        let short = length-skip_whitespace s in
        let behind = drop 1 (skip_whitespace s) in
        let shorter = length-skip_whitespace behind in
        let dropped = length-drop 1 (skip_whitespace s) in
        Leaves-either (peek (skip_whitespace s) == b',')
          (Leaves-bind (expr-Leaves f 0 (skip_whitespace behind) (omega arith)) λ x r k.
            Leaves-bind (more_args-Leaves f r (omega arith))
              λ xs q j. returns (cons x xs) q (omega arith))
          (returns nil (skip_whitespace s) short)

    array_lit-Leaves :
        (f : ℕ) (s : Runes) → 4 * length s + 2 ≤ f → Leaves (AtMost s) (array_lit u fl f s)
    array_lit-Leaves zero s h = absurd (omega arith)
    array_lit-Leaves (suc f) s h =
        let short = length-skip_whitespace s in
        Leaves-either (peek (skip_whitespace s) == b']')
          (returns nil (drop 1 (skip_whitespace s))
            (omega (arith, length-drop 1 (skip_whitespace s))))
          (Leaves-bind (expr-Leaves f 0 (skip_whitespace s) (omega arith)) λ x r k.
            Leaves-bind (more_items-Leaves f r (omega arith))
              λ xs q j. returns (cons x xs) q (omega arith))

    more_items-Leaves :
        (f : ℕ) (s : Runes) → 4 * length s + 2 ≤ f → Leaves (AtMost s) (more_items u fl f s)
    more_items-Leaves zero s h = absurd (omega arith)
    more_items-Leaves (suc f) s h =
        let short = length-skip_whitespace s in
        let ahead = skip_whitespace s in
        let dropped = length-drop 1 ahead in
        let behind = skip_whitespace (drop 1 ahead) in
        let shorter = length-skip_whitespace (drop 1 ahead) in
        Leaves-either (peek ahead == b',')
          (Leaves-either (peek behind == b']')
            (returns nil (drop 1 behind) (omega (arith, length-drop 1 behind)))
            (Leaves-bind (expr-Leaves f 0 behind (omega arith)) λ x r k.
              Leaves-bind (more_items-Leaves f r (omega arith))
                λ xs q j. returns (cons x xs) q (omega arith)))
          (Leaves-either (peek ahead == b']') (returns nil (drop 1 ahead) (omega arith))
            (panics expected_comma_or_bracket ahead))

    fstr_lit-Leaves :
        (f quote : ℕ) (lit : Text) (s : Runes)
        → 4 * length s + 2 ≤ f
        → Leaves (AtMost s) (fstr_lit u fl f quote lit s)
    fstr_lit-Leaves zero quote lit s h = absurd (omega arith)
    fstr_lit-Leaves (suc f) quote lit [] h = panics _ _
    fstr_lit-Leaves (suc f) quote lit (c ∷ s) h =
        Leaves-either (c == quote) (returns (flush lit end) s (omega arith)) (
          Leaves-either (c == 0x5C)
            (Leaves-bind (str_escape-Leaves quote s) λ e r k.
              Leaves-weaken (fstr_lit-Leaves f quote (lit ++ e) r (omega arith))
                (λ q j. omega arith))
            (Leaves-either (c == b'{')
              (Leaves-bind (expr-Leaves f 0 s (omega arith)) λ n r k.
                Leaves-bind (expect-Leaves b'}' expected_brace r) λ _ r' k'.
                  Leaves-bind (fstr_lit-Leaves f quote [] r' (omega arith))
                    λ ps q j. returns (flush lit (embedded n ps)) q (omega arith))
              (Leaves-weaken (fstr_lit-Leaves f quote (lit ++ encode_rune c) s (omega arith))
                (λ q j. omega arith))))

  parse_outcome-ne-exhausted :
      (src : Runes) {r : Outcome (Node fl.Float)}
      → r ≢ out_of_fuel
      → parse_outcome u fl src r ≢ exhausted
  unfolding parse_outcome
  parse_outcome-ne-exhausted src {r} h = split r h
    where
      split : (r : Outcome (Node fl.Float)) → r ≢ out_of_fuel → parse_outcome u fl src r ≢ exhausted
      split (ok n []) h = cc
      split (ok n (c ∷ s)) h = cc
      split (panic e s) h = cc
      split out_of_fuel h = absurd (h refl)

  -- Every source has an outcome of the program: nil for the empty one, a tree, a tree with text
  -- left over, or an error at a character; the fuel handed out is never used up.
  pub parse_expr-ne-exhausted : (src : Runes) → parse_expr u fl src ≢ exhausted
  unfolding parse_expr
  parse_expr-ne-exhausted [] = cc
  parse_expr-ne-exhausted (c ∷ s) =
      parse_outcome-ne-exhausted (c ∷ s)
        (Leaves-out_of_fuel (expr-Leaves (parse_fuel u fl (c ∷ s)) 0 (c ∷ s) enough))
    where
      enough : 4 * length (c ∷ s) + 1 ≤ parse_fuel u fl (c ∷ s)
      enough = unfold parse_fuel in omega arith
