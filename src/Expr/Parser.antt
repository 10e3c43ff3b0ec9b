-- ===== src/Expr/Parser.antt =====
-- kaitai/expr/expr.go: ParseExpr and the methods of the parser that call one another. What a call
-- leaves of the input is not a structural part of it, so each call costs a unit of fuel.
mod Tests
pub mod Fuel
use zanbato.Base.{
  ℕ, zero, suc, ◌+◌, ◌*◌, ◌-◌, Bool, true, false, ◌||◌, Option, none, some, [], ◌∷◌, ◌++◌, Text,
  codes, text_eq, leb, ltb, ◌==◌, ◌&&◌, if◌then◌else◌, drop, length,
}
use zanbato.Base.Platform.{Unicode, BigFloat}
use zanbato.Expr.Ast
use zanbato.Expr.Ast.{
  Node, Nodes, Parts, fstring, call, cast, unary, binary, ternary, scope, member, subscript, nil,
  cons, end, literal, embedded, UnaryOp,
}
use zanbato.Expr.Depth
use zanbato.Expr.Outcome.{
  Runes, Outcome, Parser, Failure, ok, panic, out_of_fuel, bind, ◌>>=◌, ◌>>◌, pure,
  unterminated_fstring, expected_brace, expected_comma_or_bracket, expected_paren, expected_bracket,
  expected_colon,
}
use zanbato.Expr.Lexer.{is_ident, peek, skip_whitespace, token, str_escape, encode_rune}
use zanbato.Expr.Head
use zanbato.Expr.Head.{Head, expect, type_name, head}
use zanbato.Expr.Operators
use zanbato.Expr.Operators.{Operation, operation}

-- A literal part of an f-string, unless nothing was read.
abbrev flush : {F : Type 0} → Text → Parts F → Parts F
flush [] ps = ps
flush (c ∷ t) ps = literal (c ∷ t) ps

-- What ParseExpr returns: nil for an empty source, a tree, an error with its character, or a tree
-- with an error on the text that is left. `exhausted` has no counterpart.
pub data ParseResult (F : Type 0) : Type 0 where
  empty : ParseResult F
  parsed : Node F → ParseResult F
  failed : Failure → ℕ → ParseResult F
  unparsed : Node F → Runes → ParseResult F
  exhausted : ParseResult F

module _ (u : Unicode) (fl : BigFloat) where
  -- Behind a dot: a member, or a cast.
  unfoldable pub dot_suffix : Node fl.Float → Parser (Node fl.Float)
  dot_suffix n s =
      let (prop, rest) = token (is_ident u) s in
      if text_eq prop (codes "as") && (peek rest == b'<')
      then bind (type_name (drop 1 rest)) (λ t. ok (cast n t))
      else ok (member n prop) rest

  unfoldable mutual
    pub expr : ℕ → ℕ → Parser (Node fl.Float)
    expr zero depth s = out_of_fuel
    expr (suc f) depth s = bind (head u fl (skip_whitespace s)) λ h rest.
        bind (operand f h rest) λ n rest'. elim (leb Depth.primary depth) [
          | true ↦ ok n rest'
          | false ↦ expr_loop f depth false n rest'
        ]

    -- The first switch: the parts of a primary expression.
    pub operand : ℕ → Head fl.Float → Parser (Node fl.Float)
    operand zero h s = out_of_fuel
    operand (suc f) (Head.leaf n) s = ok n s
    operand (suc f) (Head.fstring quote) s = bind (fstr_lit f quote [] s) λ ps. ok (fstring ps)
    operand (suc f) Head.logical_not s =
        bind (expr f Depth.compare s) λ n. ok (unary n UnaryOp.logical_not)
    operand (suc f) Head.paren s =
        bind (expr f 0 s) λ n rest. bind (expect b')' expected_paren rest) λ _. ok n
    operand (suc f) Head.array s = bind (array_lit f s) λ xs. ok (Node.array xs)
    operand (suc f) Head.negate s = bind (expr f Depth.member s) λ n. ok (unary n UnaryOp.negate)
    operand (suc f) Head.plus s = expr f Depth.member s
    operand (suc f) Head.invert s = bind (expr f Depth.member s) λ n. ok (unary n UnaryOp.invert)

    pub expr_loop : ℕ → ℕ → Bool → Node fl.Float → Parser (Node fl.Float)
    expr_loop zero depth saw_compare n s = out_of_fuel
    expr_loop (suc f) depth saw_compare n s =
        apply_operation f depth saw_compare n (operation u depth saw_compare s)

    pub apply_operation : ℕ → ℕ → Bool → Node fl.Float → Operation → Outcome (Node fl.Float)
    apply_operation zero depth saw_compare n op = out_of_fuel
    apply_operation (suc f) depth saw_compare n (Operation.finish s) = ok n s
    apply_operation (suc f) depth saw_compare n (Operation.wrong e s) = panic e s
    apply_operation (suc f) depth saw_compare n (Operation.scope s) =
        let (t, rest) = token (is_ident u) s in expr_loop f depth saw_compare (scope n t) rest
    apply_operation (suc f) depth saw_compare n (Operation.dot s) =
        bind (dot_suffix n s) λ n'. expr_loop f depth saw_compare n'
    apply_operation (suc f) depth saw_compare n (Operation.call s) =
        bind (call_args f s) λ args rest.
          bind (expect b')' expected_paren (skip_whitespace rest))
            λ _. expr_loop f depth saw_compare (call n args)
    apply_operation (suc f) depth saw_compare n (Operation.index s) = bind (expr f 0 s) λ i rest.
        bind (expect b']' expected_bracket rest) λ _. expr_loop f depth saw_compare (subscript n i)
    apply_operation (suc f) depth saw_compare n (Operation.ternary s) = bind (expr f 0 s) λ b rest.
        bind (expect b':' expected_colon rest)
          λ _ rest'. bind (expr f 0 rest') λ c. ok (ternary n b c)
    apply_operation (suc f) depth saw_compare n (Operation.binary op right compares s) =
        bind (expr f right s) λ b. expr_loop f depth (saw_compare || compares) (binary n b op)

    -- Behind the opening parenthesis of a call.
    pub call_args : ℕ → Parser (Nodes fl.Float)
    call_args zero s = out_of_fuel
    call_args (suc f) s =
        let args =
          bind (expr f 0 (skip_whitespace s))
            λ x rest. bind (more_args f rest) λ xs. ok (cons x xs) in
        if peek (skip_whitespace s) == b')' then ok nil (skip_whitespace s) else args

    pub more_args : ℕ → Parser (Nodes fl.Float)
    more_args zero s = out_of_fuel
    more_args (suc f) s =
        let args =
          bind (expr f 0 (skip_whitespace (drop 1 (skip_whitespace s))))
            λ x rest. bind (more_args f rest) λ xs. ok (cons x xs) in
        if peek (skip_whitespace s) == b',' then args else ok nil (skip_whitespace s)

    -- Behind the opening bracket of an array.
    pub array_lit : ℕ → Parser (Nodes fl.Float)
    array_lit zero s = out_of_fuel
    array_lit (suc f) s =
        let items =
          bind (expr f 0 (skip_whitespace s))
            λ x rest. bind (more_items f rest) λ xs. ok (cons x xs) in
        if peek (skip_whitespace s) == b']' then ok nil (drop 1 (skip_whitespace s)) else items

    pub more_items : ℕ → Parser (Nodes fl.Float)
    more_items zero s = out_of_fuel
    more_items (suc f) s =
        let behind = skip_whitespace (drop 1 (skip_whitespace s)) in
        let items =
          bind (expr f 0 behind) λ x rest. bind (more_items f rest) λ xs. ok (cons x xs) in
        if peek (skip_whitespace s) == b','
        then if peek behind == b']' then ok nil (drop 1 behind) else items
        else if peek (skip_whitespace s) == b']'
        then ok nil (drop 1 (skip_whitespace s))
        else panic expected_comma_or_bracket (skip_whitespace s)

    -- Behind the opening quote of an f-string, with the literal text read since the last part.
    pub fstr_lit : ℕ → ℕ → Text → Parser (Parts fl.Float)
    fstr_lit zero quote lit s = out_of_fuel
    fstr_lit (suc f) quote lit [] = panic unterminated_fstring []
    fstr_lit (suc f) quote lit (c ∷ s) =
        let escaped = bind (str_escape quote s) λ e rest. fstr_lit f quote (lit ++ e) rest in
        let interpolated = bind (expr f 0 s) λ n rest.
          bind (expect b'}' expected_brace rest)
            λ _ rest'. bind (fstr_lit f quote [] rest') λ ps. ok (flush lit (embedded n ps)) in
        let plain = fstr_lit f quote (lit ++ encode_rune c) s in
        if c == quote
        then ok (flush lit end) s
        else if c == 0x5C
        then escaped
        else if c == b'{'
        then interpolated
        else plain

  -- Two rounds for a rune of an operator and two for one of its operand, and those of the last call.
  unfoldable pub parse_fuel : Runes → ℕ
  parse_fuel src = 4 * length src + 4

  unfoldable pub parse_outcome : Runes → Outcome (Node fl.Float) → ParseResult fl.Float
  parse_outcome src (ok n []) = parsed n
  parse_outcome src (ok n (c ∷ s)) = unparsed n (c ∷ s)
  parse_outcome src (panic e rest) = failed e (length src - length rest + 1)
  parse_outcome src out_of_fuel = exhausted

  unfoldable pub parse_expr : Runes → ParseResult fl.Float
  parse_expr [] = empty
  parse_expr (c ∷ s) = parse_outcome (c ∷ s) (expr (parse_fuel (c ∷ s)) 0 (c ∷ s))
