-- ===== src/Expr/Parser/Tests.antt =====
-- kaitai/expr/expr.go: the parser on sources that can be followed there.
use zanbato.Base.{◌≡◌, ◌≢◌, refl, Text, codes}
use zanbato.Base.Int.{pos}
use zanbato.Base.Samples.{ascii, text_float}
use zanbato.Expr.Parser.Fuel.{parse_expr-ne-exhausted}
use zanbato.Expr.Ast.{
  Node, ident, int, unary, binary, ternary, string, call, member, cons, nil, UnaryOp, BinaryOp,
  Parts, fstring, subscript,
}
use zanbato.Expr.Outcome
use zanbato.Base.Digits.{set_string}
use zanbato.Expr.Lexer.{
  token, is_ident, is_number, is_hex, lower, peek, peek2, skip_whitespace, str_escape, encode_rune,
  str_lit, str_concat, consume_keyword,
}
use zanbato.Expr.Number.{
  number, based, decimal, prefixed, fraction, exponent, exponent_sign, point_ahead, int_literal,
  float_literal, strip_underscores,
}
use zanbato.Expr.Head.{head, expect, word_head, size_head, sign_head, strings, type_name}
use zanbato.Expr.Operators.{
  operation, postfix_stage, arith_stage, shift_stage, bit_stage, compare_stage, and_stage, or_stage,
  ternary_stage,
}
use zanbato.Expr.Parser.{
  ParseResult, parsed, failed, unparsed, parse_expr, exhausted, expr, parse_fuel, parse_outcome,
  dot_suffix,
}

parse : Text → ParseResult Text
unfolding parse_expr expr parse_fuel parse_outcome head expect operation dot_suffix token is_ident
    peek skip_whitespace str_escape encode_rune word_head size_head sign_head strings type_name
    number based is_number decimal prefixed fraction exponent exponent_sign point_ahead int_literal
    float_literal strip_underscores set_string is_hex lower peek2 str_lit str_concat consume_keyword
    postfix_stage arith_stage shift_stage bit_stage compare_stage and_stage or_stage ternary_stage
parse = parse_expr ascii text_float

abbrev name : Text → Node Text
name s = ident s

precedence :
    parse (codes "a + b*-2 == c or not d")
    ≡ parsed (
        binary
          (binary
            (binary
              (name (codes "a"))
              (binary (name (codes "b")) (unary (int (pos 2)) UnaryOp.negate) BinaryOp.mult)
              BinaryOp.add)
            (name (codes "c"))
            BinaryOp.equal)
          (unary (name (codes "d")) UnaryOp.logical_not)
          BinaryOp.logical_or)
unfolding parse
precedence = refl

suffixes :
    parse (codes "a.b(1, 0x1F)[2] ? x : 017")
    ≡ parsed (
        ternary
          (subscript
            (call
              (member (name (codes "a")) (codes "b"))
              (cons (int (pos 1)) (cons (int (pos 31)) nil)))
            (int (pos 2)))
          (name (codes "x"))
          (int (pos 15)))
unfolding parse
suffixes = refl

joined : parse (codes "\"a\\x41\" 'b\\n'") ≡ parsed (string (codes "aAb\\n"))
unfolding parse
joined = refl

interpolated :
    parse (codes "f\"<{a + 1}>\"")
    ≡ parsed (
        fstring (
          Parts.literal (codes "<") (
            Parts.embedded
              (binary (name (codes "a")) (int (pos 1)) BinaryOp.add)
              (Parts.literal (codes ">") Parts.end))))
unfolding parse
interpolated = refl

no_chain :
    parse (codes "1 < 2 < 3")
    ≡ unparsed (binary (int (pos 1)) (int (pos 2)) BinaryOp.less_than) (codes "< 3")
unfolding parse
no_chain = refl

unclosed : parse (codes "(1 + 2") ≡ failed Outcome.expected_paren 7
unfolding parse
unclosed = refl

parse_expr-ne-exhausted_example : parse_expr ascii text_float (codes "a + (b") ≢ exhausted
parse_expr-ne-exhausted_example = parse_expr-ne-exhausted ascii text_float (codes "a + (b")
