-- ===== src/Expr/Operators/Tests.antt =====
-- kaitai/expr/expr.go: the binary operators at concrete sources.
use zanbato.Base.{◌≤◌, ◌≡◌, refl, true, false, ◌&&◌, codes, suc}
use zanbato.Expr.Ast.{BinaryOp}
use zanbato.Expr.Lexer.{
  token, is_ident, is_number, peek, peek2, skip_whitespace, is_whitespace, has_prefix,
  consume_keyword,
}
use zanbato.Expr.Operators.{
  operation, binary, postfix_stage, arith_stage, shift_stage, bit_stage, compare_stage, and_stage,
  or_stage, ternary_stage,
}
use zanbato.Expr.Operators.Precedence.{operation-binary, level, is_comparison}
use zanbato.Base.Samples.{ascii}

at_minus : operation ascii 3 true (codes " - b") ≡ binary BinaryOp.sub 9 false (codes " b")
unfolding operation postfix_stage arith_stage shift_stage bit_stage compare_stage and_stage or_stage
    ternary_stage token is_ident is_number peek peek2 skip_whitespace is_whitespace has_prefix
    consume_keyword
at_minus = refl

operation-binary_example :
    (3 ≤ level BinaryOp.sub)
    × (9 ≡ suc (level BinaryOp.sub))
    × (false ≡ is_comparison BinaryOp.sub)
    × ((true && false) ≡ false)
operation-binary_example =
    operation-binary ascii 3 true (codes " - b") BinaryOp.sub 9 false (codes " b") at_minus
