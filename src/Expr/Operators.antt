-- ===== src/Expr/Operators.antt =====
-- kaitai/expr/expr.go, the loop of `expr`: which operation follows an operand, if the depth allows
-- it. The stages stand in the order of the source, from the tightest binding to the loosest.
pub mod Lengths
pub mod Precedence
mod Tests
use zanbato.Base.{
  ℕ, ◌+◌, Bool, true, false, not, ◌&&◌, ◌||◌, Option, none, some, [], ◌∷◌, Text, codes, leb, ◌==◌,
  if◌then◌else◌, drop,
}
use zanbato.Base.Platform.{Unicode}
use zanbato.Expr.Ast
use zanbato.Expr.Depth
use zanbato.Expr.Ast.{BinaryOp}
use zanbato.Expr.Outcome.{Runes, Failure, expected_equal}
use zanbato.Expr.Lexer.{peek, peek2, skip_whitespace, consume_keyword}

-- What one round of the loop does: it stops, reports an error, or has consumed the operator at the
-- head of an operation. `binary` holds the depth of the right operand, and whether the operation
-- is a comparison.
pub data Operation : Type 0 where
  finish : Runes → Operation
  wrong : Failure → Runes → Operation
  scope dot call index ternary : Runes → Operation
  binary : BinaryOp → ℕ → Bool → Runes → Operation

-- The last switch: a ternary operator.
unfoldable pub ternary_stage : ℕ → Runes → Operation
ternary_stage depth s =
    if leb Depth.or depth then finish s else if peek s == b'?' then ternary (drop 1 s) else finish s

unfoldable pub or_stage : Unicode → ℕ → Runes → Operation
or_stage u depth s =
    if leb Depth.and depth then finish s else elim (consume_keyword u (codes "or") s) [
      | some rest ↦ binary BinaryOp.logical_or Depth.and false rest
      | none ↦ ternary_stage depth s
    ]

unfoldable pub and_stage : Unicode → ℕ → Runes → Operation
and_stage u depth s =
    if leb Depth.compare depth then finish s else elim (consume_keyword u (codes "and") s) [
      | some rest ↦ binary BinaryOp.logical_and Depth.compare false rest
      | none ↦ or_stage u depth s
    ]

-- Comparisons do not chain: behind one, the operator is left for the caller.
unfoldable pub compare_stage : Unicode → ℕ → Bool → Runes → Operation
compare_stage u depth saw_compare s =
    if saw_compare
    then and_stage u depth s
    else if peek s == b'='
    then if peek2 s == b'='
      then binary BinaryOp.equal Depth.bit_or true (drop 2 s)
      else wrong expected_equal s
    else if peek s == b'!'
    then if peek2 s == b'='
      then binary BinaryOp.not_equal Depth.bit_or true (drop 2 s)
      else wrong expected_equal s
    else if peek s == b'<'
    then if peek2 s == b'='
      then binary BinaryOp.less_than_equal Depth.bit_or true (drop 2 s)
      else binary BinaryOp.less_than Depth.bit_or true (drop 1 s)
    else if peek s == b'>'
    then if peek2 s == b'='
      then binary BinaryOp.greater_than_equal Depth.bit_or true (drop 2 s)
      else binary BinaryOp.greater_than Depth.bit_or true (drop 1 s)
    else and_stage u depth s

unfoldable pub bit_stage : Unicode → ℕ → Bool → Runes → Operation
bit_stage u depth saw_compare s =
    if leb Depth.shift depth
    then finish s
    else if peek s == b'&'
    then binary BinaryOp.bit_and Depth.shift false (drop 1 s)
    else if leb Depth.bit_and depth
    then finish s
    else if peek s == b'^'
    then binary BinaryOp.bit_xor Depth.bit_and false (drop 1 s)
    else if leb Depth.bit_xor depth
    then finish s
    else if peek s == b'|'
    then binary BinaryOp.bit_or Depth.bit_xor false (drop 1 s)
    else if leb Depth.bit_or depth
    then finish s
    else compare_stage u depth saw_compare s

unfoldable pub shift_stage : Unicode → ℕ → Bool → Runes → Operation
shift_stage u depth saw_compare s =
    if leb Depth.add depth
    then finish s
    else if peek s == b'<' && (peek2 s == b'<')
    then binary BinaryOp.shift_left Depth.add false (drop 2 s)
    else if peek s == b'>' && (peek2 s == b'>')
    then binary BinaryOp.shift_right Depth.add false (drop 2 s)
    else bit_stage u depth saw_compare s

unfoldable pub arith_stage : Unicode → ℕ → Bool → Runes → Operation
arith_stage u depth saw_compare s =
    if leb Depth.member depth
    then finish s
    else if peek s == b'*'
    then binary BinaryOp.mult Depth.member false (drop 1 s)
    else if peek s == b'/'
    then binary BinaryOp.div Depth.member false (drop 1 s)
    else if peek s == b'%'
    then binary BinaryOp.modulo Depth.member false (drop 1 s)
    else if leb Depth.mult depth
    then finish s
    else if peek s == b'+'
    then binary BinaryOp.add Depth.mult false (drop 1 s)
    else if peek s == b'-'
    then binary BinaryOp.sub Depth.mult false (drop 1 s)
    else shift_stage u depth saw_compare s

-- The first switch: the operations that bind tightest, at any depth.
unfoldable pub postfix_stage : Unicode → ℕ → Bool → Runes → Operation
postfix_stage u depth saw_compare s =
    if peek s == b':' && (peek2 s == b':')
    then scope (drop 2 s)
    else if peek s == b'.'
    then dot (drop 1 s)
    else if peek s == b'('
    then call (drop 1 s)
    else if peek s == b'['
    then index (drop 1 s)
    else if peek s == 0
    then finish s
    else arith_stage u depth saw_compare s

unfoldable pub operation : Unicode → ℕ → Bool → Runes → Operation
operation u depth saw_compare s = postfix_stage u depth saw_compare (skip_whitespace s)
