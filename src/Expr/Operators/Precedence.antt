-- ===== src/Expr/Operators/Precedence.antt =====
-- kaitai/expr/expr.go, the loop of `expr`: the precedence of the binary operators.
use zanbato.Base.{ℕ, suc, subst, ◌≤◌, ◌≡◌, Bool, true, false, ◌&&◌, arith, leb}
use zanbato.Base.Platform.{Unicode}
use zanbato.Expr.Ast.{BinaryOp}
use zanbato.Expr.Outcome.{Runes}
use zanbato.Expr.Lexer.{skip_whitespace}
use zanbato.Expr.Operators.{
  Operation, binary, ternary_stage, or_stage, and_stage, compare_stage, bit_stage, shift_stage,
  arith_stage, postfix_stage, operation,
}

-- The levels of the expression language's manual, from `or` up to multiplication.
abbrev pub level : BinaryOp → ℕ
level BinaryOp.logical_or = 1
level BinaryOp.logical_and = 2
level BinaryOp.less_than = 3
level BinaryOp.less_than_equal = 3
level BinaryOp.greater_than = 3
level BinaryOp.greater_than_equal = 3
level BinaryOp.equal = 3
level BinaryOp.not_equal = 3
level BinaryOp.bit_or = 4
level BinaryOp.bit_xor = 5
level BinaryOp.bit_and = 6
level BinaryOp.shift_left = 7
level BinaryOp.shift_right = 7
level BinaryOp.add = 8
level BinaryOp.sub = 8
level BinaryOp.mult = 9
level BinaryOp.div = 9
level BinaryOp.modulo = 9
level BinaryOp.invalid = 0

abbrev pub is_comparison : BinaryOp → Bool
is_comparison BinaryOp.less_than = true
is_comparison BinaryOp.less_than_equal = true
is_comparison BinaryOp.greater_than = true
is_comparison BinaryOp.greater_than_equal = true
is_comparison BinaryOp.equal = true
is_comparison BinaryOp.not_equal = true
is_comparison _ = false

-- A binary operation met at a depth: its level is no looser, its right operand binds tighter, and a
-- comparison does not follow a comparison.
abbrev pub Binds : ℕ → Bool → Operation → Type 0
Binds depth saw (binary op right compares r) =
    (depth ≤ level op)
    × (right ≡ suc (level op))
    × (compares ≡ is_comparison op)
    × ((saw && compares) ≡ false)
Binds depth saw _ = Unit

module _ (u : Unicode) (depth : ℕ) (saw : Bool) (s : Runes) where
  or_stage-Binds : Binds depth saw (or_stage u depth s)
  unfolding or_stage ternary_stage
  or_stage-Binds = ground arith

  and_stage-Binds : Binds depth saw (and_stage u depth s)
  unfolding and_stage
  and_stage-Binds = ground (arith, or_stage-Binds)

  compare_stage-Binds : leb 4 depth ≡ false → Binds depth saw (compare_stage u depth saw s)
  unfolding compare_stage
  compare_stage-Binds h = ground (arith, and_stage-Binds)

  bit_stage-Binds : Binds depth saw (bit_stage u depth saw s)
  unfolding bit_stage
  bit_stage-Binds = ground (arith, compare_stage-Binds)

  shift_stage-Binds : Binds depth saw (shift_stage u depth saw s)
  unfolding shift_stage
  shift_stage-Binds = ground (arith, bit_stage-Binds)

  arith_stage-Binds : Binds depth saw (arith_stage u depth saw s)
  unfolding arith_stage
  arith_stage-Binds = ground (arith, shift_stage-Binds)

  postfix_stage-Binds : Binds depth saw (postfix_stage u depth saw s)
  unfolding postfix_stage
  postfix_stage-Binds = ground (arith, arith_stage-Binds)

-- Where a round of the loop meets a binary operator, the operator's level is at least the depth, the
-- right operand is parsed one level tighter (so equal levels group to the left), and a comparison
-- does not follow a comparison of the same chain.
pub operation-binary :
    (u : Unicode) (depth : ℕ) (saw : Bool) (s : Runes) (op : BinaryOp) (right : ℕ) (compares : Bool)
    (r : Runes)
    → operation u depth saw s ≡ binary op right compares r
    → (depth ≤ level op)
      × (right ≡ suc (level op))
      × (compares ≡ is_comparison op)
      × ((saw && compares) ≡ false)
unfolding operation
operation-binary u depth saw s op right compares r e =
    subst (Binds depth saw) e (postfix_stage-Binds u depth saw (skip_whitespace s))
