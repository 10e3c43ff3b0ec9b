-- ===== src/Engine/Tests.antt =====
-- kaitai/expr/engine/evaluate.go: the operators at concrete values.
use zanbato.Base.{◌≡◌, refl, true, false, arith}
use zanbato.Base.Int.{ℤ, pos, negsuc, ◌+ℤ◌, ◌*ℤ◌, ◌-ℤ◌, ◌≤ℤ◌, ◌<ℤ◌}
use zanbato.Compat.{kaitai_struct_0_11}
use zanbato.Expr.Ast.{BinaryOp}
use zanbato.Base.Samples.{text_float}
use zanbato.Engine.Value.{ExprValue, ok}
use zanbato.Engine.Integers.{signed_int32, bit_and}
use zanbato.Engine.Compare.{compare, eval_cmp, cmp_int, cmp_nat, mode}
use zanbato.Engine.Operators.{apply_binary, eval_binary, eval_add, short_circuit, truncate}
use zanbato.Engine.Operators.Laws.{
  eval_div-eval_mod, apply_binary-opposite, eval_binary-IsInt32, IsInt32,
}

eval_div-eval_mod_example :
    (q : ℤ) × (r : ℤ) × (apply_binary text_float BinaryOp.div
        (ExprValue.integer (negsuc 6))
        (ExprValue.integer (pos 2))
      ≡ ok (ExprValue.integer q))
    × (apply_binary text_float BinaryOp.modulo
          (ExprValue.integer (negsuc 6))
          (ExprValue.integer (pos 2))
        ≡ ok (ExprValue.integer r))
    × (pos 2 *ℤ q +ℤ r ≡ negsuc 6)
    × (pos 0 ≤ℤ r)
    × (r <ℤ pos 2)
eval_div-eval_mod_example = eval_div-eval_mod text_float (negsuc 6) (pos 2) (omega arith)

below :
    apply_binary text_float BinaryOp.less_than
      (ExprValue.integer (negsuc 2))
      (ExprValue.integer (pos 1))
    ≡ ok (ExprValue.boolean true)
unfolding apply_binary eval_cmp compare cmp_int cmp_nat mode
below = refl

apply_binary-opposite_example :
    apply_binary text_float BinaryOp.greater_than_equal
      (ExprValue.integer (negsuc 2))
      (ExprValue.integer (pos 1))
    ≡ ok (ExprValue.boolean false)
apply_binary-opposite_example =
    apply_binary-opposite text_float BinaryOp.less_than (ExprValue.integer (negsuc 2))
      (ExprValue.integer (pos 1)) refl below

wrapped :
    eval_binary text_float kaitai_struct_0_11 BinaryOp.add
      (ok (ExprValue.integer (pos 0x7fff_ffff)))
      (ok (ExprValue.integer (pos 1)))
    ≡ ok (ExprValue.integer (negsuc 0x7fff_ffff))
unfolding eval_binary short_circuit apply_binary eval_add truncate signed_int32 bit_and ◌+ℤ◌ ◌-ℤ◌
wrapped = refl

eval_binary-IsInt32_example : IsInt32 text_float (ExprValue.integer (negsuc 0x7fff_ffff))
eval_binary-IsInt32_example =
    eval_binary-IsInt32 text_float BinaryOp.add (ok (ExprValue.integer (pos 0x7fff_ffff)))
      (ok (ExprValue.integer (pos 1))) wrapped
