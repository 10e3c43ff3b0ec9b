-- ===== src/Engine/Operators.antt =====
-- kaitai/expr/engine/evaluate.go: the operators on runtime values. The evaluation of the operands is
-- given as its result; a right operand that is not evaluated has no effect.
pub mod Laws
use zanbato.Base.{
  ℕ, ◌+◌, Bool, true, false, not, ◌&&◌, ◌||◌, Option, none, some, ◌++◌, ◌==◌, if◌then◌else◌,
}
use zanbato.Base.Int.{ℤ, pos, abs, ◌+ℤ◌, ◌-ℤ◌, ◌*ℤ◌}
use zanbato.Base.Platform.{BigFloat}
use zanbato.Compat.{Compatibility, has_calc_int_type_truncation_bug}
use zanbato.Expr.Ast.{UnaryOp, BinaryOp}
use zanbato.Engine.Value.{
  ExprKind, ExprValue, Result, ok, err, kind, unhandled_binary, unhandled_unary, division_by_zero,
  modulus_by_zero, ternary_condition, ◌>>=◌,
}
use zanbato.Engine.Integers
use zanbato.Engine.Integers.{to_uint64, signed_int32}
use zanbato.Engine.Compare
use zanbato.Engine.Compare.{eval_cmp}

module _ (fl : BigFloat) where
  abbrev Value : Type 0
  Value = ExprValue fl.Float

  unfoldable pub eval_add : ExprValue fl.Float → ExprValue fl.Float → Result (ExprValue fl.Float)
  unfolding ◌+ℤ◌ kind
  eval_add (ExprValue.integer a) (ExprValue.integer b) = ok (ExprValue.integer (a +ℤ b))
  eval_add (ExprValue.float a) (ExprValue.float b) = ok (ExprValue.float (fl.add a b))
  eval_add (ExprValue.integer a) (ExprValue.float b) = ok (ExprValue.float (fl.add (fl.of_int a) b))
  eval_add (ExprValue.float a) (ExprValue.integer b) = ok (ExprValue.float (fl.add a (fl.of_int b)))
  eval_add (ExprValue.string a) (ExprValue.string b) = ok (ExprValue.string (a ++ b))
  eval_add a b = err (unhandled_binary BinaryOp.add (kind a) (kind b))

  unfoldable pub eval_sub : ExprValue fl.Float → ExprValue fl.Float → Result (ExprValue fl.Float)
  unfolding ◌-ℤ◌ kind
  eval_sub (ExprValue.integer a) (ExprValue.integer b) = ok (ExprValue.integer (a -ℤ b))
  eval_sub (ExprValue.float a) (ExprValue.float b) = ok (ExprValue.float (fl.sub a b))
  eval_sub (ExprValue.integer a) (ExprValue.float b) = ok (ExprValue.float (fl.sub (fl.of_int a) b))
  eval_sub (ExprValue.float a) (ExprValue.integer b) = ok (ExprValue.float (fl.sub a (fl.of_int b)))
  eval_sub a b = err (unhandled_binary BinaryOp.sub (kind a) (kind b))

  unfoldable pub eval_mul : ExprValue fl.Float → ExprValue fl.Float → Result (ExprValue fl.Float)
  unfolding ◌*ℤ◌ kind
  eval_mul (ExprValue.integer a) (ExprValue.integer b) = ok (ExprValue.integer (a *ℤ b))
  eval_mul (ExprValue.float a) (ExprValue.float b) = ok (ExprValue.float (fl.mul a b))
  eval_mul (ExprValue.integer a) (ExprValue.float b) = ok (ExprValue.float (fl.mul (fl.of_int a) b))
  eval_mul (ExprValue.float a) (ExprValue.integer b) = ok (ExprValue.float (fl.mul a (fl.of_int b)))
  eval_mul a b = err (unhandled_binary BinaryOp.mult (kind a) (kind b))

  unfoldable pub eval_div : ExprValue fl.Float → ExprValue fl.Float → Result (ExprValue fl.Float)
  unfolding Integers.div kind
  eval_div (ExprValue.integer a) (ExprValue.integer b) =
      if abs b == 0 then err division_by_zero else ok (ExprValue.integer (Integers.div a b))
  eval_div (ExprValue.float a) (ExprValue.float b) = ok (ExprValue.float (fl.quo a b))
  eval_div (ExprValue.integer a) (ExprValue.float b) = ok (ExprValue.float (fl.quo (fl.of_int a) b))
  eval_div (ExprValue.float a) (ExprValue.integer b) = ok (ExprValue.float (fl.quo a (fl.of_int b)))
  eval_div a b = err (unhandled_binary BinaryOp.div (kind a) (kind b))

  unfoldable pub eval_mod : ExprValue fl.Float → ExprValue fl.Float → Result (ExprValue fl.Float)
  unfolding Integers.modulo kind
  eval_mod (ExprValue.integer a) (ExprValue.integer b) =
      if abs b == 0 then err modulus_by_zero else ok (ExprValue.integer (Integers.modulo a b))
  eval_mod a b = err (unhandled_binary BinaryOp.modulo (kind a) (kind b))

  -- An operator on integers alone.
  abbrev integers :
      BinaryOp → (ℤ → ℤ → ℤ) → ExprValue fl.Float → ExprValue fl.Float → Result (ExprValue fl.Float)
  unfolding kind
  integers op f (ExprValue.integer a) (ExprValue.integer b) = ok (ExprValue.integer (f a b))
  integers op f a b = err (unhandled_binary op (kind a) (kind b))

  unfoldable pub eval_shl : ExprValue fl.Float → ExprValue fl.Float → Result (ExprValue fl.Float)
  unfolding kind Integers.shift_left to_uint64
  eval_shl = integers BinaryOp.shift_left (λ a b. Integers.shift_left a (to_uint64 b))

  unfoldable pub eval_shr : ExprValue fl.Float → ExprValue fl.Float → Result (ExprValue fl.Float)
  unfolding kind Integers.shift_right to_uint64
  eval_shr = integers BinaryOp.shift_right (λ a b. Integers.shift_right a (to_uint64 b))

  unfoldable pub eval_bit_and :
      ExprValue fl.Float → ExprValue fl.Float → Result (ExprValue fl.Float)
  unfolding kind Integers.bit_and
  eval_bit_and = integers BinaryOp.bit_and Integers.bit_and

  unfoldable pub eval_bit_or : ExprValue fl.Float → ExprValue fl.Float → Result (ExprValue fl.Float)
  unfolding kind Integers.bit_or
  eval_bit_or = integers BinaryOp.bit_or Integers.bit_or

  unfoldable pub eval_bit_xor :
      ExprValue fl.Float → ExprValue fl.Float → Result (ExprValue fl.Float)
  unfolding kind Integers.bit_xor
  eval_bit_xor = integers BinaryOp.bit_xor Integers.bit_xor

  unfoldable pub eval_and : ExprValue fl.Float → ExprValue fl.Float → Result (ExprValue fl.Float)
  unfolding kind
  eval_and (ExprValue.boolean a) (ExprValue.boolean b) = ok (ExprValue.boolean (a && b))
  eval_and a b = err (unhandled_binary BinaryOp.logical_and (kind a) (kind b))

  unfoldable pub eval_or : ExprValue fl.Float → ExprValue fl.Float → Result (ExprValue fl.Float)
  unfolding kind
  eval_or (ExprValue.boolean a) (ExprValue.boolean b) = ok (ExprValue.boolean (a || b))
  eval_or a b = err (unhandled_binary BinaryOp.logical_or (kind a) (kind b))

  unfoldable pub eval_logical_not : ExprValue fl.Float → Result (ExprValue fl.Float)
  unfolding kind
  eval_logical_not (ExprValue.boolean b) = ok (ExprValue.boolean (not b))
  eval_logical_not a = err (unhandled_unary UnaryOp.logical_not (kind a))

  unfoldable pub eval_negate : ExprValue fl.Float → Result (ExprValue fl.Float)
  unfolding kind Integers.negate
  eval_negate (ExprValue.integer i) = ok (ExprValue.integer (Integers.negate i))
  eval_negate (ExprValue.float x) = ok (ExprValue.float (fl.neg x))
  eval_negate a = err (unhandled_unary UnaryOp.negate (kind a))

  unfoldable pub eval_invert : ExprValue fl.Float → Result (ExprValue fl.Float)
  unfolding kind Integers.invert
  eval_invert (ExprValue.integer i) = ok (ExprValue.integer (Integers.invert i))
  eval_invert a = err (unhandled_unary UnaryOp.invert (kind a))

  -- The switch of evalUnary, behind the evaluation of the operand.
  unfoldable pub eval_unary : UnaryOp → Result (ExprValue fl.Float) → Result (ExprValue fl.Float)
  unfolding eval_logical_not eval_negate eval_invert kind
  eval_unary UnaryOp.logical_not r = r >>= eval_logical_not
  eval_unary UnaryOp.negate r = r >>= eval_negate
  eval_unary UnaryOp.invert r = r >>= eval_invert
  eval_unary UnaryOp.invalid r = r >>= λ a. err (unhandled_unary UnaryOp.invalid (kind a))

  -- The switch of evalBinary.
  unfoldable pub apply_binary :
      BinaryOp → ExprValue fl.Float → ExprValue fl.Float → Result (ExprValue fl.Float)
  unfolding kind
  apply_binary BinaryOp.add a b = eval_add a b
  apply_binary BinaryOp.sub a b = eval_sub a b
  apply_binary BinaryOp.mult a b = eval_mul a b
  apply_binary BinaryOp.div a b = eval_div a b
  apply_binary BinaryOp.modulo a b = eval_mod a b
  apply_binary BinaryOp.less_than a b = eval_cmp fl a b Compare.less_than
  apply_binary BinaryOp.less_than_equal a b = eval_cmp fl a b (Compare.less_than + Compare.equal)
  apply_binary BinaryOp.greater_than a b = eval_cmp fl a b Compare.greater_than
  apply_binary BinaryOp.greater_than_equal a b =
      eval_cmp fl a b (Compare.greater_than + Compare.equal)
  apply_binary BinaryOp.equal a b = eval_cmp fl a b Compare.equal
  apply_binary BinaryOp.not_equal a b = eval_cmp fl a b (Compare.less_than + Compare.greater_than)
  apply_binary BinaryOp.shift_left a b = eval_shl a b
  apply_binary BinaryOp.shift_right a b = eval_shr a b
  apply_binary BinaryOp.bit_and a b = eval_bit_and a b
  apply_binary BinaryOp.bit_or a b = eval_bit_or a b
  apply_binary BinaryOp.bit_xor a b = eval_bit_xor a b
  apply_binary BinaryOp.logical_and a b = eval_and a b
  apply_binary BinaryOp.logical_or a b = eval_or a b
  apply_binary BinaryOp.invalid a b = err (unhandled_binary BinaryOp.invalid (kind a) (kind b))

  -- A boolean left operand that decides a logical operator.
  unfoldable pub short_circuit : BinaryOp → ExprValue fl.Float → Option Bool
  short_circuit BinaryOp.logical_and (ExprValue.boolean false) = some false
  short_circuit BinaryOp.logical_or (ExprValue.boolean true) = some true
  short_circuit op a = none

  -- With the truncation of Kaitai Struct 0.11, an integer result is an int32.
  unfoldable pub truncate : Compatibility → ExprValue fl.Float → ExprValue fl.Float
  unfolding has_calc_int_type_truncation_bug signed_int32
  truncate compat (ExprValue.integer i) =
      if has_calc_int_type_truncation_bug compat
      then ExprValue.integer (signed_int32 i)
      else ExprValue.integer i
  truncate compat (ExprValue.float x) = ExprValue.float x
  truncate compat (ExprValue.boolean b) = ExprValue.boolean b
  truncate compat (ExprValue.string s) = ExprValue.string s
  truncate compat (ExprValue.byte_array bs) = ExprValue.byte_array bs
  truncate compat (ExprValue.array xs) = ExprValue.array xs
  truncate compat (ExprValue.other k) = ExprValue.other k

  unfoldable pub eval_binary :
      Compatibility
      → BinaryOp
      → Result (ExprValue fl.Float)
      → Result (ExprValue fl.Float)
      → Result (ExprValue fl.Float)
  unfolding apply_binary short_circuit truncate
  eval_binary compat op left right = left >>= λ a. elim (short_circuit op a) [
    | some b ↦ ok (ExprValue.boolean b)
    | none ↦ right >>= λ b. apply_binary op a b >>= λ r. ok (truncate compat r)
  ]

  unfoldable pub eval_ternary :
      Result (ExprValue fl.Float)
      → Result (ExprValue fl.Float)
      → Result (ExprValue fl.Float)
      → Result (ExprValue fl.Float)
  unfolding kind
  eval_ternary (ok (ExprValue.boolean c)) b d = if c then b else d
  eval_ternary (ok a) b d = err (ternary_condition (kind a))
  eval_ternary (err e) b d = err e
