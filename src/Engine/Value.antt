-- ===== src/Engine/Value.antt =====
-- kaitai/expr/engine/context.go, value.go: the runtime values of expressions. A value of a kind that
-- the operators do not read is its kind alone.
use zanbato.Base.{Bool, Text}
use zanbato.Base.Int.{ℤ}
use zanbato.Expr.Ast.{UnaryOp, BinaryOp}

pub data ExprKind : Type 0 where
  invalid root stream method struct_parent struct_root integer float boolean array : ExprKind
  byte_array string struct enum enum_value param attr instance_ casted_value alias : ExprKind

mutual
  pub data ExprValue (F : Type 0) : Type 0 where
    integer : ℤ → ExprValue F
    float : F → ExprValue F
    boolean : Bool → ExprValue F
    string : Text → ExprValue F
    byte_array : Text → ExprValue F
    array : Items F → ExprValue F
    other : ExprKind → ExprValue F

  pub data Items (F : Type 0) : Type 0 where
    nil : Items F
    cons : ExprValue F → Items F → Items F

unfoldable pub kind : {F : Type 0} → ExprValue F → ExprKind
kind (ExprValue.integer i) = ExprKind.integer
kind (ExprValue.float x) = ExprKind.float
kind (ExprValue.boolean b) = ExprKind.boolean
kind (ExprValue.string s) = ExprKind.string
kind (ExprValue.byte_array bs) = ExprKind.byte_array
kind (ExprValue.array xs) = ExprKind.array
kind (other k) = k

-- The errors of the operators, with the kinds of the operands that they name.
pub data EvalError : Type 0 where
  unhandled_binary : BinaryOp → ExprKind → ExprKind → EvalError
  unhandled_comparison : ExprKind → ExprKind → EvalError
  unhandled_unary : UnaryOp → ExprKind → EvalError
  division_by_zero modulus_by_zero invalid_boolean_comparison : EvalError
  cannot_compare_array : ExprKind → EvalError
  ternary_condition : ExprKind → EvalError

pub data Result {ℓ} (A : Type ℓ) : Type ℓ where
  ok : A → Result A
  err : EvalError → Result A

infixl 5 ◌>>=◌
abbrev pub ◌>>=◌ {ℓ κ} : {A : Type ℓ} {B : Type κ} → Result A → (A → Result B) → Result B
ok a >>= f = f a
err e >>= f = err e
