-- ===== src/Engine/Operators/Laws.antt =====
-- kaitai/expr/engine/evaluate.go: what the operators of expressions guarantee together.
use zanbato.Base.{
  ℕ, ◌-◌, ◌≤◌, ◌<◌, ◌^◌, ◌≡◌, refl, subst, Bool, true, false, not, Option, none, some, arith, ◌==◌,
}
use zanbato.Base.Int.{ℤ, pos, negsuc, abs, ◌<ℤ◌, ◌≤ℤ◌, ◌+ℤ◌, ◌*ℤ◌}
use zanbato.Base.Platform.{BigFloat}
use zanbato.Compat.{Compatibility, kaitai_struct_0_11, has_calc_int_type_truncation_bug}
use zanbato.Expr.Ast.{BinaryOp}
use zanbato.Engine.Value.{ExprValue, Result, ok, err, ◌>>=◌}
use zanbato.Engine.Integers
use zanbato.Engine.Integers.{signed_int32}
use zanbato.Engine.Integers.Division.{modulo_bounds, div-modulo}
use zanbato.Engine.Integers.Int32.{signed_int32_lem}
use zanbato.Engine.Compare.{eval_cmp}
use zanbato.Engine.Compare.Order.{Complements, compare-Complements}
use zanbato.Expr.Operators.Precedence.{is_comparison}
use zanbato.Engine.Operators.{
  eval_div, eval_mod, apply_binary, eval_and, eval_or, short_circuit, truncate, eval_binary,
}

module _ (fl : BigFloat) where
  -- Division and modulus of integers by a divisor that is not zero succeed, and the divisor times the
  -- quotient, with a remainder from 0 up to below the divisor's magnitude, is the dividend.
  pub eval_div-eval_mod :
      (a b : ℤ)
      → 0 < abs b
      → (q : ℤ) × (r : ℤ) × (apply_binary fl BinaryOp.div
            (ExprValue.integer a)
            (ExprValue.integer b)
          ≡ ok (ExprValue.integer q))
        × (apply_binary fl BinaryOp.modulo (ExprValue.integer a) (ExprValue.integer b)
            ≡ ok (ExprValue.integer r))
        × (b *ℤ q +ℤ r ≡ a)
        × (pos 0 ≤ℤ r)
        × (r <ℤ pos (abs b))
  unfolding apply_binary eval_div eval_mod
  eval_div-eval_mod a b h =
      let nonzero : (abs b == 0) ≡ false = ground arith in
      (
        Integers.div a b,
        Integers.modulo a b,
        rw nonzero,
        rw nonzero,
        div-modulo a b h,
        (modulo_bounds a b h).0,
        (modulo_bounds a b h).1,
      )

  -- The comparison that holds where the other does not.
  abbrev pub opposite : BinaryOp → BinaryOp
  opposite BinaryOp.less_than = BinaryOp.greater_than_equal
  opposite BinaryOp.greater_than_equal = BinaryOp.less_than
  opposite BinaryOp.greater_than = BinaryOp.less_than_equal
  opposite BinaryOp.less_than_equal = BinaryOp.greater_than
  opposite BinaryOp.equal = BinaryOp.not_equal
  opposite BinaryOp.not_equal = BinaryOp.equal
  opposite op = op

  abbrev answer : Bool → Result (ExprValue fl.Float)
  answer c = ok (ExprValue.boolean c)

  opposite_cmp :
      (a b : ExprValue fl.Float) (mask : ℕ) {c : Bool}
      → mask ≤ 7
      → eval_cmp fl a b mask ≡ ok (ExprValue.boolean c)
      → eval_cmp fl a b (7 - mask) ≡ ok (ExprValue.boolean (not c))
  unfolding eval_cmp
  opposite_cmp a b mask {c} h e = go _ _ (compare-Complements fl a b mask h) e
    where
      go :
          (r s : Result Bool)
          → Complements r s
          → (r >>= answer) ≡ ok (ExprValue.boolean c)
          → (s >>= answer) ≡ ok (ExprValue.boolean (not c))
      go (ok x) (ok y) k e = cc
      go (ok x) (err y) k e = absurd k
      go (err x) s k e = cc

  -- Where one comparison of two values has an answer, the opposite comparison (below against at least,
  -- above against at most, equal against not equal) has the opposite answer.
  pub apply_binary-opposite :
      (op : BinaryOp) (a b : ExprValue fl.Float) {c : Bool}
      → is_comparison op ≡ true
      → apply_binary fl op a b ≡ ok (ExprValue.boolean c)
      → apply_binary fl (opposite op) a b ≡ ok (ExprValue.boolean (not c))
  unfolding apply_binary
  apply_binary-opposite BinaryOp.less_than a b h e = opposite_cmp a b 1 (omega arith) e
  apply_binary-opposite BinaryOp.less_than_equal a b h e = opposite_cmp a b 3 (omega arith) e
  apply_binary-opposite BinaryOp.greater_than a b h e = opposite_cmp a b 4 (omega arith) e
  apply_binary-opposite BinaryOp.greater_than_equal a b h e = opposite_cmp a b 6 (omega arith) e
  apply_binary-opposite BinaryOp.equal a b h e = opposite_cmp a b 2 (omega arith) e
  apply_binary-opposite BinaryOp.not_equal a b h e = opposite_cmp a b 5 (omega arith) e
  apply_binary-opposite _ a b h e = cc

  -- The integer, where the value is one, is an int32.
  abbrev pub IsInt32 : ExprValue fl.Float → Type 0
  IsInt32 (ExprValue.integer i) = (negsuc (2 ^ 31 - 1) ≤ℤ i) × (i <ℤ pos (2 ^ 31))
  IsInt32 _ = Unit

  truncate-IsInt32 : (v : ExprValue fl.Float) → IsInt32 (truncate fl kaitai_struct_0_11 v)
  unfolding truncate has_calc_int_type_truncation_bug
  truncate-IsInt32 (ExprValue.integer i) = ((signed_int32_lem i).0, (signed_int32_lem i).1)
  truncate-IsInt32 _ = tt

  truncated :
      (r : Result (ExprValue fl.Float)) {v : ExprValue fl.Float}
      → (r >>= λ x. ok (truncate fl kaitai_struct_0_11 x)) ≡ ok v
      → IsInt32 v
  truncated (ok x) {v} e = subst IsInt32 (cc) (truncate-IsInt32 x)
  truncated (err x) e = cc

  -- With the behaviour of Kaitai Struct 0.11 every integer result of a binary operator is an int32.
  pub eval_binary-IsInt32 :
      (op : BinaryOp) (left right : Result (ExprValue fl.Float)) {v : ExprValue fl.Float}
      → eval_binary fl kaitai_struct_0_11 op left right ≡ ok v
      → IsInt32 v
  unfolding eval_binary
  eval_binary-IsInt32 op (err x) right e = cc
  eval_binary-IsInt32 op (ok a) right {v} e = decided (short_circuit fl op a) right e
    where
      decided :
          (o : Option Bool) (right : Result (ExprValue fl.Float))
          → (elim o [
            | some b ↦ ok (ExprValue.boolean b)
            | none ↦
                right >>= λ b. apply_binary fl op a b >>= λ r. ok (truncate fl kaitai_struct_0_11 r)
          ])
            ≡ ok v
          → IsInt32 v
      decided (some b) right e = subst IsInt32 {x = ExprValue.boolean b} (cc) tt
      decided none (err x) e = cc
      decided none (ok b) e = truncated (apply_binary fl op a b) e

  -- `and` and `or` evaluate the right operand only where the left one does not decide: a deciding
  -- left operand gives the result whatever the right operand would, an error included, and any other
  -- boolean left operand gives the right operand's result where that is a boolean.
  eval_binary-short_circuit :
      (compat : Compatibility) (right : Result (ExprValue fl.Float)) (b : Bool)
      → (eval_binary fl compat BinaryOp.logical_and (ok (ExprValue.boolean false)) right
          ≡ ok (ExprValue.boolean false))
        × (eval_binary fl compat BinaryOp.logical_or (ok (ExprValue.boolean true)) right
            ≡ ok (ExprValue.boolean true))
        × (eval_binary fl compat BinaryOp.logical_and
              (ok (ExprValue.boolean true))
              (ok (ExprValue.boolean b))
            ≡ ok (ExprValue.boolean b))
        × (eval_binary fl compat BinaryOp.logical_or
              (ok (ExprValue.boolean false))
              (ok (ExprValue.boolean b))
            ≡ ok (ExprValue.boolean b))
  unfolding eval_binary eval_and eval_or
  eval_binary-short_circuit compat right b = (refl, refl, refl, refl)
