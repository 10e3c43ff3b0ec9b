-- ===== src/Engine/Sizes/Laws.antt =====
-- kaitai/expr/engine/sizeof.go: sizes in bytes and in bits.
use zanbato.Base.{ℕ, ◌^◌, ◌≤◌, ◌<◌, some, ◌≡◌, arith}
use zanbato.Base.Int.{pos}
use zanbato.Expr.Ast.{Node}
use zanbato.Schema.{Struct}
use zanbato.Engine.Sizes.{compute_type_ref_bit_size, missing_in_search, compute_struct_bit_size}
use zanbato.Engine.Sizes.Exact.{height, struct_width, struct_size-fits}
use zanbato.Engine.Sizes.Widths.{bit_width, bit_width-fits, user-unknown-bits}

module _ {F : Type 0} where
  -- Where every attribute of a struct, of at most ten levels of nested structs, is of a fixed
  -- width, with no repetition, condition or size-eos and no size on a nested struct, and the sum of the
  -- widths in bits fits an int64,
  -- ComputeStructBitSize is that sum.
  pub compute_struct_bit_size-width :
      (s : Struct (Node F)) (n : ℕ)
      → struct_width bit_width s ≡ some n
      → n < 2 ^ 63
      → height s ≤ 10
      → compute_struct_bit_size s ≡ some (pos n)
  unfolding compute_struct_bit_size
  compute_struct_bit_size-width s n h b d =
      struct_size-fits compute_type_ref_bit_size missing_in_search bit_width bit_width-fits
        user-unknown-bits 0 n s h b (omega (arith, d))
