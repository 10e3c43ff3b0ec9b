-- ===== src/Engine/Integers/Division.antt =====
-- math/big division, as kaitai/expr/engine/evaluate.go uses it: quotient and remainder.
use zanbato.Base.{ℕ, suc, ◌+◌, ◌-◌, ◌*◌, ◌/◌, ◌%◌, ◌<◌, ◌≡◌, ap, arith}
use zanbato.Base.Int.{
  ℤ, pos, negsuc, abs, sub_ℕ, ◌+ℤ◌, ◌*ℤ◌, ◌≤ℤ◌, ◌<ℤ◌, pos_part, neg_part, eq_of_parts, +ℤ_parts,
  *ℤ_parts,
}
use zanbato.Engine.Integers.{div, modulo}

-- The division of naturals.
div_mod_nat : (a b : ℕ) → 0 < b → (b * (a / b) + a % b ≡ a) × (a % b < b)
div_mod_nat a b h = (grind arith, grind arith)

pub modulo_bounds : (a b : ℤ) → 0 < abs b → (pos 0 ≤ℤ modulo a b) × (modulo a b <ℤ pos (abs b))
unfolding modulo
modulo_bounds (pos a) b h = (omega arith, (omega (arith, (div_mod_nat a (abs b) h).1)))
modulo_bounds (negsuc a) b h = (omega arith, (omega arith))

-- From the parts of the product and of the sum.
sum_of_parts :
    (a b q r : ℤ)
    → pos_part a + neg_part r + (pos_part b * neg_part q + neg_part b * pos_part q)
      ≡ neg_part a + pos_part r + (pos_part b * pos_part q + neg_part b * neg_part q)
    → b *ℤ q +ℤ r ≡ a
sum_of_parts a b q r h = eq_of_parts _ _ (omega (arith, +ℤ_parts (b *ℤ q) r, *ℤ_parts b q))

negated_parts : (q : ℕ) → (pos_part (sub_ℕ 0 q) ≡ 0) × (neg_part (sub_ℕ 0 q) ≡ q)
negated_parts q = (ground arith, ground arith)

-- The quotient times the divisor, with the remainder, is the dividend.
pub div-modulo : (a b : ℤ) → 0 < abs b → b *ℤ div a b +ℤ modulo a b ≡ a
unfolding div modulo
div-modulo (pos a) (pos b) h =
    sum_of_parts (pos a) (pos b) (pos (a / b)) (pos (a % b))
      (omega (arith, (div_mod_nat a b (omega arith)).0))
div-modulo (pos a) (negsuc b) h =
    let q = a / suc b in
    sum_of_parts (pos a) (negsuc b) (sub_ℕ 0 q) (pos (a % suc b)) (
      omega (
        arith,
        (div_mod_nat a (suc b) (omega arith)).0,
        ap (λ (n : ℕ). n * suc b) (negated_parts q).0,
        ap (λ (n : ℕ). n * suc b) (negated_parts q).1,
      ))
div-modulo (negsuc a) (pos b) h =
    sum_of_parts (negsuc a) (pos b) (negsuc (a / b)) (pos (b - 1 - a % b))
      (omega (arith, div_mod_nat a b (omega arith)))
div-modulo (negsuc a) (negsuc b) h =
    sum_of_parts (negsuc a) (negsuc b) (pos (a / suc b + 1)) (pos (suc b - 1 - a % suc b))
      (omega (arith, div_mod_nat a (suc b) (omega arith)))
