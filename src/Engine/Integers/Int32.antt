-- ===== src/Engine/Integers/Int32.antt =====
-- kaitai/expr/engine/evaluate.go, newSignedInt32IntegerValue: the value wrapped to an int32.
use Prim.Native.Nat.{bit_and as nat_and, digits, bit_and-bitwise, min}
use native.Mathlib.Nat.{pow-succ'}
use zanbato.Base.{
  ℕ, suc, zero, ◌+◌, ◌-◌, ◌*◌, ◌/◌, ◌%◌, ◌^◌, ◌≤◌, ◌<◌, ◌≡◌, refl, ap, sym, ◌∙◌, arith, ◌==◌,
  if◌then◌else◌,
}
use zanbato.Base.Int.{ℤ, pos, negsuc, ◌≤ℤ◌, ◌<ℤ◌, ◌-ℤ◌}
use zanbato.Engine.Integers.{modulo, bit_and, and_not, signed_int32}

-- A remainder by its lowest digit.
mod_double : (a p : ℕ) → 0 < p → a % (2 * p) ≡ a / 2 % p * 2 + a % 2
mod_double a p h = grind arith

zero-mod : (p : ℕ) → 0 < p → 0 % p ≡ 0
zero-mod p h = grind arith

-- The native operation stands for a recursion over binary digits. With k ones on the right, that
-- recursion keeps the k lowest digits of the left operand.
low_digits :
    (fuel k a mask : ℕ)
    → a ≤ fuel
    → mask + 1 ≡ 2 ^ k
    → digits (λ _. zero) min fuel a mask ≡ a % 2 ^ k
low_digits zero k zero mask h e = sym (zero-mod (2 ^ k) (omega arith))
low_digits zero k (suc a) mask h e = absurd (omega arith)
low_digits (suc fuel) k zero mask h e = sym (zero-mod (2 ^ k) (omega arith))
low_digits (suc fuel) zero (suc a) mask h e =
    let rest = low_digits fuel zero (suc a / 2) (mask / 2) (omega arith) (omega arith) in
    omega (arith, rest)
low_digits (suc fuel) (suc k) (suc a) mask h e =
    let double : 2 ^ suc k ≡ 2 * 2 ^ k = pow-succ' 2 k in
    let positive : 0 < 2 ^ k = omega arith in
    let rest = low_digits fuel k (suc a / 2) (mask / 2) (omega arith) (omega arith) in
    rw (double, mod_double (suc a) (2 ^ k) positive) (omega (arith, rest))

and_mask : (k a mask : ℕ) → mask + 1 ≡ 2 ^ k → nat_and a mask ≡ a % 2 ^ k
and_mask k a mask e = bit_and-bitwise a mask ∙ low_digits a k a mask (omega arith) e

and_mask32 : (a : ℕ) → nat_and a 0xffff_ffff ≡ a % 2 ^ 32
and_mask32 a = and_mask 32 a 0xffff_ffff refl

-- What the mask leaves of a value is its residue.
mask-modulo : (v : ℤ) → bit_and v (pos 0xffff_ffff) ≡ modulo v (pos (2 ^ 32))
unfolding bit_and modulo and_not
mask-modulo (pos a) = ap pos (and_mask32 a)
mask-modulo (negsuc a) = ap pos (omega (arith, and_mask32 a))

-- The int32 of a residue.
abbrev int32_of : ℕ → ℤ
int32_of n = if n / 2 ^ 31 % 2 == 1 then pos n -ℤ pos (2 ^ 32) else pos n

int32_of-bounds :
    (n : ℕ) → n < 2 ^ 32 → (negsuc (2 ^ 31 - 1) ≤ℤ int32_of n) × (int32_of n <ℤ pos (2 ^ 31))
unfolding ◌-ℤ◌
int32_of-bounds n h = ground arith

int32_of-modulo : (n : ℕ) → n < 2 ^ 32 → modulo (int32_of n) (pos (2 ^ 32)) ≡ pos n
unfolding ◌-ℤ◌ modulo
int32_of-modulo n h = ground arith

modulo_nat : (v : ℤ) → (n : ℕ) × (modulo v (pos (2 ^ 32)) ≡ pos n) × (n < 2 ^ 32)
unfolding modulo
modulo_nat (pos a) = (a % 2 ^ 32, refl, omega arith)
modulo_nat (negsuc a) = (2 ^ 32 - 1 - a % 2 ^ 32, refl, omega arith)

signed_int32-residue :
    (v : ℤ) {n : ℕ} → modulo v (pos (2 ^ 32)) ≡ pos n → signed_int32 v ≡ int32_of n
unfolding signed_int32
signed_int32-residue v {n} e = rw (mask-modulo v, e)

-- newSignedInt32IntegerValue gives an int32 that has the value's residue modulo 2 ^ 32.
pub signed_int32_lem :
    (v : ℤ)
    → (negsuc (2 ^ 31 - 1) ≤ℤ signed_int32 v)
      × (signed_int32 v <ℤ pos (2 ^ 31))
      × (modulo (signed_int32 v) (pos (2 ^ 32)) ≡ modulo v (pos (2 ^ 32)))
signed_int32_lem v =
    let (n, e, h) = modulo_nat v in
    rw (signed_int32-residue v e)
      ((int32_of-bounds n h).0, (int32_of-bounds n h).1, int32_of-modulo n h ∙ sym e)
