-- ===== src/Engine/Integers.antt =====
-- math/big, as kaitai/expr/engine/evaluate.go uses it on integers: Euclidean division, shifts, and
-- the bit operations on the infinite two's complement.
pub mod Division
pub mod Int32
use Prim.Native.Nat.{bit_and as nat_and, bit_or as nat_or, bit_xor as nat_xor}
use zanbato.Base.{ℕ, suc, ◌+◌, ◌-◌, ◌*◌, ◌/◌, ◌%◌, ◌^◌, Bool, ltb, leb, ◌==◌, if◌then◌else◌}
use zanbato.Base.Int.{ℤ, pos, negsuc, abs, neg_part, pos_part, sub_ℕ, ◌-ℤ◌}

unfoldable pub negate : ℤ → ℤ
unfolding ◌-ℤ◌
negate a = pos 0 -ℤ a

-- big.Int.Div and big.Int.Mod for a divisor that is not zero: the remainder is not negative.
unfoldable pub div : ℤ → ℤ → ℤ
div (pos a) (pos b) = pos (a / b)
div (pos a) (negsuc b) = sub_ℕ 0 (a / suc b)
div (negsuc a) (pos b) = negsuc (a / b)
div (negsuc a) (negsuc b) = pos (a / suc b + 1)

unfoldable pub modulo : ℤ → ℤ → ℤ
modulo (pos a) b = pos (a % abs b)
modulo (negsuc a) b = pos (abs b - 1 - a % abs b)

-- big.Int.Uint64: the low 64 bits of the absolute value.
unfoldable pub to_uint64 : ℤ → ℕ
to_uint64 a = abs a % 2 ^ 64

-- The 64 bits as an int64.
abbrev signed64 : ℕ → ℤ
signed64 n = if ltb n (2 ^ 63) then pos n else negsuc (2 ^ 64 - 1 - n)

-- big.Int.Int64: the low 64 bits of the absolute value, negated as an int64 where `a` is negative.
unfoldable pub to_int64 : ℤ → ℤ
to_int64 (pos n) = signed64 (n % 2 ^ 64)
to_int64 (negsuc n) = signed64 ((2 ^ 64 - suc n % 2 ^ 64) % 2 ^ 64)

-- big.Int.Lsh, big.Int.Rsh
unfoldable pub shift_left : ℤ → ℕ → ℤ
shift_left (pos a) n = pos (a * 2 ^ n)
shift_left (negsuc a) n = sub_ℕ 0 (suc a * 2 ^ n)

unfoldable pub shift_right : ℤ → ℕ → ℤ
shift_right (pos a) n = pos (a / 2 ^ n)
shift_right (negsuc a) n = negsuc (a / 2 ^ n)

-- The bits of a that b has not.
unfoldable pub and_not : ℕ → ℕ → ℕ
and_not a b = a - nat_and b a

-- big.Int.Not, And, Or, Xor: negsuc n has the complement of the bits of n.
unfoldable pub invert : ℤ → ℤ
invert (pos n) = negsuc n
invert (negsuc n) = pos n

unfoldable pub bit_and : ℤ → ℤ → ℤ
bit_and (pos a) (pos b) = pos (nat_and a b)
bit_and (pos a) (negsuc b) = pos (and_not a b)
bit_and (negsuc a) (pos b) = pos (and_not b a)
bit_and (negsuc a) (negsuc b) = negsuc (nat_or a b)

unfoldable pub bit_or : ℤ → ℤ → ℤ
bit_or (pos a) (pos b) = pos (nat_or a b)
bit_or (pos a) (negsuc b) = negsuc (and_not b a)
bit_or (negsuc a) (pos b) = negsuc (and_not a b)
bit_or (negsuc a) (negsuc b) = negsuc (nat_and a b)

unfoldable pub bit_xor : ℤ → ℤ → ℤ
bit_xor (pos a) (pos b) = pos (nat_xor a b)
bit_xor (pos a) (negsuc b) = negsuc (nat_xor a b)
bit_xor (negsuc a) (pos b) = negsuc (nat_xor a b)
bit_xor (negsuc a) (negsuc b) = pos (nat_xor a b)

-- newSignedInt32IntegerValue: the low 32 bits, as an int32. Bit 31 of the masked value is set where
-- it is at least 2 ^ 31.
unfoldable pub signed_int32 : ℤ → ℤ
signed_int32 v =
    let low32 = bit_and v (pos 0xffff_ffff) in
    if abs low32 / 2 ^ 31 % 2 == 1 then low32 -ℤ pos (2 ^ 32) else low32
