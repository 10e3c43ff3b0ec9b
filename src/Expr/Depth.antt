-- ===== src/Expr/Depth.antt =====
-- kaitai/expr/expr.go: the depths of the expression parser, from the loosest binding to the tightest.
use zanbato.Base.{ℕ}

abbrev pub ternary : ℕ
ternary = 0

abbrev pub or : ℕ
or = 1

abbrev pub and : ℕ
and = 2

abbrev pub compare : ℕ
compare = 3

abbrev pub bit_or : ℕ
bit_or = 4

abbrev pub bit_xor : ℕ
bit_xor = 5

abbrev pub bit_and : ℕ
bit_and = 6

abbrev pub shift : ℕ
shift = 7

abbrev pub add : ℕ
add = 8

abbrev pub mult : ℕ
mult = 9

abbrev pub member : ℕ
member = 10

abbrev pub primary : ℕ
primary = 11
