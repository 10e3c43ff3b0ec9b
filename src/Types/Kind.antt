-- ===== src/Types/Kind.antt =====
-- kaitai/types/type.go: the kinds of types, an enumeration of ints that the source calculates with.
pub mod Promote
pub mod Laws
use zanbato.Base.{ℕ, Bool, true, false, ◌||◌, List, [], ◌∷◌, ◌==◌, if◌then◌else◌}

abbrev pub Kind : Type 0
Kind = ℕ

abbrev pub u1 : Kind
u1 = 1

abbrev pub u2 : Kind
u2 = 2

abbrev pub u2le : Kind
u2le = 3

abbrev pub u2be : Kind
u2be = 4

abbrev pub u4 : Kind
u4 = 5

abbrev pub u4le : Kind
u4le = 6

abbrev pub u4be : Kind
u4be = 7

abbrev pub u8 : Kind
u8 = 8

abbrev pub u8le : Kind
u8le = 9

abbrev pub u8be : Kind
u8be = 10

abbrev pub s1 : Kind
s1 = 11

abbrev pub s2 : Kind
s2 = 12

abbrev pub s2le : Kind
s2le = 13

abbrev pub s2be : Kind
s2be = 14

abbrev pub s4 : Kind
s4 = 15

abbrev pub s4le : Kind
s4le = 16

abbrev pub s4be : Kind
s4be = 17

abbrev pub s8 : Kind
s8 = 18

abbrev pub s8le : Kind
s8le = 19

abbrev pub s8be : Kind
s8be = 20

abbrev pub bits : Kind
bits = 21

abbrev pub f4 : Kind
f4 = 22

abbrev pub f4le : Kind
f4le = 23

abbrev pub f4be : Kind
f4be = 24

abbrev pub f8 : Kind
f8 = 25

abbrev pub f8le : Kind
f8le = 26

abbrev pub f8be : Kind
f8be = 27

abbrev pub bytes : Kind
bytes = 28

abbrev pub string : Kind
string = 29

abbrev pub user : Kind
user = 30

abbrev pub untyped_int : Kind
untyped_int = 31

abbrev pub untyped_float : Kind
untyped_float = 32

abbrev pub untyped_bool : Kind
untyped_bool = 33

abbrev pub one_of : Kind → List Kind → Bool
one_of k [] = false
one_of k (x ∷ xs) = k == x || one_of k xs

-- SplitEndian
unfoldable pub split_endian : Kind → Kind × Kind
split_endian k =
    if k == u2
    then (u2le, u2be)
    else if k == u4
    then (u4le, u4be)
    else if k == u8
    then (u8le, u8be)
    else if k == s2
    then (s2le, s2be)
    else if k == s4
    then (s4le, s4be)
    else if k == s8
    then (s8le, s8be)
    else if k == f4
    then (f4le, f4be)
    else if k == f8
    then (f8le, f8be)
    else (k, k)
