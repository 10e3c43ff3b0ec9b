-- ===== src/Types/Kind/Promote.antt =====
-- kaitai/types/type.go, `Promote`: the kind of an arithmetic result.
use zanbato.Base.{◌+◌, ◌-◌, ◌&&◌, ◌||◌, [], ◌∷◌, leb, ◌==◌, if◌then◌else◌}
use zanbato.Types.Kind.{
  Kind, one_of, u1, u2, u2le, u2be, u4, u4le, u4be, u8, u8le, u8be, s1, s2, s2le, s2be, s4, s4le,
  s4be, s8, s8le, s8be, f4, f4le, f4be, f8, f8le, f8be, untyped_int, untyped_float,
}

-- U1 … U8be with a signed or floating operand become S1 … S8be.
unfoldable pub signed_for : Kind → Kind → Kind
signed_for k k2 =
    if (leb u1 k && leb k u8be)
      && (leb s1 k2 && leb k2 s8be
          || leb f4 k2 && leb k2 f8be
          || k2 == untyped_int
          || k2 == untyped_float)
    then k + (s1 - u1)
    else k

-- The case U1.
unfoldable pub from_u1 : Kind → Kind → Kind
from_u1 k k2 =
    if one_of k2 (u2 ∷ u2le ∷ u2be ∷ [])
    then u2
    else if one_of k2 (u4 ∷ u4le ∷ u4be ∷ [])
    then u4
    else if one_of k2 (u8 ∷ u8le ∷ u8be ∷ [])
    then u8
    else k

-- The case U2, U2le, U2be: the byte order stays.
unfoldable pub from_u2 : Kind → Kind → Kind
from_u2 k k2 =
    if one_of k2 (u4 ∷ u4le ∷ u4be ∷ [])
    then k + (u4 - u2)
    else if one_of k2 (u8 ∷ u8le ∷ u8be ∷ [])
    then k + (u8 - u2)
    else k

-- The case U4, U4le, U4be.
unfoldable pub from_u4 : Kind → Kind → Kind
from_u4 k k2 = if one_of k2 (u8 ∷ u8le ∷ u8be ∷ []) then k + (u8 - u4) else k

-- The case S1.
unfoldable pub from_s1 : Kind → Kind → Kind
from_s1 k k2 =
    if one_of k2 (s2 ∷ s2le ∷ s2be ∷ [])
    then s2
    else if one_of k2 (s4 ∷ s4le ∷ s4be ∷ [])
    then s4
    else if one_of k2 (s8 ∷ s8le ∷ s8be ∷ [])
    then s8
    else if one_of k2 (f4 ∷ f4le ∷ f4be ∷ [])
    then f4
    else if one_of k2 (f8 ∷ f8le ∷ f8be ∷ [])
    then f8
    else if k2 == untyped_int
    then untyped_int
    else if k2 == untyped_float
    then untyped_float
    else k

-- The case S2, S2le, S2be.
unfoldable pub from_s2 : Kind → Kind → Kind
from_s2 k k2 =
    if one_of k2 (s4 ∷ s4le ∷ s4be ∷ [])
    then k + (s4 - s2)
    else if one_of k2 (s8 ∷ s8le ∷ s8be ∷ [])
    then k + (s8 - s2)
    else if one_of k2 (f4 ∷ f4le ∷ f4be ∷ [])
    then k + (f4 - s2)
    else if one_of k2 (f8 ∷ f8le ∷ f8be ∷ [])
    then k + (f8 - s2)
    else if k2 == untyped_int
    then untyped_int
    else if k2 == untyped_float
    then untyped_float
    else k

-- The case S4, S4le, S4be.
unfoldable pub from_s4 : Kind → Kind → Kind
from_s4 k k2 =
    if one_of k2 (s8 ∷ s8le ∷ s8be ∷ [])
    then k + (s8 - s4)
    else if one_of k2 (f4 ∷ f4le ∷ f4be ∷ [])
    then k + (f4 - s4)
    else if one_of k2 (f8 ∷ f8le ∷ f8be ∷ [])
    then k + (f8 - s4)
    else if k2 == untyped_int
    then untyped_int
    else if k2 == untyped_float
    then untyped_float
    else k

-- The case S8, S8le, S8be.
unfoldable pub from_s8 : Kind → Kind → Kind
from_s8 k k2 =
    if one_of k2 (f4 ∷ f4le ∷ f4be ∷ [])
    then k + (f4 - s8)
    else if one_of k2 (f8 ∷ f8le ∷ f8be ∷ [])
    then k + (f8 - s8)
    else if k2 == untyped_int
    then untyped_int
    else if k2 == untyped_float
    then untyped_float
    else k

-- The case F4, F4le, F4be.
unfoldable pub from_f4 : Kind → Kind → Kind
from_f4 k k2 = if one_of k2 (f8 ∷ f8le ∷ f8be ∷ []) then k + (f8 - f4) else k

-- The promotion tables.
unfoldable pub promote_table : Kind → Kind → Kind
unfolding from_u1 from_u2 from_u4 from_s1 from_s2 from_s4 from_s8 from_f4
promote_table k k2 =
    if k == u1
    then from_u1 k k2
    else if one_of k (u2 ∷ u2le ∷ u2be ∷ [])
    then from_u2 k k2
    else if one_of k (u4 ∷ u4le ∷ u4be ∷ [])
    then from_u4 k k2
    else if k == s1
    then from_s1 k k2
    else if one_of k (s2 ∷ s2le ∷ s2be ∷ [])
    then from_s2 k k2
    else if one_of k (s4 ∷ s4le ∷ s4be ∷ [])
    then from_s4 k k2
    else if one_of k (s8 ∷ s8le ∷ s8be ∷ [])
    then from_s8 k k2
    else if one_of k (f4 ∷ f4le ∷ f4be ∷ [])
    then from_f4 k k2
    else k

unfoldable pub promote : Kind → Kind → Kind
unfolding signed_for promote_table
promote k k2 =
    if k == untyped_int && (k2 == untyped_float)
    then untyped_float
    else promote_table (signed_for k k2) k2
