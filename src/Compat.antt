-- ===== src/Compat.antt =====
-- kaitai/compat.go: compatibility modes. The type is an int, so a value beyond the two is kept.
use zanbato.Base.{Bool, true, false, Option, none, some, ◌++◌, Text, codes, text_eq, if◌then◌else◌}
use zanbato.Base.Int.{ℤ}
use zanbato.Base.Digits.{int_text}

pub data Compatibility : Type 0 where
  zanbato_native : Compatibility
  kaitai_struct_0_11 : Compatibility
  unknown : ℤ → Compatibility

unfoldable pub to_string : Compatibility → Text
unfolding int_text
to_string zanbato_native = codes "native"
to_string kaitai_struct_0_11 = codes "0.11"
to_string (unknown i) = codes "Compatibility(" ++ int_text 10 i ++ codes ")"

-- The value set, or none where Set returns its error.
unfoldable pub set : Text → Option Compatibility
set s =
    if text_eq s (codes "native")
    then some zanbato_native
    else if text_eq s (codes "0.11")
    then some kaitai_struct_0_11
    else none

unfoldable pub has_calc_int_type_truncation_bug : Compatibility → Bool
has_calc_int_type_truncation_bug zanbato_native = false
has_calc_int_type_truncation_bug kaitai_struct_0_11 = true
has_calc_int_type_truncation_bug (unknown i) = false
