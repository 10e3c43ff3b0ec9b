-- ===== src/Types/TypeRef.antt =====
-- kaitai/types/type.go, endian.go, bitendian.go: type references, and the byte and bit orders that
-- are folded into them. `E` is the type of expressions; a pointer is an option.
pub mod Laws
use zanbato.Base.{
  ℕ, Bool, true, false, ◌||◌, Option, none, some, List, [], ◌∷◌, map, Text, ◌==◌, if◌then◌else◌,
}
use mathlib.Core.Option
use zanbato.Base.Int.{ℤ}
use zanbato.Types.Kind.{
  Kind, one_of, u2, u2le, u2be, u4, u4le, u4be, u8, u8le, u8be, s2, s2le, s2be, s4, s4le, s4be, s8,
  s8le, s8be, f4, f4le, f4be, f8, f8le, f8be,
}

pub data EndianKind : Type 0 where
  unspecified_order big_endian little_endian switch_endian : EndianKind

pub data BitEndianKind : Type 0 where
  unspecified_bit_order big_bit_endian little_bit_endian : BitEndianKind

pub record BitsType : Type 0 where
  pub width : ℤ
  pub endian : BitEndianKind

pub record BytesType (E : Type 0) : Type 0 where
  pub size : Option E
  pub size_eos : Bool
  pub pad_right : ℤ
  pub terminator : ℤ
  pub consume : Bool
  pub include_ : Bool
  pub eos_error : Bool

pub record StringType (E : Type 0) : Type 0 where
  pub size : Option E
  pub size_eos : Bool
  pub encoding : Text
  pub pad_right : ℤ
  pub terminator : ℤ
  pub consume : Bool
  pub include_ : Bool
  pub eos_error : Bool

-- A parameter is nil where its source is empty.
pub record UserType (E : Type 0) : Type 0 where
  pub name : Text
  pub params : List (Option E)
  pub size : Option E

pub record TypeRef (E : Type 0) : Type 0 where
  pub kind : Kind
  pub bits : Option BitsType
  pub bytes : Option (BytesType E)
  pub string : Option (StringType E)
  pub user : Option (UserType E)
  pub is_array : Bool

pub record TypeSwitch (E : Type 0) : Type 0 where
  pub field_name : Text
  pub switch_on : Option E
  pub cases : List (Text × TypeRef E)

-- Type, a struct of two pointers.
pub record AttrType (E : Type 0) : Type 0 where
  pub type_ref : Option (TypeRef E)
  pub type_switch : Option (TypeSwitch E)

unfoldable pub little_kind : Kind → Kind
little_kind k =
    if k == u2
    then u2le
    else if k == u4
    then u4le
    else if k == u8
    then u8le
    else if k == s2
    then s2le
    else if k == s4
    then s4le
    else if k == s8
    then s8le
    else if k == f4
    then f4le
    else if k == f8
    then f8le
    else k

unfoldable pub big_kind : Kind → Kind
big_kind k =
    if k == u2
    then u2be
    else if k == u4
    then u4be
    else if k == u8
    then u8be
    else if k == s2
    then s2be
    else if k == s4
    then s4be
    else if k == s8
    then s8be
    else if k == f4
    then f4be
    else if k == f8
    then f8be
    else k

unfoldable pub dependent_kind : Kind → Bool
dependent_kind k = one_of k (u2 ∷ u4 ∷ u8 ∷ s2 ∷ s4 ∷ s8 ∷ f4 ∷ f8 ∷ [])

abbrev fold_bits : BitEndianKind → BitsType → BitsType
fold_bits e b = elim b.endian [ unspecified_bit_order ↦ record b { endian = e } | _ ↦ b ]

module _ {E : Type 0} where
  unfoldable pub fold_endian : EndianKind → TypeRef E → TypeRef E
  fold_endian little_endian t = record t { kind = little_kind t.kind }
  fold_endian big_endian t = record t { kind = big_kind t.kind }
  fold_endian unspecified_order t = t
  fold_endian switch_endian t = t

  unfoldable pub fold_bit_endian : BitEndianKind → TypeRef E → TypeRef E
  fold_bit_endian e t = record t { bits = Option.map (fold_bits e) t.bits }

  unfoldable pub has_dependent_endian : TypeRef E → Bool
  unfolding dependent_kind
  has_dependent_endian t = dependent_kind t.kind

  abbrev fold_cases : (TypeRef E → TypeRef E) → List (Text × TypeRef E) → List (Text × TypeRef E)
  fold_cases f = map (λ (key, t). (key, f t))

  unfoldable pub switch_fold_endian : EndianKind → TypeSwitch E → TypeSwitch E
  switch_fold_endian e t = record t { cases = fold_cases (fold_endian e) t.cases }

  unfoldable pub switch_fold_bit_endian : BitEndianKind → TypeSwitch E → TypeSwitch E
  switch_fold_bit_endian e t = record t { cases = fold_cases (fold_bit_endian e) t.cases }

  unfoldable pub cases_have_dependent_endian : List (Text × TypeRef E) → Bool
  cases_have_dependent_endian [] = false
  cases_have_dependent_endian ((key, t) ∷ rest) =
      has_dependent_endian t || cases_have_dependent_endian rest

  unfoldable pub switch_has_dependent_endian : TypeSwitch E → Bool
  switch_has_dependent_endian t = cases_have_dependent_endian t.cases

  unfoldable pub type_fold_endian : EndianKind → AttrType E → AttrType E
  type_fold_endian e t = record {
    type_ref = Option.map (fold_endian e) t.type_ref;
    type_switch = Option.map (switch_fold_endian e) t.type_switch;
  }

  unfoldable pub type_fold_bit_endian : BitEndianKind → AttrType E → AttrType E
  type_fold_bit_endian e t = record {
    type_ref = Option.map (fold_bit_endian e) t.type_ref;
    type_switch = Option.map (switch_fold_bit_endian e) t.type_switch;
  }

  -- The type reference decides, if there is one.
  abbrev dependent_of : Option (TypeRef E) → Option (TypeSwitch E) → Bool
  dependent_of (some t) s = has_dependent_endian t
  dependent_of none (some s) = switch_has_dependent_endian s
  dependent_of none none = false

  unfoldable pub type_has_dependent_endian : AttrType E → Bool
  type_has_dependent_endian t = dependent_of t.type_ref t.type_switch
