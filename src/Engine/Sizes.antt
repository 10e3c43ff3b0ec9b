-- ===== src/Engine/Sizes.antt =====
-- kaitai/expr/engine/sizeof.go: the sizes of types and structs that do not depend on a stream, in bytes
-- or bits as an int64, and -1 where there is none. `none` is the nil dereference of a user type
-- without its options.
pub mod Exact
pub mod Scale
pub mod Widths
pub mod Laws
mod Tests
use zanbato.Base.{
  ℕ, suc, ◌+◌, ◌*◌, ◌%◌, ◌^◌, Bool, true, false, ◌&&◌, ◌||◌, Option, none, some, List, [], ◌∷◌,
  Text, codes, text_eq, ◌==◌, ltb, if◌then◌else◌,
}
use zanbato.Base.Int.{ℤ, pos, negsuc, ◌+ℤ◌, ◌*ℤ◌}
use zanbato.Expr.Ast.{Node}
use zanbato.Engine.Integers.{to_int64}
use zanbato.Types.Kind.{
  Kind, one_of, u1, u2, u2le, u2be, u4, u4le, u4be, u8, u8le, u8be, s1, s2, s2le, s2be, s4, s4le,
  s4be, s8, s8le, s8be, f4, f4le, f4be, f8, f8le, f8be, bits, bytes, string, user,
}
use zanbato.Types.TypeRef.{TypeRef}
use zanbato.Types.Parse.{atoi}
use zanbato.Schema.{Attr, StructBody, Struct, struct, Structs}

abbrev pub unknown : ℤ
unknown = negsuc 0

abbrev pub negative : ℤ → Bool
negative (pos n) = false
negative (negsuc n) = true

abbrev pub present {ℓ} : {A : Type ℓ} → Option A → Bool
present none = false
present (some a) = true

-- PrimitiveBitSize
abbrev name_in : Text → List Text → Bool
name_in s [] = false
name_in s (t ∷ ts) = text_eq s t || name_in s ts

abbrev positive_width : Option ℤ → Option ℤ
positive_width (some (pos (suc n))) = some (pos (suc n))
positive_width _ = none

-- A b and a positive number behind it.
abbrev bit_field_size : Text → Option ℤ
bit_field_size (c ∷ d ∷ s) = if c == b'b' then positive_width (atoi (d ∷ s)) else none
bit_field_size _ = none

unfoldable pub primitive_bit_size : Text → Option ℤ
primitive_bit_size name =
    if name_in name (codes "u1" ∷ codes "s1" ∷ [])
    then some (pos 8)
    else if name_in name
        (codes "u2" ∷ codes "u2le" ∷ codes "u2be" ∷ codes "s2" ∷ codes "s2le" ∷ codes "s2be" ∷ [])
    then some (pos 16)
    else if name_in name (
        codes "u4"
        ∷ codes "u4le"
        ∷ codes "u4be"
        ∷ codes "s4"
        ∷ codes "s4le"
        ∷ codes "s4be"
        ∷ codes "f4"
        ∷ codes "f4le"
        ∷ codes "f4be"
        ∷ [])
    then some (pos 32)
    else if name_in name (
        codes "u8"
        ∷ codes "u8le"
        ∷ codes "u8be"
        ∷ codes "s8"
        ∷ codes "s8le"
        ∷ codes "s8be"
        ∷ codes "f8"
        ∷ codes "f8le"
        ∷ codes "f8be"
        ∷ [])
    then some (pos 64)
    else bit_field_size name

abbrev pub in_bits : ℤ → ℤ
in_bits size = if negative size then unknown else to_int64 (size *ℤ pos 8)

abbrev pub add_size : Option ℤ → (ℤ → Option ℤ) → Option ℤ
add_size none f = none
add_size (some (negsuc n)) f = some unknown
add_size (some (pos n)) f = f (pos n)

abbrev pub at_name : Option ℤ → (Text → Option ℤ) → Option Text → Option ℤ
at_name missing f none = missing
at_name missing f (some name) = f name

-- The switch of ComputeTypeRefSize, by the sizes that bytes and a string have.
abbrev pub size_of_kind : Kind → ℤ → ℤ → ℤ
size_of_kind k bytes_size string_size =
    if one_of k (u1 ∷ s1 ∷ [])
    then pos 1
    else if one_of k (u2 ∷ u2le ∷ u2be ∷ s2 ∷ s2le ∷ s2be ∷ [])
    then pos 2
    else if one_of k (u4 ∷ u4le ∷ u4be ∷ s4 ∷ s4le ∷ s4be ∷ f4 ∷ f4le ∷ f4be ∷ [])
    then pos 4
    else if one_of k (u8 ∷ u8le ∷ u8be ∷ s8 ∷ s8le ∷ s8be ∷ f8 ∷ f8le ∷ f8be ∷ [])
    then pos 8
    else if k == bytes
    then bytes_size
    else if k == string
    then string_size
    else unknown

module _ {F : Type 0} where
  -- A size that is an integer literal.
  abbrev pub literal_size : Option (Node F) → ℤ
  literal_size (some (Node.int i)) = to_int64 i
  literal_size _ = unknown

  abbrev pub bytes_size : TypeRef (Node F) → ℤ
  bytes_size ref = elim ref.bytes [ none ↦ unknown | some b ↦ literal_size b.size ]

  abbrev pub string_size : TypeRef (Node F) → ℤ
  string_size ref = elim ref.string [ none ↦ unknown | some s ↦ literal_size s.size ]

  unfoldable pub compute_type_ref_size : TypeRef (Node F) → ℤ
  compute_type_ref_size ref = size_of_kind ref.kind (bytes_size ref) (string_size ref)

  unfoldable pub compute_attr_size : Attr (Node F) → ℤ
  compute_attr_size a =
      if present a.repeat
      then unknown
      else if present a.size
      then literal_size a.size
      else elim a.type.type_ref [ none ↦ unknown | some ref ↦ compute_type_ref_size ref ]

  unfoldable pub compute_type_ref_bit_size : TypeRef (Node F) → ℤ
  compute_type_ref_bit_size ref =
      if ref.kind == bits
      then elim ref.bits [ none ↦ in_bits (compute_type_ref_size ref) | some b ↦ b.width ]
      else in_bits (compute_type_ref_size ref)

  -- The size of a type of its own, or else that of the nested struct that a user type names; a user
  -- type without its options has no name.
  abbrev pub nested_size : (Option Text → Option ℤ) → ℤ → TypeRef (Node F) → Option ℤ
  nested_size child own ref =
      if negative own && ref.kind == user
      then elim ref.user [ none ↦ child none | some t ↦ child (some t.name) ]
      else some own

  abbrev pub of_ref : Option (TypeRef (Node F)) → (TypeRef (Node F) → Option ℤ) → Option ℤ
  of_ref none f = some unknown
  of_ref (some ref) f = f ref

  -- The loop over a sequence, by the sizes of types and of nested structs.
  unfoldable pub sum_sizes :
      (TypeRef (Node F) → ℤ) → (Option Text → Option ℤ) → ℤ → List (Attr (Node F)) → Option ℤ
  sum_sizes own child total [] = some total
  sum_sizes own child total (attr ∷ rest) =
      if present attr.repeat || present attr.if_
      then some unknown
      else of_ref attr.type.type_ref (λ ref.
        add_size (nested_size child (own ref) ref)
          (λ size. sum_sizes own child (to_int64 (total +ℤ size)) rest))

  -- computeStructSizeStaticHelper and computeStructBitSizeHelper, by the sizes `own` of types and by
  -- what they do on a name that is a nil dereference.
  unfoldable mutual
    pub struct_size :
        (TypeRef (Node F) → ℤ) → (Structs (Node F) → Option ℤ) → ℕ → Struct (Node F) → Option ℤ
    struct_size own missing depth (struct body structs) =
        if ltb 10 depth
        then some unknown
        else sum_sizes own
            (at_name (missing structs)
              (λ name. user_type_size own missing (suc depth) name structs))
            (pos 0) body.seq

    -- computeUserTypeSizeStatic, and the search of the loop over bits.
    pub user_type_size :
        (TypeRef (Node F) → ℤ)
        → (Structs (Node F) → Option ℤ)
        → ℕ
        → Text
        → Structs (Node F)
        → Option ℤ
    user_type_size own missing depth name Structs.nil = some unknown
    user_type_size own missing depth name (Structs.cons (struct body structs) rest) =
        let child = struct_size own missing depth (struct body structs) in
        let later = user_type_size own missing depth name rest in
        if text_eq body.id name then child else later

  -- The name is dereferenced before the search; the search over bits does so at every nested struct.
  abbrev pub missing_name : Structs (Node F) → Option ℤ
  missing_name structs = none

  abbrev pub missing_in_search : Structs (Node F) → Option ℤ
  missing_in_search Structs.nil = some unknown
  missing_in_search (Structs.cons s rest) = none

  unfoldable pub compute_struct_size_static : Struct (Node F) → Option ℤ
  compute_struct_size_static s = struct_size compute_type_ref_size missing_name 0 s

  unfoldable pub compute_struct_bit_size : Struct (Node F) → Option ℤ
  compute_struct_bit_size s = struct_size compute_type_ref_bit_size missing_in_search 0 s
