-- ===== src/Eval/Read.antt =====
-- kaitai/eval/readtypes.go, readSingle: the reading of numbers. The functions of the runtime library's stream
-- are a parameter, each under the kind that it reads; `none` is an error.
pub mod Kinds
pub mod Values
pub mod Samples
mod Tests
use zanbato.Base.{
  ℕ, Bool, true, false, not, ◌&&◌, Option, none, some, List, [], ◌∷◌, Text, ◌==◌, if◌then◌else◌,
}
use zanbato.Base.Int.{ℤ, pos}
use zanbato.Types.Kind.{
  Kind, one_of, u1, u2le, u2be, u4le, u4be, u8le, u8be, s1, s2le, s2be, s4le, s4be, s8le, s8be,
  f4le, f4be, f8le, f8be, bits, bytes, string, user,
}
use zanbato.Types.TypeRef.{
  BitEndianKind, unspecified_bit_order, big_bit_endian, little_bit_endian, BitsType, TypeRef,
}
use zanbato.Types.Attr.{given}
use zanbato.Schema.{EnumValue}
use zanbato.Eval.Value.{Value, uint_value, int_value, float_value, bool_value, int_eq, apply_enum}

-- ReadU1 and so on, ReadS1 and so on, ReadF4le and so on as a float64, ReadBitsIntLe, ReadBitsIntBe.
pub record Stream : Type 1 where
  pub State : Type 0
  pub read_unsigned : Kind → State → Option (ℕ × State)
  pub read_signed : Kind → State → Option (ℤ × State)
  pub read_float : Kind → State → Option (ℕ × State)
  pub read_bits_int_le : ℤ → State → Option (ℕ × State)
  pub read_bits_int_be : ℤ → State → Option (ℕ × State)

-- The error of a read; the nil options of a bit field; the error for a kind that is not read; bytes, strings
-- and types of the schema, which are not modelled.
pub data Reading (S : Type 0) : Type 0 where
  read : Value → S → Reading S
  failed crashed unsupported elsewhere : Reading S

-- The cases of the switch that read alike.
pub data Case : Type 0 where
  unsigned signed float bit_field no_number no_case : Case

unfoldable pub case_of : Kind → Case
case_of k =
    if one_of k (u1 ∷ u2le ∷ u2be ∷ u4le ∷ u4be ∷ u8le ∷ u8be ∷ [])
    then unsigned
    else if one_of k (s1 ∷ s2le ∷ s2be ∷ s4le ∷ s4be ∷ s8le ∷ s8be ∷ [])
    then signed
    else if one_of k (f4le ∷ f4be ∷ f8le ∷ f8be ∷ [])
    then float
    else if k == bits
    then bit_field
    else if one_of k (bytes ∷ string ∷ user ∷ [])
    then no_number
    else no_case

abbrev pub reading {ℓ} : {S : Type 0} {A : Type ℓ} → (A → Value) → Option (A × S) → Reading S
reading f none = failed
reading f (some (a, s)) = read (f a) s

-- The order of the type decides, if it has one.
abbrev pub bit_order : BitEndianKind → BitEndianKind → BitEndianKind
bit_order unspecified_bit_order order = order
bit_order big_bit_endian order = big_bit_endian
bit_order little_bit_endian order = little_bit_endian

abbrev pub bits_value : ℤ → Text → ℕ → Value
bits_value width enum v =
    if int_eq width (pos 1) && not (given enum) then bool_value (not (v == 0)) else uint_value v

module _ (st : Stream) where
  abbrev pub read_bits_int : BitEndianKind → ℤ → st.State → Option (ℕ × st.State)
  read_bits_int little_bit_endian width s = st.read_bits_int_le width s
  read_bits_int big_bit_endian width s = st.read_bits_int_be width s
  read_bits_int unspecified_bit_order width s = st.read_bits_int_be width s

  abbrev pub read_bit_field : BitEndianKind → Text → Option BitsType → st.State → Reading st.State
  read_bit_field order enum none s = crashed
  read_bit_field order enum (some b) s =
      reading (bits_value b.width enum) (read_bits_int (bit_order b.endian order) b.width s)

  abbrev pub read_case :
      {E : Type 0} → BitEndianKind → Text → Case → TypeRef E → st.State → Reading st.State
  read_case order enum unsigned ref s = reading uint_value (st.read_unsigned ref.kind s)
  read_case order enum signed ref s = reading int_value (st.read_signed ref.kind s)
  read_case order enum float ref s = reading float_value (st.read_float ref.kind s)
  read_case order enum bit_field ref s = read_bit_field order enum ref.bits s
  read_case order enum no_number ref s = elsewhere
  read_case order enum no_case ref s = unsupported

abbrev pub with_enum : {S : Type 0} → Text → List EnumValue → Reading S → Reading S
with_enum enum values (read v s) = read (apply_enum enum values v) s
with_enum enum values failed = failed
with_enum enum values crashed = crashed
with_enum enum values unsupported = unsupported
with_enum enum values elsewhere = elsewhere

-- A number of the kind of `ref`, in a node with the bit order `order` and an attribute with the enumeration
-- `enum` of the `values`.
unfoldable pub read_number :
    {E : Type 0} (st : Stream)
    → BitEndianKind
    → Text
    → List EnumValue
    → TypeRef E
    → st.State
    → Reading st.State
read_number st order enum values ref s =
    with_enum enum values (read_case st order enum (case_of ref.kind) ref s)
