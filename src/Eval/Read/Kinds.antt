-- ===== src/Eval/Read/Kinds.antt =====
-- kaitai/eval/readtypes.go: the kinds of the values that are read.
use zanbato.Base.{
  ℕ, ◌<◌, Bool, true, false, not, ◌||◌, Option, none, some, List, Text, ◌==◌, ◌≡◌, refl, sym, ◌∙◌,
  arith,
}
use zanbato.Base.Tables.{checks, checks_lem}
use zanbato.Types.TypeRef.{BitEndianKind, BitsType, TypeRef, dependent_kind, has_dependent_endian}
use zanbato.Schema.{EnumValue}
use zanbato.Eval.Value.{Value, uint_value, int_value, float_value}
use zanbato.Eval.Read.{
  Stream, Reading, read, failed, crashed, unsupported, elsewhere, Case, unsigned, signed, float,
  bit_field, no_number, no_case, case_of, reading, bits_value, read_bits_int, bit_order,
  read_bit_field, read_case, with_enum, read_number,
}

unfoldable pub is_unsupported : {S : Type 0} → Reading S → Bool
is_unsupported unsupported = true
is_unsupported elsewhere = false
is_unsupported (read v s) = false
is_unsupported failed = false
is_unsupported crashed = false

abbrev is_no_case : Case → Bool
is_no_case no_case = true
is_no_case no_number = false
is_no_case unsigned = false
is_no_case signed = false
is_no_case float = false
is_no_case bit_field = false

abbrev agree : Bool → Bool → Bool
agree true b = b
agree false b = not b

agree-eq : (a b : Bool) → agree a b ≡ true → a ≡ b
agree-eq true b h = sym h
agree-eq false true h = cc
agree-eq false false h = refl

-- Kinds from u1 up to user.
abbrev read_agrees : ℕ → Bool
read_agrees k = k == 0 || agree (is_no_case (case_of k)) (dependent_kind k)

positive-agrees :
    (k : ℕ)
    → 0 < k
    → read_agrees k ≡ true
    → agree (is_no_case (case_of k)) (dependent_kind k) ≡ true
positive-agrees k h g = ground arith

read_table : checks read_agrees 31 ≡ true
unfolding checks case_of dependent_kind
read_table = refl

module _ (enum : Text) (values : List EnumValue) where
  unsupported-reading {ℓ} :
      {S : Type 0} {A : Type ℓ} (f : A → Value) (o : Option (A × S))
      → is_unsupported (with_enum enum values (reading f o)) ≡ false
  unfolding is_unsupported
  unsupported-reading f none = refl
  unsupported-reading f (some (a, s)) = refl

module _ (st : Stream) (order : BitEndianKind) (enum : Text) (values : List EnumValue) where
  unsupported-bit_field :
      (b : Option BitsType) (s : st.State)
      → is_unsupported (with_enum enum values (read_bit_field st order enum b s)) ≡ false
  unfolding is_unsupported
  unsupported-bit_field none s = refl
  unsupported-bit_field (some b) s =
      unsupported-reading enum values (bits_value b.width enum)
        (read_bits_int st (bit_order b.endian order) b.width s)

  unsupported-case :
      {E : Type 0} (c : Case) (ref : TypeRef E) (s : st.State)
      → is_unsupported (with_enum enum values (read_case st order enum c ref s)) ≡ is_no_case c
  unfolding is_unsupported
  unsupported-case unsigned ref s =
      unsupported-reading enum values uint_value (st.read_unsigned ref.kind s)
  unsupported-case signed ref s =
      unsupported-reading enum values int_value (st.read_signed ref.kind s)
  unsupported-case float ref s =
      unsupported-reading enum values float_value (st.read_float ref.kind s)
  unsupported-case bit_field ref s = unsupported-bit_field ref.bits s
  unsupported-case no_number ref s = refl
  unsupported-case no_case ref s = refl

  -- Of the kinds that a type of an attribute has, readSingle answers those whose byte order is left open with
  -- the error for an unsupported kind, and those alone.
  pub read_number-dependent :
      {E : Type 0} (ref : TypeRef E) (s : st.State)
      → 0 < ref.kind
      → ref.kind < 31
      → is_unsupported (read_number st order enum values ref s) ≡ has_dependent_endian ref
  unfolding read_number has_dependent_endian
  read_number-dependent ref s h k =
      unsupported-case (case_of ref.kind) ref s
      ∙ agree-eq (is_no_case (case_of ref.kind)) (dependent_kind ref.kind)
          (positive-agrees ref.kind h (checks_lem read_agrees 31 ref.kind read_table k))
