-- ===== src/Eval/Read/Values.antt =====
-- kaitai/eval/readtypes.go: the kinds of the values that are read.
use zanbato.Base.{
  ℕ, ◌<◌, Bool, true, false, not, ◌||◌, Option, none, some, List, Text, ◌==◌, leb, if◌then◌else◌,
  ◌≡◌, refl, sym, ap, subst, ◌∙◌, arith,
}
use zanbato.Base.Int.{ℤ, pos}
use zanbato.Base.Tables.{checks, checks_lem}
use zanbato.Types.Kind.{Kind}
use zanbato.Types.TypeRef.{BitEndianKind, BitsType, TypeRef}
use zanbato.Types.Attr.{given}
use zanbato.Schema.{EnumValue}
use zanbato.Eval.Value.{
  Value, ValueKind, kind_none, kind_uint, kind_int, kind_float, kind_bool, kind_bytes, kind_str,
  kind_enum, kind_struct, kind_array, uint_value, int_value, float_value, int_eq, apply_enum,
}
use zanbato.Eval.Read.{
  Stream, Reading, read, failed, crashed, unsupported, elsewhere, Case, unsigned, signed, float,
  bit_field, no_number, no_case, case_of, reading, bits_value, read_bits_int, bit_order,
  read_bit_field, read_case, with_enum, read_number,
}

-- What is read, if anything is, is of a kind.
unfoldable pub IsOfKind : {S : Type 0} → ValueKind → Reading S → Type 0
IsOfKind k (read v s) = v.kind ≡ k
IsOfKind k failed = Unit
IsOfKind k crashed = Unit
IsOfKind k unsupported = Unit
IsOfKind k elsewhere = Unit

unfoldable pub one_bit : Option BitsType → Bool
one_bit none = false
one_bit (some b) = int_eq b.width (pos 1)

-- Whether there is an enumeration; whether the type is a single bit; u1 to u8be, s1 to s8be, bits, f4 to f8be.
unfoldable pub expected_kind : Bool → Bool → Kind → ValueKind
expected_kind enum bit k =
    if leb 22 k
    then kind_float
    else if enum
    then kind_enum
    else if k == 21
    then if bit then kind_bool else kind_uint
    else if leb 11 k
    then kind_int
    else kind_uint

abbrev case_kind : Bool → Bool → Case → ValueKind
case_kind enum bit unsigned = if enum then kind_enum else kind_uint
case_kind enum bit signed = if enum then kind_enum else kind_int
case_kind enum bit float = kind_float
case_kind enum bit bit_field = if enum then kind_enum else if bit then kind_bool else kind_uint
case_kind enum bit no_number = kind_none
case_kind enum bit no_case = kind_none

abbrev code : ValueKind → ℕ
code kind_none = 0
code kind_int = 1
code kind_uint = 2
code kind_float = 3
code kind_bool = 4
code kind_bytes = 5
code kind_str = 6
code kind_enum = 7
code kind_struct = 8
code kind_array = 9

abbrev decode : ℕ → ValueKind
decode n =
    if n == 0
    then kind_none
    else if n == 1
    then kind_int
    else if n == 2
    then kind_uint
    else if n == 3
    then kind_float
    else if n == 4
    then kind_bool
    else if n == 5
    then kind_bytes
    else if n == 6
    then kind_str
    else if n == 7
    then kind_enum
    else if n == 8
    then kind_struct
    else kind_array

decode-code : (k : ValueKind) → decode (code k) ≡ k
decode-code kind_none = refl
decode-code kind_int = refl
decode-code kind_uint = refl
decode-code kind_float = refl
decode-code kind_bool = refl
decode-code kind_bytes = refl
decode-code kind_str = refl
decode-code kind_enum = refl
decode-code kind_struct = refl
decode-code kind_array = refl

eq-true : (m n : ℕ) → (m == n) ≡ true → m ≡ n
eq-true m n h = ground arith

code-injective : (k l : ValueKind) → (code k == code l) ≡ true → k ≡ l
code-injective k l h = sym (decode-code k) ∙ ap decode (eq-true (code k) (code l) h) ∙ decode-code l

abbrev reads : Case → Bool
reads unsigned = true
reads signed = true
reads float = true
reads bit_field = true
reads no_number = false
reads no_case = false

abbrev kind_agrees : Bool → Bool → ℕ → Bool
kind_agrees enum bit k =
    not (reads (case_of k))
    || code (case_kind enum bit (case_of k)) == code (expected_kind enum bit k)

kind_table : (enum bit : Bool) → checks (kind_agrees enum bit) 28 ≡ true
unfolding checks case_of expected_kind
kind_table true true = refl
kind_table true false = refl
kind_table false true = refl
kind_table false false = refl

IsOfKind-number :
    {S : Type 0} {A : Type 0} (enum : Text) (values : List EnumValue) (k : ValueKind)
    (f : A → Value)
    → ((a : A) → (apply_enum enum values (f a)).kind ≡ k)
    → (o : Option (A × S)) → IsOfKind k (with_enum enum values (reading f o))
unfolding IsOfKind
IsOfKind-number enum values k f h none = tt
IsOfKind-number enum values k f h (some (a, s)) = h a

module _ (enum : Text) (values : List EnumValue) where
  kind-uint_value :
      (u : ℕ)
      → (apply_enum enum values (uint_value u)).kind ≡ (if given enum then kind_enum else kind_uint)
  unfolding apply_enum
  kind-uint_value u = ground arith

  kind-int_value :
      (i : ℤ)
      → (apply_enum enum values (int_value i)).kind ≡ (if given enum then kind_enum else kind_int)
  unfolding apply_enum
  kind-int_value i = ground arith

  kind-float_value : (x : ℕ) → (apply_enum enum values (float_value x)).kind ≡ kind_float
  unfolding apply_enum
  kind-float_value x = ground arith

  kind-bits_value :
      (b : BitsType) (u : ℕ)
      → (apply_enum enum values (bits_value b.width enum u)).kind
        ≡ case_kind (given enum) (one_bit (some b)) bit_field
  unfolding apply_enum one_bit
  kind-bits_value b u = ground arith

module _ (st : Stream) (order : BitEndianKind) (enum : Text) (values : List EnumValue) where
  IsOfKind-bit_field :
      (b : Option BitsType) (s : st.State)
      → IsOfKind
          (case_kind (given enum) (one_bit b) bit_field)
          (with_enum enum values (read_bit_field st order enum b s))
  unfolding IsOfKind
  IsOfKind-bit_field none s = tt
  IsOfKind-bit_field (some b) s =
      IsOfKind-number enum values _ (bits_value b.width enum) (kind-bits_value enum values b)
        (read_bits_int st (bit_order b.endian order) b.width s)

  IsOfKind-case :
      {E : Type 0} (c : Case) (ref : TypeRef E) (s : st.State) (k : ValueKind)
      → (not (reads c) || code (case_kind (given enum) (one_bit ref.bits) c) == code k) ≡ true
      → IsOfKind k (with_enum enum values (read_case st order enum c ref s))
  unfolding IsOfKind
  IsOfKind-case unsigned ref s k h =
      IsOfKind-number enum values k uint_value
        (λ u. kind-uint_value enum values u ∙ code-injective _ k h) (st.read_unsigned ref.kind s)
  IsOfKind-case signed ref s k h =
      IsOfKind-number enum values k int_value
        (λ i. kind-int_value enum values i ∙ code-injective _ k h) (st.read_signed ref.kind s)
  IsOfKind-case float ref s k h =
      IsOfKind-number enum values k float_value
        (λ x. kind-float_value enum values x ∙ code-injective _ k h) (st.read_float ref.kind s)
  IsOfKind-case bit_field ref s k h =
      subst (λ k. IsOfKind k (with_enum enum values (read_bit_field st order enum ref.bits s)))
        (code-injective _ k h) (IsOfKind-bit_field ref.bits s)
  IsOfKind-case no_number ref s k h = tt
  IsOfKind-case no_case ref s k h = tt

  -- A number that readSingle reads is of the kind that its type tells: a float; else an enumeration where the
  -- attribute has one; else a Boolean for a single bit, a signed integer or an unsigned one.
  pub read_number-IsOfKind :
      {E : Type 0} (ref : TypeRef E) (s : st.State)
      → ref.kind < 28
      → IsOfKind
          (expected_kind (given enum) (one_bit ref.bits) ref.kind)
          (read_number st order enum values ref s)
  unfolding read_number
  read_number-IsOfKind ref s k = IsOfKind-case (case_of ref.kind) ref s _ (
      checks_lem (kind_agrees (given enum) (one_bit ref.bits)) 28 ref.kind
        (kind_table (given enum) (one_bit ref.bits)) k)
