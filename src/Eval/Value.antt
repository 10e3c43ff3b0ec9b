-- ===== src/Eval/Value.antt =====
-- kaitai/eval/value.go, the values of nodes, and the label that readSingle of readtypes.go and
-- lookupEnumLabel of resolve.go give to a number of an enumeration. An int64 is an integer, a uint64 a
-- natural number, and a float64 its 64 bits.
pub mod Labels
mod Tests
use zanbato.Base.{
  ℕ, Bool, true, false, ◌&&◌, ◌||◌, List, [], ◌∷◌, Text, ◌==◌, ltb, ◌^◌, if◌then◌else◌,
}
use zanbato.Base.Int.{ℤ, pos, negsuc}
use zanbato.Engine.Integers.{to_int64, to_uint64}
use zanbato.Types.Attr.{given}
use zanbato.Schema.{EnumValue}

pub data ValueKind : Type 0 where
  kind_none kind_int kind_uint kind_float kind_bool kind_bytes kind_str : ValueKind
  kind_enum kind_struct kind_array : ValueKind

pub record Value : Type 0 where
  pub kind : ValueKind
  pub int : ℤ
  pub uint : ℕ
  pub float : ℕ
  pub bool : Bool
  pub bytes : List ℕ
  pub str : List ℕ
  pub enum_name : Text
  pub enum_label : Text

-- The zero value.
abbrev pub no_value : Value
no_value = record {
  kind = kind_none;
  int = pos 0;
  uint = 0;
  float = 0;
  bool = false;
  bytes = [];
  str = [];
  enum_name = [];
  enum_label = [];
}

-- Value{Kind: KindUint, Uint: …} and its like: the other fields are zero.
abbrev pub uint_value : ℕ → Value
uint_value u = record no_value { kind = kind_uint; uint = u }

abbrev pub int_value : ℤ → Value
int_value i = record no_value { kind = kind_int; int = i }

abbrev pub float_value : ℕ → Value
float_value x = record no_value { kind = kind_float; float = x }

abbrev pub bool_value : Bool → Value
bool_value b = record no_value { kind = kind_bool; bool = b }

abbrev pub int_eq : ℤ → ℤ → Bool
int_eq (pos a) (pos b) = a == b
int_eq (negsuc a) (negsuc b) = a == b
int_eq (pos a) (negsuc b) = false
int_eq (negsuc a) (pos b) = false

-- big.Int.IsInt64, and big.Int.Sign and IsUint64
abbrev pub is_int64 : ℤ → Bool
is_int64 (pos n) = ltb n (2 ^ 63)
is_int64 (negsuc n) = ltb n (2 ^ 63)

abbrev pub is_uint64 : ℤ → Bool
is_uint64 (pos n) = ltb n (2 ^ 64)
is_uint64 (negsuc n) = false

-- The loop of lookupEnumLabel over the values of an enumeration.
unfoldable pub lookup_enum_label : List EnumValue → ℤ → ℕ → Text
lookup_enum_label [] int_val uint_val = []
lookup_enum_label (ev ∷ values) int_val uint_val =
    let rest = lookup_enum_label values int_val uint_val in
    if is_int64 ev.value && int_eq (to_int64 ev.value) int_val
    then ev.id
    else if is_uint64 ev.value && to_uint64 ev.value == uint_val
    then ev.id
    else rest

abbrev pub enum_of : Text → List EnumValue → ℤ → ℕ → Value
enum_of name values i u = record no_value {
  kind = kind_enum;
  int = i;
  uint = u;
  enum_name = name;
  enum_label = lookup_enum_label values i u;
}

-- The end of readSingle: the enumeration `name`, if there is one, has the `values`.
unfoldable pub apply_enum : Text → List EnumValue → Value → Value
apply_enum name values v =
    if given name
    then elim v.kind [
      | kind_uint ↦ enum_of name values (to_int64 (pos v.uint)) v.uint
      | kind_int ↦ enum_of name values v.int v.uint
      | _ ↦ v
    ]
    else v
