-- ===== src/Schema.antt =====
-- kaitai/struct.go, attr.go, enum.go: structs, their attributes and enumerations; kaitai/ksy: the
-- specs that they are translated from. An identifier is a text; a pointer is an option, and one that
-- the code never leaves nil is the value.
pub mod Translate
pub mod Inversion
pub mod Encodings
pub mod Setters
pub mod Strings
pub mod Names
pub mod Samples
mod Tests
use zanbato.Base.{ℕ, Bool, Option, List, Text}
use zanbato.Base.Int.{ℤ}
use zanbato.Types.TypeRef.{EndianKind, BitEndianKind, TypeRef, AttrType}
use zanbato.Types.Attr.{AttributeSpec, RepeatType, ValidSpec, ParentSpec}

pub record Param (E : Type 0) : Type 0 where
  pub doc : Text
  pub id : Text
  pub type : TypeRef E
  pub enum : Text

-- types.Endian; the order of bits is its kind alone.
pub record Endian (E : Type 0) : Type 0 where
  pub kind : EndianKind
  pub switch_on : Option E
  pub cases : List (Text × EndianKind)

pub record Meta (E : Type 0) : Type 0 where
  pub endian : Endian E
  pub bit_endian : BitEndianKind
  pub imports : List Text
  pub encoding : Text
  pub opaque_types : Bool
  pub debug : Bool

pub record EnumValue : Type 0 where
  pub value : ℤ
  pub id : Text

pub record Enum : Type 0 where
  pub id : Text
  pub values : List EnumValue

-- kaitai.Attr, over the expressions `E`.
pub record Attr (E : Type 0) : Type 0 where
  pub id : Text
  pub doc : Text
  pub contents : Option (List ℕ)
  pub type : AttrType E
  pub repeat : Option (RepeatType E)
  pub process : Option E
  pub if_ : Option E
  pub valid : Option ValidSpec
  pub enum : Text
  pub pos : Option E
  pub size : Option E
  pub size_eos : Bool
  pub io : Option E
  pub value : Option E
  pub parent : Option ParentSpec
  pub terminator : Option ℤ
  pub pad_right : Option ℤ
  pub consume : Option Bool
  pub include_ : Option Bool
  pub eos_error : Option Bool

-- The fields of kaitai.Struct but the nested structs.
pub record StructBody (E : Type 0) : Type 0 where
  pub doc : Text
  pub meta : Meta E
  pub id : Text
  pub params : List (Param E)
  pub seq : List (Attr E)
  pub instances : List (Attr E)
  pub enums : List Enum
  pub to_string : Text

mutual
  pub data Struct (E : Type 0) : Type 0 where
    struct : StructBody E → Structs E → Struct E

  pub data Structs (E : Type 0) : Type 0 where
    nil : Structs E
    cons : Struct E → Structs E → Structs E

-- ksy.MetaSpec, of which the translation reads these fields.
pub record MetaSpec : Type 0 where
  pub id : Text
  pub debug : Bool
  pub opaque_types : Bool
  pub imports : List Text
  pub encoding : Text
  pub endian : Text
  pub endian_switch_on : Text
  pub endian_cases : List (Text × Text)
  pub bit_endian : Text

pub record ParamSpec : Type 0 where
  pub id : Text
  pub type : Text
  pub doc : Text
  pub enum : Text

-- An enumeration: a value as it is written, with its identifier.
pub record EnumSpec : Type 0 where
  pub id : Text
  pub values : List (Text × Text)

-- The fields of ksy.TypeSpec but the nested types.
pub record SpecBody : Type 0 where
  pub meta : MetaSpec
  pub params : List ParamSpec
  pub seq : List AttributeSpec
  pub enums : List EnumSpec
  pub instances : List (Text × AttributeSpec)
  pub doc : Text
  pub to_string : Text

mutual
  pub data TypeSpec : Type 0 where
    spec : SpecBody → TypeSpecs → TypeSpec

  pub data TypeSpecs : Type 0 where
    nil : TypeSpecs
    cons : TypeSpec → TypeSpecs → TypeSpecs
