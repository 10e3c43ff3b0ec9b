-- ===== src/Schema/Samples.antt =====
-- Attributes and structs of which all but the type and the name is blank, for runs at concrete inputs.
use zanbato.Base.{none, some, [], List, false, Text}
use zanbato.Base.Int.{ℤ}
use zanbato.Expr.Ast.{Node}
use zanbato.Types.TypeRef.{TypeRef, unspecified_order, unspecified_bit_order}
use zanbato.Types.Parse.{bits_ref}
use zanbato.Schema.{Attr, StructBody}

abbrev E : Type 0
E = Node Text

abbrev pub of_type : TypeRef E → Attr E
of_type t = record {
  id = [];
  doc = [];
  contents = none;
  type = record { type_ref = some t; type_switch = none };
  repeat = none;
  process = none;
  if_ = none;
  valid = none;
  enum = [];
  pos = none;
  size = none;
  size_eos = false;
  io = none;
  value = none;
  parent = none;
  terminator = none;
  pad_right = none;
  consume = none;
  include_ = none;
  eos_error = none;
}

abbrev pub bit_field : ℤ → Attr E
bit_field w = of_type (bits_ref unspecified_bit_order w)

abbrev pub named_body : Text → List (Attr E) → StructBody E
named_body id seq = record {
  doc = [];
  meta = record {
    endian = record { kind = unspecified_order; switch_on = none; cases = [] };
    bit_endian = unspecified_bit_order;
    imports = [];
    encoding = [];
    opaque_types = false;
    debug = false;
  };
  id = id;
  params = [];
  seq = seq;
  instances = [];
  enums = [];
  to_string = [];
}
