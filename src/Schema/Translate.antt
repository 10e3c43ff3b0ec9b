-- ===== src/Schema/Translate.antt =====
-- kaitai/parse.go: a decoded spec becomes a struct. The decoding of YAML is left out.
use zanbato.Base.{
  ℕ, suc, Bool, true, false, not, ◌&&◌, ◌||◌, Option, none, some, List, [], ◌∷◌, ◌++◌, Text, codes,
  text_eq, if◌then◌else◌,
}
use zanbato.Base.Int.{pos}
use zanbato.Base.Digits.{int_text, set_string}
use zanbato.Base.Platform.{Unicode, BigFloat}
use zanbato.Expr.Ast.{Node}
use zanbato.Types.TypeRef.{
  EndianKind, unspecified_order, big_endian, little_endian, switch_endian, BitEndianKind,
  unspecified_bit_order, big_bit_endian, little_bit_endian,
}
use zanbato.Types.Parse.{
  TypeError, unknown_endian, unknown_bit_endian, bad_enum_value, in_repeat, in_attr, TypeResult, ok,
  error, crash, ◌>>=◌, parse_source, parse_type_ref,
}
use zanbato.Types.Parse.Split.{is_space}
use zanbato.Types.Attr.{AttributeSpec, given, parse_attr_type, parse_repeat}
use zanbato.Schema.{
  Param, Endian, EnumValue, Enum, Attr, Struct, struct, Structs, MetaSpec, ParamSpec, EnumSpec,
  SpecBody, TypeSpec, spec, TypeSpecs,
}

-- strings.TrimSpace
unfoldable pub trim_left : Text → Text
trim_left [] = []
trim_left (c ∷ s) = let rest = trim_left s in if is_space c then rest else c ∷ s

abbrev kept : Bool → ℕ → Text → Text
kept true c [] = []
kept true c (d ∷ s) = c ∷ d ∷ s
kept false c s = c ∷ s

unfoldable pub trim_right : Text → Text
trim_right [] = []
trim_right (c ∷ s) = kept (is_space c) c (trim_right s)

unfoldable pub trim_space : Text → Text
trim_space s = trim_right (trim_left s)

-- fmt.Errorf("…: %w", …) around an error.
abbrev pub wrapped {ℓ} : {A : Type ℓ} → (TypeError → TypeError) → TypeResult A → TypeResult A
wrapped f (ok a) = ok a
wrapped f (error e) = error (f e)
wrapped f crash = crash

-- The encoding of the schema for a string that has none.
unfoldable pub with_encoding : Text → AttributeSpec → AttributeSpec
with_encoding default attr =
    let t = trim_space attr.type_value in
    if (not (given attr.encoding) && given default)
      && (text_eq t (codes "str") || text_eq t (codes "strz"))
    then record attr { encoding = default }
    else attr

unfoldable pub endian_case : Text → TypeResult EndianKind
endian_case value =
    if text_eq value (codes "le")
    then ok little_endian
    else if text_eq value (codes "be")
    then ok big_endian
    else error (unknown_endian value)

unfoldable pub endian_cases : List (Text × Text) → TypeResult (List (Text × EndianKind))
endian_cases [] = ok []
endian_cases ((key, value) ∷ rest) =
    endian_case value >>= λ k. endian_cases rest >>= λ ks. ok ((key, k) ∷ ks)

abbrev plain_endian : {E : Type 0} → EndianKind → Endian E
plain_endian k = record { kind = k; switch_on = none; cases = [] }

unfoldable pub translate_bit_endian : Text → TypeResult BitEndianKind
translate_bit_endian value =
    if not (given value)
    then ok unspecified_bit_order
    else if text_eq value (codes "le")
    then ok little_bit_endian
    else if text_eq value (codes "be")
    then ok big_bit_endian
    else error (unknown_bit_endian value)

unfoldable pub enum_values : Text → List (Text × Text) → TypeResult (List EnumValue)
enum_values id [] = ok []
enum_values id ((value, name) ∷ rest) = elim (set_string value) [
  | none ↦ error (bad_enum_value value id)
  | some v ↦ enum_values id rest >>= λ vs. ok (record { value = v; id = name } ∷ vs)
]

unfoldable pub translate_enums : List EnumSpec → TypeResult (List Enum)
translate_enums [] = ok []
translate_enums (e ∷ rest) = enum_values e.id e.values >>= λ vs.
    translate_enums rest >>= λ es. ok (record { id = e.id; values = vs } ∷ es)

-- fmt.Sprintf("_unnamed%d", n)
unfoldable pub unnamed : ℕ → Text
unnamed n = codes "_unnamed" ++ int_text 10 (pos n)

-- A child type without an encoding has that of the type around it.
unfoldable pub inherit_encoding : Text → SpecBody → SpecBody
inherit_encoding encoding body =
    if not (given body.meta.encoding) && given encoding
    then record body { meta = record body.meta { encoding = encoding } }
    else body

module _ (u : Unicode) (fl : BigFloat) where
  unfoldable pub translate_endian : MetaSpec → TypeResult (Endian (Node fl.Float))
  translate_endian m =
      if text_eq m.endian (codes "le")
      then ok (plain_endian little_endian)
      else if text_eq m.endian (codes "be")
      then ok (plain_endian big_endian)
      else if nonempty m.endian_cases || given m.endian_switch_on
      then (parse_source u fl m.endian_switch_on >>= λ e. endian_cases m.endian_cases >>= λ cs.
          ok (record { kind = switch_endian; switch_on = e; cases = cs }))
      else ok (plain_endian unspecified_order)
    where
      nonempty : List (Text × Text) → Bool
      nonempty [] = false
      nonempty (c ∷ cs) = true

  unfoldable pub translate_params : List ParamSpec → TypeResult (List (Param (Node fl.Float)))
  translate_params [] = ok []
  translate_params (p ∷ rest) = parse_type_ref u fl p.type >>= λ t. translate_params rest >>= λ ps.
      ok (record { doc = p.doc; id = p.id; type = t; enum = p.enum } ∷ ps)

  -- parseOptionalExpr, for the attribute `id`.
  unfoldable pub optional_expr : Text → Text → Text → TypeResult (Option (Node fl.Float))
  optional_expr id name src = wrapped (in_attr name id) (parse_source u fl src)

  unfoldable pub build_attr : Text → AttributeSpec → Text → Bool → TypeResult (Attr (Node fl.Float))
  build_attr id attr_spec default is_instance =
      let attr = with_encoding default attr_spec in
      parse_attr_type u fl attr is_instance >>= λ type.
      wrapped (in_repeat id) (parse_repeat u fl attr) >>= λ repeat.
      optional_expr id (codes "process") attr.process >>= λ process.
      optional_expr id (codes "if") attr.if_ >>= λ if_.
      optional_expr id (codes "pos") attr.pos >>= λ pos.
      optional_expr id (codes "size") attr.size >>= λ size.
      optional_expr id (codes "io") attr.io >>= λ io.
      optional_expr id (codes "value") attr.value >>= λ value. ok (record {
        id = id;
        doc = attr.doc;
        contents = attr.contents;
        type = type;
        repeat = repeat;
        process = process;
        if_ = if_;
        valid = attr.valid;
        enum = attr.enum;
        pos = pos;
        size = size;
        size_eos = attr.size_eos;
        io = io;
        value = value;
        parent = attr.parent;
        terminator = attr.terminator;
        pad_right = attr.pad_right;
        consume = attr.consume;
        include_ = attr.include_;
        eos_error = attr.eos_error;
      })

  -- The sequence, with `n` attributes without a name before it.
  unfoldable pub translate_seq :
      Text → ℕ → List AttributeSpec → TypeResult (List (Attr (Node fl.Float)))
  translate_seq encoding n [] = ok []
  translate_seq encoding n (item ∷ rest) = build_attr item.id item encoding false >>= λ attr.
      elim (given attr.id) [
        | true ↦ translate_seq encoding n rest >>= λ attrs. ok (attr ∷ attrs)
        | false ↦ translate_seq encoding (suc n) rest >>= λ attrs.
            ok (record attr { id = unnamed n } ∷ attrs)
      ]

  unfoldable pub translate_instances :
      Text → List (Text × AttributeSpec) → TypeResult (List (Attr (Node fl.Float)))
  translate_instances encoding [] = ok []
  translate_instances encoding ((key, item) ∷ rest) = build_attr key item encoding true >>= λ attr.
      translate_instances encoding rest >>= λ attrs. ok (attr ∷ attrs)

  unfoldable mutual
    -- translateTypeSpec of a spec inside a type with the encoding `outer`; the root is inside none.
    pub translate_type_spec : Text → Text → TypeSpec → TypeResult (Struct (Node fl.Float))
    translate_type_spec outer id (spec own types) =
        let body = inherit_encoding outer own in
        translate_endian body.meta >>= λ endian.
        translate_bit_endian body.meta.bit_endian >>= λ bit_endian.
        translate_params body.params >>= λ params.
        translate_seq body.meta.encoding 0 body.seq >>= λ seq.
        translate_types body.meta.encoding types >>= λ structs.
        translate_enums body.enums >>= λ enums.
        translate_instances body.meta.encoding body.instances >>= λ instances. ok (
          struct
            (record {
              doc = body.doc;
              meta = record {
                endian = endian;
                bit_endian = bit_endian;
                imports = body.meta.imports;
                encoding = body.meta.encoding;
                opaque_types = body.meta.opaque_types;
                debug = body.meta.debug;
              };
              id = if given id then id else body.meta.id;
              params = params;
              seq = seq;
              instances = instances;
              enums = enums;
              to_string = body.to_string;
            })
            structs)

    pub translate_types : Text → TypeSpecs → TypeResult (Structs (Node fl.Float))
    translate_types encoding TypeSpecs.nil = ok Structs.nil
    translate_types encoding (TypeSpecs.cons (spec own types) rest) =
        translate_type_spec encoding own.meta.id (spec own types) >>= λ child.
        translate_types encoding rest >>= λ children. ok (Structs.cons child children)

  -- ParseStruct, behind the decoding of YAML.
  unfoldable pub parse_struct : TypeSpec → TypeResult (Struct (Node fl.Float))
  parse_struct root = translate_type_spec [] [] root
