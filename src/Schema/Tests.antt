-- ===== src/Schema/Tests.antt =====
-- kaitai/parse.go: translations at concrete inputs.
use zanbato.Base.{
  not, ◌||◌, true, false, none, some, List, [], ◌∷◌, map, Text, codes, ◌≡◌, refl, inr,
}
use mathlib.Core.Option
use zanbato.Base.Samples.{ascii, text_float}
use zanbato.Expr.Ast.{Node}
use zanbato.Types.TypeRef.{unspecified_order, unspecified_bit_order}
use zanbato.Types.Parse.{
  TypeResult, ok, error, crash, parse_source, parsed_expr, parse_type_ref, parse_type_ref_inner,
  strip_suffix, parse_basic_data_type, basic_ref,
}
use zanbato.Types.Attr.{
  AttributeSpec, parse_attr_type, parse_plain_type, set_given_size, set_contents, set_size_eos,
  set_encoding, set_stream_attrs, set_stream_attr, parse_repeat,
}
use zanbato.Types.Attr.Samples.{blank}
use zanbato.Schema.{Attr, Struct, MetaSpec, SpecBody, struct, Structs, TypeSpec, spec, TypeSpecs}
use zanbato.Base.Digits.{int_text, digits_text, digit_char}
use zanbato.Expr.Parser.{parse_expr, parse_outcome, parse_fuel}
use zanbato.Types.Parse.Split.{is_space}
use zanbato.Schema.Translate.{
  build_attr, with_encoding, trim_space, trim_left, trim_right, optional_expr, unnamed,
  translate_seq, translate_type_spec, inherit_encoding, translate_endian, translate_bit_endian,
  translate_params, translate_enums, translate_instances,
}
use zanbato.Schema.Encodings.{last_given, struct_at, declared_along, translate_type_spec-encoding}
use zanbato.Schema.Strings.{build_attr-encoding}
use zanbato.Schema.Setters.{string_encoding}
use zanbato.Schema.Names.{distinct, proper, keeps, all_given, translate_seq-ids}

abbrev E : Type 0
E = Node Text

abbrev result {ℓ} : {A : Type ℓ} → A → TypeResult A → A
result d (ok a) = a
result d (error e) = d
result d crash = d

abbrev name : AttributeSpec
name = record blank { id = codes "name"; type_value = codes "strz" }

abbrev gap : AttributeSpec
gap = record blank { type_value = codes "u2" }

abbrev sequence : List AttributeSpec
sequence = gap ∷ name ∷ gap ∷ []

abbrev meta : Text → Text → MetaSpec
meta id encoding = record {
  id = id;
  debug = false;
  opaque_types = false;
  imports = [];
  encoding = encoding;
  endian = codes "le";
  endian_switch_on = [];
  endian_cases = [];
  bit_endian = [];
}

abbrev body : MetaSpec → List AttributeSpec → SpecBody
body m seq = record {
  meta = m;
  params = [];
  seq = seq;
  enums = [];
  instances = [];
  doc = [];
  to_string = [];
}

abbrev archive : TypeSpec
archive =
    spec (body (meta (codes "archive") (codes "ASCII")) [])
      (TypeSpecs.cons (spec (body (meta (codes "entry") []) sequence) TypeSpecs.nil) TypeSpecs.nil)

abbrev translated_seq : List (Attr E)
translated_seq = result [] (translate_seq ascii text_float (codes "ASCII") 0 sequence)

sequence_translated : translate_seq ascii text_float (codes "ASCII") 0 sequence ≡ ok translated_seq
unfolding translate_seq build_attr parse_attr_type with_encoding trim_space trim_right trim_left
    is_space parse_plain_type parse_type_ref strip_suffix parse_type_ref_inner parse_basic_data_type
    basic_ref set_given_size set_contents set_size_eos set_encoding set_stream_attrs set_stream_attr
    parse_repeat optional_expr parse_source parsed_expr parse_expr parse_outcome parse_fuel unnamed
    int_text digits_text digit_char
sequence_translated = refl

translate_seq-ids_example :
    (keeps (map (λ a. a.id) sequence) (map (λ a. a.id) translated_seq) ≡ true)
    × (all_given (map (λ a. a.id) translated_seq) ≡ true)
    × ((not (proper (map (λ a. a.id) sequence)) || distinct (map (λ a. a.id) translated_seq))
        ≡ true)
translate_seq-ids_example =
    translate_seq-ids ascii text_float (codes "ASCII") sequence translated_seq sequence_translated

abbrev built_name : Attr E
built_name =
    result
      (record {
        id = [];
        doc = [];
        contents = none;
        type = record { type_ref = none; type_switch = none };
        repeat = none;
        process = none;
        if_ = none;
        valid = none;
        enum = [];
        pos = none;
        size = none;
        size_eos = false;
        io = none;
        value = none;
        parent = none;
        terminator = none;
        pad_right = none;
        consume = none;
        include_ = none;
        eos_error = none;
      })
      (build_attr ascii text_float (codes "name") name (codes "ASCII") true)

name_built : build_attr ascii text_float (codes "name") name (codes "ASCII") true ≡ ok built_name
unfolding build_attr parse_attr_type with_encoding trim_space trim_right trim_left is_space
    parse_plain_type parse_type_ref strip_suffix parse_type_ref_inner parse_basic_data_type
    basic_ref set_given_size set_contents set_size_eos set_encoding set_stream_attrs set_stream_attr
    parse_repeat optional_expr parse_source parsed_expr parse_expr parse_outcome parse_fuel
name_built = refl

build_attr-encoding_example : string_encoding built_name.type ≡ some (codes "ASCII")
build_attr-encoding_example =
    build_attr-encoding ascii text_float (codes "name") name (codes "ASCII") true built_name
      (inr refl) refl name_built

abbrev translated_archive : Struct E
translated_archive =
    result
      (struct
        (record {
          doc = [];
          meta = record {
            endian = record { kind = unspecified_order; switch_on = none; cases = [] };
            bit_endian = unspecified_bit_order;
            imports = [];
            encoding = [];
            opaque_types = false;
            debug = false;
          };
          id = [];
          params = [];
          seq = [];
          instances = [];
          enums = [];
          to_string = [];
        })
        Structs.nil)
      (translate_type_spec ascii text_float [] [] archive)

archive_translated : translate_type_spec ascii text_float [] [] archive ≡ ok translated_archive
unfolding translate_type_spec inherit_encoding translate_endian translate_bit_endian
    translate_params translate_enums translate_instances translate_seq build_attr parse_attr_type
    with_encoding trim_space trim_right trim_left is_space parse_plain_type parse_type_ref
    strip_suffix parse_type_ref_inner parse_basic_data_type basic_ref set_given_size set_contents
    set_size_eos set_encoding set_stream_attrs set_stream_attr parse_repeat optional_expr
    parse_source parsed_expr parse_expr parse_outcome parse_fuel unnamed int_text digits_text
    digit_char
archive_translated = refl

translate_type_spec-encoding_example :
    Option.map (λ b. b.meta.encoding) (struct_at (0 ∷ []) translated_archive)
    ≡ Option.map (λ es. last_given ([] ∷ es)) (declared_along (0 ∷ []) archive)
translate_type_spec-encoding_example =
    translate_type_spec-encoding ascii text_float (0 ∷ []) [] [] archive translated_archive
      archive_translated
