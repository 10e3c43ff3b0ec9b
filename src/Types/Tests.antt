-- ===== src/Types/Tests.antt =====
-- kaitai/types: kinds, type names and attributes at concrete inputs.
use zanbato.Base.{
  ◌<◌, ◌≡◌, refl, true, false, ◌||◌, ◌==◌, none, some, [], ◌∷◌, ◌++◌, Text, codes, arith,
}
use zanbato.Base.Int.{pos, ◌+ℤ◌, ◌-ℤ◌}
use zanbato.Base.Samples.{ascii, text_float}
use zanbato.Expr.Ast.{Node}
use zanbato.Expr.Lexer.{
  token, is_ident, is_number, is_hex, lower, peek, peek2, skip_whitespace, consume_keyword,
}
use zanbato.Expr.Number.{
  number, based, decimal, prefixed, fraction, exponent, exponent_sign, point_ahead, int_literal,
  float_literal, strip_underscores,
}
use zanbato.Expr.Head.{head, expect, word_head, size_head, sign_head, strings, type_name}
use zanbato.Expr.Operators.{
  operation, postfix_stage, arith_stage, shift_stage, bit_stage, compare_stage, and_stage, or_stage,
  ternary_stage,
}
use zanbato.Expr.Parser.{parse_expr, expr, parse_fuel, parse_outcome, dot_suffix}
use zanbato.Base.Digits.{set_string}
use zanbato.Types.Kind.{s4, u4, u2le, bits, user}
use zanbato.Types.Kind.Promote.{promote}
use zanbato.Types.TypeRef.{AttrType}
use zanbato.Types.Parse.{
  ok, crash, ◌>>=◌, index_of, last_index_of, strip_suffix, basic_ref, user_ref, parse_params,
  parse_basic_data_type, parse_user_type, parse_type_ref_inner, parse_type_ref, parse_source,
  parsed_expr,
}
use zanbato.Types.Parse.Laws.{parse_user_type-join, parse_user_type-crash}
use zanbato.Types.Parse.Split.{is_blank, is_space, advance, in_quote, outside, splits}
use zanbato.Types.Parse.Split.Laws.{join, IsParameter, unsplit, state_behind}
use zanbato.Types.Parse.WellKinded.{all_ok, has_options, element_name, parse_type_ref-has_options}
use zanbato.Types.Attr.{AttributeSpec, parse_attr_type}
use zanbato.Types.Attr.Samples.{blank}
use zanbato.Types.Attr.Safety.{returns, parse_attr_type-returns, parse_attr_type-crash}

abbrev E : Type 0
E = Node Text

abbrev four_bytes : AttrType E
four_bytes = record { type_ref = some (basic_ref (codes "u4") u4); type_switch = none }

array_arg : IsParameter (codes "[1, 2]")
unfolding unsplit state_behind splits advance outside ◌+ℤ◌ ◌-ℤ◌
array_arg = (refl, refl)

string_arg : IsParameter (codes "\",)\"")
unfolding unsplit state_behind splits advance outside in_quote
string_arg = (refl, refl)

no_paren : index_of b'(' (codes "tlv") ≡ none
unfolding index_of
no_paren = refl

not_blank : is_blank (join (codes "[1, 2]") (codes "\",)\"" ∷ [])) ≡ false
unfolding is_blank is_space
not_blank = refl

parse_user_type-join_example :
    parse_user_type ascii text_float
      (codes "tlv" ++ b'(' ∷ (join (codes "[1, 2]") (codes "\",)\"" ∷ []) ++ b')' ∷ []))
    ≡ (parse_params ascii text_float 1 (codes "[1, 2]" ∷ codes "\",)\"" ∷ []) >>= λ ps.
        ok (user_ref (codes "tlv") ps))
parse_user_type-join_example =
    parse_user_type-join ascii text_float (codes "tlv") (codes "[1, 2]") (codes "\",)\"" ∷ [])
      no_paren array_arg (string_arg, tt) not_blank

first_half : index_of b'(' (codes "a" ++ b')' ∷ codes "b") ≡ none
unfolding index_of
first_half = refl

second_half : last_index_of b')' (codes "b" ++ b'(' ∷ codes "c") ≡ none
unfolding last_index_of
second_half = refl

parse_user_type-crash_example :
    parse_user_type ascii text_float (codes "a" ++ b')' ∷ (codes "b" ++ b'(' ∷ codes "c")) ≡ crash
parse_user_type-crash_example =
    parse_user_type-crash ascii text_float (codes "a") (codes "b") (codes "c") first_half
      second_half

parse_type_ref-has_options_example :
    all_ok
      (has_options (element_name (codes "b3[]")))
      (parse_type_ref ascii text_float (codes "b3[]"))
    ≡ true
parse_type_ref-has_options_example = parse_type_ref-has_options ascii text_float (codes "b3[]")

-- The name `bits` alone has no width.
bare_bits : parse_type_ref ascii text_float (codes "bits") ≡ ok (basic_ref (codes "bits") bits)
unfolding parse_type_ref parse_type_ref_inner parse_basic_data_type strip_suffix basic_ref
bare_bits = refl

abbrev plain : Text → Text → AttributeSpec
plain type_value size = record blank {
  id = codes "field";
  type_value = type_value;
  size = size;
  size_eos = true;
  encoding = codes "UTF-8";
  pad_right = some (pos 0);
  include_ = some true;
}

string_returns : returns (parse_type_ref ascii text_float (codes "str")) ≡ true
unfolding returns parse_type_ref parse_type_ref_inner strip_suffix parse_basic_data_type
string_returns = refl

parse_attr_type-returns_example :
    returns (parse_attr_type ascii text_float (plain (codes "str") []) false) ≡ true
parse_attr_type-returns_example =
    parse_attr_type-returns ascii text_float (plain (codes "str") []) false refl refl string_returns

u4_parsed : parse_type_ref ascii text_float (codes "u4") ≡ ok (basic_ref (codes "u4") u4)
unfolding parse_type_ref parse_type_ref_inner strip_suffix parse_basic_data_type basic_ref
u4_parsed = refl

size_parsed : parse_source ascii text_float (codes "4") ≡ ok (some (Node.int (pos 4)))
unfolding parse_source parsed_expr parse_expr expr parse_fuel parse_outcome head expect operation
    dot_suffix token is_ident peek skip_whitespace word_head size_head sign_head strings type_name
    number based is_number decimal prefixed fraction exponent exponent_sign point_ahead int_literal
    float_literal strip_underscores set_string is_hex lower peek2 consume_keyword postfix_stage
    arith_stage shift_stage bit_stage compare_stage and_stage or_stage ternary_stage
size_parsed = refl

no_struct : ((basic_ref {E = E} (codes "u4") u4).kind == user) ≡ false
unfolding basic_ref
no_struct = refl

scalar :
    ((basic_ref {E = E} (codes "u4") u4).kind == 28
      || (basic_ref {E = E} (codes "u4") u4).kind == 29)
    ≡ false
unfolding basic_ref
scalar = refl

parse_attr_type-crash_example :
    parse_attr_type ascii text_float (plain (codes "u4") (codes "4")) false ≡ crash
parse_attr_type-crash_example =
    parse_attr_type-crash ascii text_float (plain (codes "u4") (codes "4"))
      (basic_ref (codes "u4") u4) (some (Node.int (pos 4))) refl refl u4_parsed size_parsed scalar
      no_struct

below_untyped : promote u2le s4 < 31
unfolding promote
below_untyped = omega arith
