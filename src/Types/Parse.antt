-- ===== src/Types/Parse.antt =====
-- kaitai/types/type.go: the strings that name types. A string is the list of its runes.
pub mod Split
pub mod Laws
pub mod WellKinded
use zanbato.Base.{
  ℕ, suc, ◌+◌, ◌-◌, ◌^◌, ◌≤◌, ◌<◌, Bool, true, false, not, ◌&&◌, ◌||◌, Option, none, some, List, [],
  ◌∷◌, ◌++◌, map, Text, codes, text_eq, ltb, leb, ◌==◌, if◌then◌else◌, take, drop, length,
}
use mathlib.Core.Option
use zanbato.Base.Int.{ℤ, pos, negsuc, sub_ℕ}
use zanbato.Base.Digits.{read_digits}
use zanbato.Base.Platform.{Unicode, BigFloat}
use zanbato.Expr.Ast.{Node}
use zanbato.Expr.Outcome.{Failure}
use zanbato.Expr.Parser.{ParseResult, empty, parsed, failed, unparsed, exhausted, parse_expr}
use zanbato.Types.Kind.{
  Kind, u1, u2, u4, u8, u2le, u2be, u4le, u4be, u8le, u8be, s1, s2, s4, s8, s2le, s2be, s4le, s4be,
  s8le, s8be, bits, f4, f4le, f4be, f8, f8le, f8be, bytes, string, user,
}
use zanbato.Types.TypeRef.{
  BitEndianKind, unspecified_bit_order, big_bit_endian, little_bit_endian, BitsType, BytesType,
  StringType, UserType, TypeRef,
}
use zanbato.Types.Parse.Split.{split_params}

-- The errors of type names, of attributes and of whole schemas. `unfinished` stands for a run of the expression parser out of fuel, which does not occur.
pub data TypeError : Type 0 where
  bad_expression : Failure → ℕ → TypeError
  unparsed_text : Text → TypeError
  in_parameter : ℕ → TypeError → TypeError
  missing_paren both_type_and_switch invalid_repeat_spec unfinished : TypeError
  contents_unsupported encoding_unsupported : Kind → TypeError
  stream_attr_unsupported : Text → Kind → TypeError
  unknown_endian unknown_bit_endian : Text → TypeError
  bad_enum_value : Text → Text → TypeError
  in_repeat : Text → TypeError → TypeError
  in_attr : Text → Text → TypeError → TypeError

-- A panic of the runtime is `crash`.
pub data TypeResult {ℓ} (A : Type ℓ) : Type ℓ where
  ok : A → TypeResult A
  error : TypeError → TypeResult A
  crash : TypeResult A

infixl 5 ◌>>=◌
abbrev pub ◌>>=◌ {ℓ κ} :
    {A : Type ℓ} {B : Type κ} → TypeResult A → (A → TypeResult B) → TypeResult B
ok a >>= f = f a
error e >>= f = error e
crash >>= f = crash

-- The result of expr.ParseExpr as its callers take it: nil for an empty source.
unfoldable pub parsed_expr : {E : Type 0} → ParseResult E → TypeResult (Option (Node E))
parsed_expr empty = ok none
parsed_expr (parsed n) = ok (some n)
parsed_expr (failed e at_rune) = error (bad_expression e at_rune)
parsed_expr (unparsed n s) = error (unparsed_text s)
parsed_expr exhausted = error unfinished

-- strings.IndexByte
unfoldable pub index_of : ℕ → Text → Option ℕ
index_of c [] = none
index_of c (d ∷ s) = if d == c then some 0 else Option.map suc (index_of c s)

-- strings.LastIndexByte
abbrev behind : Bool → Option ℕ → Option ℕ
behind here (some i) = some (suc i)
behind true none = some 0
behind false none = none

unfoldable pub last_index_of : ℕ → Text → Option ℕ
last_index_of c [] = none
last_index_of c (d ∷ s) = behind (d == c) (last_index_of c s)

-- What stands before a suffix.
unfoldable pub strip_suffix : Text → Text → Option Text
strip_suffix suffix [] = if text_eq [] suffix then some [] else none
strip_suffix suffix (c ∷ s) =
    let rest = Option.map (λ t. c ∷ t) (strip_suffix suffix s) in
    if text_eq (c ∷ s) suffix then some [] else rest

-- strconv.Atoi: decimal digits behind a sign, within 64 bits.
abbrev pub in_range : ℕ → (ℕ → ℤ) → Option ℕ → Option ℤ
in_range limit sign none = none
in_range limit sign (some n) = if ltb n limit then some (sign n) else none

abbrev pub digits_of : Text → Option ℕ
digits_of [] = none
digits_of (c ∷ s) = read_digits 10 0 (c ∷ s)

unfoldable pub atoi : Text → Option ℤ
unfolding read_digits
atoi [] = none
atoi (c ∷ s) =
    if c == b'-'
    then in_range (2 ^ 63 + 1) (sub_ℕ 0) (digits_of s)
    else if c == b'+'
    then in_range (2 ^ 63) pos (digits_of s)
    else in_range (2 ^ 63) pos (digits_of (c ∷ s))

-- The switch of parseBasicDataType.
abbrev basic_types : List (Text × Kind)
basic_types =
    (codes "u1", u1)
    ∷ (codes "u2", u2)
    ∷ (codes "u4", u4)
    ∷ (codes "u8", u8)
    ∷ (codes "u2le", u2le)
    ∷ (codes "u2be", u2be)
    ∷ (codes "u4le", u4le)
    ∷ (codes "u4be", u4be)
    ∷ (codes "u8le", u8le)
    ∷ (codes "u8be", u8be)
    ∷ (codes "s1", s1)
    ∷ (codes "s2", s2)
    ∷ (codes "s4", s4)
    ∷ (codes "s8", s8)
    ∷ (codes "s2le", s2le)
    ∷ (codes "s2be", s2be)
    ∷ (codes "s4le", s4le)
    ∷ (codes "s4be", s4be)
    ∷ (codes "s8le", s8le)
    ∷ (codes "s8be", s8be)
    ∷ (codes "bits", bits)
    ∷ (codes "f4", f4)
    ∷ (codes "f4le", f4le)
    ∷ (codes "f4be", f4be)
    ∷ (codes "f8", f8)
    ∷ (codes "f8le", f8le)
    ∷ (codes "f8be", f8be)
    ∷ (codes "bytes", bytes)
    ∷ (codes "str", string)
    ∷ (codes "strz", string)
    ∷ []

abbrev lookup_text : Text → List (Text × Kind) → Option Kind
lookup_text s [] = none
lookup_text s ((t, k) ∷ rest) = if text_eq s t then some k else lookup_text s rest

unfoldable pub parse_basic_data_type : Text → Option Kind
parse_basic_data_type s = lookup_text s basic_types

abbrev pub bits_ref : {E : Type 0} → BitEndianKind → ℤ → TypeRef E
bits_ref e w = record {
  kind = bits;
  bits = some (record { width = w; endian = e });
  bytes = none;
  string = none;
  user = none;
  is_array = false;
}

-- The width and the order of b⟨width⟩, b⟨width⟩be, b⟨width⟩le, behind the b.
unfoldable pub bits_suffix : Text → BitEndianKind × Text
unfolding strip_suffix
bits_suffix s =
    if ltb 2 (length s)
    then elim (strip_suffix (codes "be") s) [
      | some t ↦ (big_bit_endian, t)
      | none ↦ elim (strip_suffix (codes "le") s) [
        | some t ↦ (little_bit_endian, t)
        | none ↦ (unspecified_bit_order, s)
      ]
    ]
    else (unspecified_bit_order, s)

unfoldable pub parse_bits_data_type : {E : Type 0} → Text → Option (TypeRef E)
unfolding bits_suffix atoi
parse_bits_data_type [] = none
parse_bits_data_type (c ∷ s) =
    let (e, digits) = bits_suffix s in
    if c == b'b' then Option.map (bits_ref e) (atoi digits) else none

abbrev default_bytes : {E : Type 0} → BytesType E
default_bytes = record {
  size = none;
  size_eos = false;
  pad_right = negsuc 0;
  terminator = negsuc 0;
  consume = true;
  include_ = false;
  eos_error = true;
}

abbrev default_string : {E : Type 0} → ℤ → StringType E
default_string terminator = record {
  size = none;
  size_eos = false;
  encoding = [];
  pad_right = negsuc 0;
  terminator = terminator;
  consume = true;
  include_ = false;
  eos_error = true;
}

-- A built-in type: the reading options of bytes and str, and a terminator for strz.
unfoldable pub basic_ref : {E : Type 0} → Text → Kind → TypeRef E
basic_ref s k = record {
  kind = k;
  bits = none;
  bytes = if k == bytes then some default_bytes else none;
  string =
      if k == string
      then some (default_string (if text_eq s (codes "strz") then pos 0 else negsuc 0))
      else none;
  user = none;
  is_array = false;
}

abbrev pub user_ref : {E : Type 0} → Text → List (Option E) → TypeRef E
user_ref name params = record {
  kind = user;
  bits = none;
  bytes = none;
  string = none;
  user = some (record { name = name; params = params; size = none });
  is_array = false;
}

module _ (u : Unicode) (fl : BigFloat) where
  abbrev E : Type 0
  E = Node fl.Float

  unfoldable pub parse_source : Text → TypeResult (Option (Node fl.Float))
  unfolding parsed_expr
  parse_source s = parsed_expr (parse_expr u fl s)

  -- The parameters from the n-th on.
  unfoldable pub parse_params : ℕ → List Text → TypeResult (List (Option (Node fl.Float)))
  parse_params n [] = ok []
  parse_params n (s ∷ rest) = elim (parse_source s) [
    | ok p ↦ parse_params (suc n) rest >>= λ ps. ok (p ∷ ps)
    | error e ↦ error (in_parameter n e)
    | crash ↦ crash
  ]

  -- Between the first opening and the last closing parenthesis; the slice is out of bounds where the
  -- last closing one stands before.
  unfoldable pub user_type_at : Text → Option ℕ → Option ℕ → TypeResult (TypeRef (Node fl.Float))
  user_type_at s none j = ok (user_ref s [])
  user_type_at s (some i) none = error missing_paren
  user_type_at s (some i) (some j) =
      if leb (suc i) j
      then (parse_params 1 (split_params (take (j - suc i) (drop (suc i) s))) >>= λ ps.
          ok (user_ref (take i s) ps))
      else crash

  unfoldable pub parse_user_type : Text → TypeResult (TypeRef (Node fl.Float))
  parse_user_type s = user_type_at s (index_of b'(' s) (last_index_of b')' s)

  unfoldable pub parse_type_ref_inner : Text → TypeResult (TypeRef (Node fl.Float))
  parse_type_ref_inner s = elim (parse_basic_data_type s) [
    | some k ↦ ok (basic_ref s k)
    | none ↦ elim (parse_bits_data_type s) [ some t ↦ ok t | none ↦ parse_user_type s ]
  ]

  -- An array suffix, and the type before it.
  unfoldable pub parse_type_ref : Text → TypeResult (TypeRef (Node fl.Float))
  parse_type_ref s = elim (strip_suffix (codes "[]") s) [
    | some t ↦ parse_type_ref_inner t >>= λ r. ok (record r { is_array = true })
    | none ↦ parse_type_ref_inner s >>= λ r. ok (record r { is_array = false })
  ]
