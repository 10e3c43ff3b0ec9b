-- ===== src/Expr/Lexer.antt =====
-- kaitai/expr/expr.go, "Lexing": the classes of runes and the parser's steps over them. A token is a
-- Go string, so it holds the UTF-8 bytes of the runes that it was read from.
use Prim.Native.Nat.{bit_or}
pub mod Lengths
use zanbato.Base.{
  ℕ, zero, suc, ◌+◌, ◌-◌, ◌/◌, ◌%◌, Bool, true, false, not, ◌&&◌, ◌||◌, Option, none, some, [], ◌∷◌,
  ◌++◌, Text, leb, ltb, ◌==◌, if◌then◌else◌, take, drop, length,
}
use zanbato.Base.Platform.{Unicode}
use zanbato.Base.Digits.{read_number}
use zanbato.Expr.Outcome.{
  Runes, Outcome, Parser, Failure, ok, panic, out_of_fuel, bind, unterminated_escape, short_x,
  short_u, short_long_u, bad_octal, bad_hex, unexpected_escape, unterminated_string,
}

-- string(r): the UTF-8 encoding, with U+FFFD for what is no Unicode scalar value.
unfoldable pub encode_rune : ℕ → Text
encode_rune r =
    if ltb r 0x80
    then r ∷ []
    else if ltb r 0x800
    then (0xC0 + r / 64) ∷ (0x80 + r % 64) ∷ []
    else if ltb 0x10FFFF r || leb 0xD800 r && leb r 0xDFFF
    then 0xEF ∷ 0xBF ∷ 0xBD ∷ []
    else if ltb r 0x10000
    then (0xE0 + r / 4096) ∷ (0x80 + r / 64 % 64) ∷ (0x80 + r % 64) ∷ []
    else (0xF0 + r / 262144) ∷ (0x80 + r / 4096 % 64) ∷ (0x80 + r / 64 % 64) ∷ (0x80 + r % 64) ∷ []

unfoldable pub lower : ℕ → ℕ
lower ch = bit_or 0x20 ch

unfoldable pub is_decimal : ℕ → Bool
is_decimal ch = leb b'0' ch && leb ch b'9'

unfoldable pub is_hex : ℕ → Bool
unfolding lower
is_hex ch = leb b'0' ch && leb ch b'9' || leb b'a' (lower ch) && leb (lower ch) b'f'

unfoldable pub is_ascii_letter : ℕ → Bool
unfolding lower
is_ascii_letter c = leb b'a' (lower c) && leb (lower c) b'z'

unfoldable pub is_whitespace : ℕ → Bool
is_whitespace c = c == b' ' || c == 0x0A

module _ (u : Unicode) where
  unfoldable pub is_letter : ℕ → Bool
  unfolding is_ascii_letter
  is_letter c = is_ascii_letter c || leb 0x80 c && u.is_letter c

  unfoldable pub is_digit : ℕ → Bool
  unfolding is_decimal
  is_digit c = is_decimal c || leb 0x80 c && u.is_digit c

  unfoldable pub is_number : ℕ → Bool
  unfolding is_digit
  is_number c = is_digit c || c == b'_'

  unfoldable pub is_ident_start : ℕ → Bool
  unfolding is_letter
  is_ident_start c = is_letter c || c == b'_'

  unfoldable pub is_ident : ℕ → Bool
  unfolding is_ident_start is_digit
  is_ident c = is_ident_start c || is_digit c

-- The rune ahead and the one behind it, 0 at the end.
unfoldable pub peek : Runes → ℕ
peek [] = 0
peek (c ∷ s) = c

unfoldable pub peek2 : Runes → ℕ
unfolding peek
peek2 [] = 0
peek2 (c ∷ s) = peek s

unfoldable pub skip_whitespace : Runes → Runes
unfolding is_whitespace
skip_whitespace [] = []
skip_whitespace (c ∷ s) = if is_whitespace c then skip_whitespace s else c ∷ s

-- The runes of a keyword are ahead.
unfoldable pub has_prefix : Text → Runes → Bool
has_prefix [] s = true
has_prefix (k ∷ ks) [] = false
has_prefix (k ∷ ks) (c ∷ s) = c == k && has_prefix ks s

-- What is left behind a keyword that no identifier character follows.
unfoldable pub consume_keyword : Unicode → Text → Runes → Option Runes
unfolding has_prefix is_ident peek
consume_keyword u keyword s =
    let rest = drop (length keyword) s in
    if has_prefix keyword s
    then if ltb 0 (length rest) && is_ident u (peek rest) then none else some rest
    else none

unfoldable pub token : (ℕ → Bool) → Runes → Text × Runes
unfolding encode_rune
token test [] = ([], [])
token test (c ∷ s) =
    let (t, rest) = token test s in if test c then (encode_rune c ++ t, rest) else ([], c ∷ s)

-- Up to n more octal digits.
unfoldable pub octal_digits : ℕ → Runes → Text × Runes
octal_digits zero s = ([], s)
octal_digits (suc n) [] = ([], [])
octal_digits (suc n) (c ∷ s) =
    let (t, rest) = octal_digits n s in
    if leb b'0' c && leb c b'7' then (c ∷ t, rest) else ([], c ∷ s)

-- strconv.ParseUint(digits, base, bits) as the bytes that `encode` makes of it.
unfoldable pub check_code : Failure → ℕ → (ℕ → Text) → Option ℕ → Parser Text
check_code e limit encode none s = panic e s
check_code e limit encode (some code) s = if ltb code limit then ok (encode code) s else panic e s

unfoldable pub parse_uint : Failure → ℕ → ℕ → (ℕ → Text) → Text → Parser Text
unfolding check_code read_number
parse_uint e base limit encode digits s = check_code e limit encode (read_number base digits) s

-- n hex digits, all of which have to be there.
unfoldable pub hex_escape : Failure → ℕ → ℕ → (ℕ → Text) → Parser Text
unfolding parse_uint
hex_escape short n limit encode s =
    if ltb (length s) n
    then panic short s
    else parse_uint bad_hex 16 limit encode (take n s) (drop n s)

-- One to three octal digits.
unfoldable pub octal_escape : ℕ → Parser Text
unfolding octal_digits parse_uint
octal_escape c s =
    let (t, rest) = octal_digits 2 s in parse_uint bad_octal 8 256 (λ code. code ∷ []) (c ∷ t) rest

unfoldable pub str_escape : ℕ → Parser Text
unfolding hex_escape octal_escape encode_rune
str_escape quote [] = panic unterminated_escape []
str_escape quote (c ∷ s) =
    if c == b'a'
    then ok (7 ∷ []) s
    else if c == b'b'
    then ok (8 ∷ []) s
    else if c == b'f'
    then ok (12 ∷ []) s
    else if c == b'n'
    then ok (10 ∷ []) s
    else if c == b'r'
    then ok (13 ∷ []) s
    else if c == b't'
    then ok (9 ∷ []) s
    else if c == b'v'
    then ok (11 ∷ []) s
    else if c == b'e'
    then ok (0x1b ∷ []) s
    else if c == 0x5C
    then ok (0x5C ∷ []) s
    else if c == quote
    then ok (encode_rune quote) s
    else if c == 0x22
    then ok (0x22 ∷ []) s
    else if c == 0x27
    then ok (0x27 ∷ []) s
    else if leb b'0' c && leb c b'7'
    then octal_escape c s
    else if c == b'x'
    then hex_escape short_x 2 256 (λ code. code ∷ []) s
    else if c == b'u'
    then hex_escape short_u 4 0x1_0000 encode_rune s
    else if c == b'U'
    then hex_escape short_long_u 8 0x1_0000_0000 encode_rune s
    else panic unexpected_escape s

-- The body of a string literal behind its opening quote; each round takes a rune at least.
unfoldable pub str_loop : ℕ → ℕ → Text → Parser Text
unfolding encode_rune str_escape
str_loop zero quote str s = out_of_fuel
str_loop (suc fuel) quote str [] = panic unterminated_string []
str_loop (suc fuel) quote str (c ∷ s) =
    let plain = str_loop fuel quote (str ++ encode_rune c) s in
    let escaped = bind (str_escape quote s) λ e rest. str_loop fuel quote (str ++ e) rest in
    if c == quote
    then ok str s
    else if c == 0x5C
    then if quote == 0x27 then plain else escaped
    else plain

-- A string literal, at its opening quote.
unfoldable pub str_lit : Parser Text
unfolding str_loop peek
str_lit s = str_loop (length s + 1) (peek s) [] (drop 1 s)

abbrev pub is_quote : ℕ → Bool
is_quote q = q == 0x22 || q == 0x27

-- Adjacent string literals are joined; the white space behind the last one stays.
unfoldable pub str_concat : ℕ → Text → Parser Text
unfolding str_lit skip_whitespace peek
str_concat zero combined s = out_of_fuel
str_concat (suc fuel) combined s =
    let next = bind (str_lit (skip_whitespace s)) λ t rest. str_concat fuel (combined ++ t) rest in
    if is_quote (peek (skip_whitespace s)) then next else ok combined s
