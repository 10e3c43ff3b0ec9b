-- ===== src/Base/Digits.antt =====
-- big.Int.Text(base) and big.Int.SetString(s, 0): integers written and read in a base.
use zanbato.Base.{
  ℕ, zero, suc, ◌+◌, ◌-◌, ◌*◌, ◌/◌, ◌%◌, ◌&&◌, ◌||◌, Option, none, some, [], ◌∷◌, ◌++◌, Text, leb,
  ltb, ◌==◌, if◌then◌else◌,
}
use zanbato.Base.Int.{ℤ, pos, negsuc, sub_ℕ}

-- 0-9, then a-z.
unfoldable pub digit_char : ℕ → ℕ
digit_char d = if ltb d 10 then b'0' + d else b'a' + (d - 10)

-- The digits of n, most significant first; n + 1 rounds are enough in any base above 1.
unfoldable pub digits_text : ℕ → ℕ → ℕ → Text
unfolding digit_char
digits_text zero base n = []
digits_text (suc fuel) base n =
    let high = digits_text fuel base (n / base) in
    if ltb n base then digit_char n ∷ [] else high ++ digit_char (n % base) ∷ []

-- big.Int.Text(base).
unfoldable pub int_text : ℕ → ℤ → Text
unfolding digits_text
int_text base (pos n) = digits_text (suc n) base n
int_text base (negsuc n) = b'-' ∷ digits_text (suc (suc n)) base (suc n)

-- The value of a digit in either case, 36 for any other character.
unfoldable pub digit_value : ℕ → ℕ
digit_value c =
    if leb b'0' c && leb c b'9'
    then c - b'0'
    else if leb b'a' c && leb c b'z'
    then c - b'a' + 10
    else if leb b'A' c && leb c b'Z'
    then c - b'A' + 10
    else 36

-- The number that the digits go on to, after those read into `acc`.
unfoldable pub read_digits : ℕ → ℕ → Text → Option ℕ
unfolding digit_value
read_digits base acc [] = some acc
read_digits base acc (c ∷ s) =
    let rest = read_digits base (acc * base + digit_value c) s in
    if ltb (digit_value c) base then rest else none

-- At least one digit.
unfoldable pub read_number : ℕ → Text → Option ℕ
unfolding read_digits
read_number base [] = none
read_number base (c ∷ s) = read_digits base 0 (c ∷ s)

-- The base by its prefix: 0x, 0o, 0b, 0, or decimal.
unfoldable pub read_prefixed : Text → Option ℕ
unfolding read_number
read_prefixed [] = none
read_prefixed (c ∷ []) = read_number 10 (c ∷ [])
read_prefixed (c ∷ d ∷ s) =
    if c == b'0'
    then if d == b'x' || d == b'X'
      then read_number 16 s
      else if d == b'o' || d == b'O'
      then read_number 8 s
      else if d == b'b' || d == b'B'
      then read_number 2 s
      else read_number 8 (d ∷ s)
    else read_number 10 (c ∷ d ∷ s)

abbrev negated : Option ℕ → Option ℤ
negated none = none
negated (some n) = some (sub_ℕ 0 n)

abbrev positive : Option ℕ → Option ℤ
positive none = none
positive (some n) = some (pos n)

-- big.Int.SetString(s, 0) on a text without underscores.
unfoldable pub set_string : Text → Option ℤ
unfolding read_prefixed
set_string [] = none
set_string (c ∷ s) =
    if c == b'-'
    then negated (read_prefixed s)
    else if c == b'+'
    then positive (read_prefixed s)
    else positive (read_prefixed (c ∷ s))
