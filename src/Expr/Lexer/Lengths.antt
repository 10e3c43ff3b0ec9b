-- ===== src/Expr/Lexer/Lengths.antt =====
-- kaitai/expr/expr.go, "Lexing": no step of the lexer leaves more runes than it was given, and the
-- loops over string literals end.
use zanbato.Base.{
  ℕ, zero, suc, ◌≤◌, ◌<◌, ◌≡◌, refl, Bool, true, false, Option, none, some, [], ◌∷◌, ◌++◌, Text,
  ◌==◌, ltb, arith, take, drop, length, length-drop,
}
use zanbato.Base.Digits.{read_number}
use zanbato.Expr.Outcome.{
  Runes, Failure, Leaves, returns, panics, Leaves-if, Leaves-bind, Leaves-weaken, Leaves-either, ok,
  bad_hex, bad_octal,
}
use zanbato.Expr.Lexer.{
  peek, skip_whitespace, token, octal_escape, check_code, parse_uint, octal_digits, hex_escape,
  str_escape, str_loop, str_lit, str_concat, is_quote, encode_rune,
}

abbrev pub AtMost : Runes → Runes → Type 0
AtMost s r = length r ≤ length s

abbrev pub Below : Runes → Runes → Type 0
Below s r = length r < length s

pub length-skip_whitespace : (s : Runes) → length (skip_whitespace s) ≤ length s
unfolding skip_whitespace
length-skip_whitespace [] = omega arith
length-skip_whitespace (c ∷ s) = ground (arith, length-skip_whitespace s)

pub length-token : (test : ℕ → Bool) (s : Runes) → length (token test s).1 ≤ length s
unfolding token
length-token test [] = omega arith
length-token test (c ∷ s) = ground (arith, length-token test s)

-- A token whose first rune passes the test takes it.
pub length-token_lt :
    (test : ℕ → Bool) (s : Runes)
    → test (peek s) ≡ true
    → test 0 ≡ false
    → length (token test s).1 < length s
unfolding token peek
length-token_lt test [] h z = cc
length-token_lt test (c ∷ s) h z = rw h (omega (arith, length-token test s))

-- A token whose first rune fails the test is empty.
pub token_none : (test : ℕ → Bool) (s : Runes) → test (peek s) ≡ false → token test s ≡ ([], s)
unfolding token peek
token_none test [] h = refl
token_none test (c ∷ s) h = rw h

length-octal_digits : (n : ℕ) (s : Runes) → length (octal_digits n s).1 ≤ length s
unfolding octal_digits
length-octal_digits zero s = omega arith
length-octal_digits (suc n) [] = omega arith
length-octal_digits (suc n) (c ∷ s) = ground (arith, length-octal_digits n s)

check_code-Leaves :
    (P : Runes → Type 0) (e : Failure) (limit : ℕ) (encode : ℕ → Text) (o : Option ℕ) (s : Runes)
    → P s
    → Leaves P (check_code e limit encode o s)
unfolding check_code
check_code-Leaves P e limit encode none s h = panics e s
check_code-Leaves P e limit encode (some code) s h =
    Leaves-if (ltb code limit) (λ _. returns (encode code) s h) (λ _. panics e s)

parse_uint-Leaves :
    (P : Runes → Type 0) (e : Failure) (base limit : ℕ) (encode : ℕ → Text) (digits : Text)
    (s : Runes)
    → P s
    → Leaves P (parse_uint e base limit encode digits s)
unfolding parse_uint
parse_uint-Leaves P e base limit encode digits s h =
    check_code-Leaves P e limit encode (read_number base digits) s h

hex_escape-Leaves :
    (short : Failure) (n limit : ℕ) (encode : ℕ → Text) (s : Runes)
    → Leaves (AtMost s) (hex_escape short n limit encode s)
unfolding hex_escape
hex_escape-Leaves short n limit encode s =
    Leaves-if (ltb (length s) n) (λ _. panics short s)
      (λ _.
        parse_uint-Leaves _ bad_hex 16 limit encode (take n s) (drop n s)
          (omega (arith, length-drop n s)))

octal_escape-Leaves : (c : ℕ) (s : Runes) → Leaves (AtMost s) (octal_escape c s)
unfolding octal_escape
octal_escape-Leaves c s =
    parse_uint-Leaves _ bad_octal 8 256 (λ code. code ∷ []) (c ∷ (octal_digits 2 s).0)
      (octal_digits 2 s).1 (length-octal_digits 2 s)

ok_here : (t : Text) (c : ℕ) (s : Runes) → Leaves (AtMost (c ∷ s)) (ok t s)
ok_here t c s = returns t s (omega arith)

octal_here : (c : ℕ) (s : Runes) → Leaves (AtMost (c ∷ s)) (octal_escape c s)
octal_here c s = Leaves-weaken (octal_escape-Leaves c s) (λ r h. omega arith)

hex_here :
    (e : Failure) (n limit : ℕ) (encode : ℕ → Text) (c : ℕ) (s : Runes)
    → Leaves (AtMost (c ∷ s)) (hex_escape e n limit encode s)
hex_here e n limit encode c s =
    Leaves-weaken (hex_escape-Leaves e n limit encode s) (λ r h. omega arith)

pub str_escape-Leaves : (quote : ℕ) (s : Runes) → Leaves (AtMost s) (str_escape quote s)
unfolding str_escape
str_escape-Leaves quote [] = panics _ _
str_escape-Leaves quote (c ∷ s) =
    search (Leaves-either, ok_here, octal_here, hex_here, panics) depth 20

pub str_loop-Leaves :
    (fuel quote : ℕ) (str : Text) (s : Runes)
    → length s < fuel
    → Leaves (AtMost s) (str_loop fuel quote str s)
unfolding str_loop
str_loop-Leaves zero quote str s h = absurd (omega arith)
str_loop-Leaves (suc fuel) quote str [] h = panics _ _
str_loop-Leaves (suc fuel) quote str (c ∷ s) h =
    let plain : Leaves (AtMost (c ∷ s)) (str_loop fuel quote (str ++ encode_rune c) s) =
      Leaves-weaken (str_loop-Leaves fuel quote (str ++ encode_rune c) s (omega arith))
        (λ r k. omega arith) in
    Leaves-either (c == quote) (ok_here str c s) (
      Leaves-either (c == 0x5C)
        (Leaves-either (quote == 0x27) plain (
          Leaves-bind (str_escape-Leaves quote s) λ e r k.
            Leaves-weaken (str_loop-Leaves fuel quote (str ++ e) r (omega arith))
              (λ r' k'. omega arith)))
        plain)

-- A string literal takes its opening quote at least.
pub str_lit-Leaves : (s : Runes) → 0 < length s → Leaves (Below s) (str_lit s)
unfolding str_lit
str_lit-Leaves [] h = absurd (omega arith)
str_lit-Leaves (c ∷ s) h =
    Leaves-weaken (str_loop-Leaves _ c [] s (omega arith)) (λ r k. omega arith)

pub quote_ahead : (s : Runes) → is_quote (peek s) ≡ true → 0 < length s
unfolding peek
quote_ahead [] h = cc
quote_ahead (c ∷ s) h = omega arith

pub str_concat-Leaves :
    (fuel : ℕ) (combined : Text) (s : Runes)
    → length s < fuel
    → Leaves (AtMost s) (str_concat fuel combined s)
unfolding str_concat
str_concat-Leaves zero combined s h = absurd (omega arith)
str_concat-Leaves (suc fuel) combined s h =
    Leaves-if (is_quote (peek (skip_whitespace s)))
      (λ q. Leaves-bind (str_lit-Leaves (skip_whitespace s) (quote_ahead _ q)) λ t r k.
        Leaves-weaken
          (str_concat-Leaves fuel (combined ++ t) r (omega (arith, length-skip_whitespace s)))
          (λ r' k'. omega (arith, length-skip_whitespace s)))
      (λ _. returns combined s (omega arith))
