-- ===== src/Expr/Head.antt =====
-- kaitai/expr/expr.go, the first switch of `expr`: what a primary expression begins with. A leaf is
-- read whole; of the others the beginning is read, and `Expr.Parser` reads the parts.
pub mod Lengths
use zanbato.Base.{
  ℕ, ◌+◌, Bool, true, false, not, ◌&&◌, ◌||◌, [], ◌∷◌, ◌++◌, Text, codes, text_eq, ◌==◌,
  if◌then◌else◌, drop, length,
}
use zanbato.Base.Platform.{Unicode, BigFloat}
use zanbato.Expr.Ast.{Node, ident, string, bool, sizeof, bit_sizeof}
use zanbato.Expr.Outcome.{
  Runes, Outcome, Parser, Failure, ok, panic, bind, ◌>>=◌, ◌>>◌, pure, expected_greater,
  expected_primary,
}
use zanbato.Expr.Lexer.{
  is_digit, is_number, is_ident_start, is_ident, peek, peek2, skip_whitespace, token, str_lit,
  str_concat, is_quote,
}
use zanbato.Expr.Number.{number}

pub data Head (F : Type 0) : Type 0 where
  leaf : Node F → Head F
  fstring : ℕ → Head F
  logical_not paren array negate plus invert : Head F

-- if p.next() != c { panic(…) }
unfoldable pub expect : ℕ → Failure → Parser (Unit {0})
expect c e s = if peek s == c then ok tt (drop 1 s) else panic e (drop 1 s)

-- The type name of sizeof<…> and .as<…>, behind the opening bracket.
unfoldable pub type_name : Parser Text
type_name s =
    let (t, rest) = token (λ c. not (c == b'>') && not (c == 0)) s in
    bind (expect b'>' expected_greater rest) λ _. ok t

module _ (u : Unicode) (fl : BigFloat) where
  -- sizeof or bitsizeof: a keyword only before a bracket.
  unfoldable pub size_head : Text → (Text → Node fl.Float) → Parser (Head fl.Float)
  size_head tok make s =
      if peek s == b'<'
      then bind (type_name (drop 1 s)) (λ t. ok (leaf (make t)))
      else ok (leaf (ident tok)) s

  unfoldable pub word_head : Text → Parser (Head fl.Float)
  word_head tok s =
      if text_eq tok (codes "f") && is_quote (peek s)
      then ok (fstring (peek s)) (drop 1 s)
      else if text_eq tok (codes "not")
      then ok logical_not s
      else if text_eq tok (codes "true")
      then ok (leaf (bool true)) s
      else if text_eq tok (codes "false")
      then ok (leaf (bool false)) s
      else if text_eq tok (codes "sizeof")
      then size_head tok sizeof s
      else if text_eq tok (codes "bitsizeof")
      then size_head tok bit_sizeof s
      else ok (leaf (ident tok)) s

  -- A string literal with those that follow it.
  unfoldable pub strings : Parser (Head fl.Float)
  strings s =
      bind (str_lit s)
        λ first rest. bind (str_concat (length rest + 1) first rest) λ t. ok (leaf (string t))

  -- An opening bracket or a unary operator.
  unfoldable pub sign_head : Parser (Head fl.Float)
  sign_head s =
      if peek s == b'('
      then ok paren (drop 1 s)
      else if peek s == b'['
      then ok array (drop 1 s)
      else if peek s == b'-'
      then ok negate (drop 1 s)
      else if peek s == b'+'
      then ok plus (drop 1 s)
      else if peek s == b'~'
      then ok invert (drop 1 s)
      else panic expected_primary s

  -- Behind the white space.
  unfoldable pub head : Parser (Head fl.Float)
  head s =
      let (tok, rest) = token (is_ident u) s in
      if is_ident_start u (peek s)
      then word_head tok rest
      else if is_number u (peek s) || peek s == b'.' && is_digit u (peek2 s)
      then bind (number u fl s) (λ n. ok (leaf n))
      else if is_quote (peek s)
      then strings s
      else sign_head s
