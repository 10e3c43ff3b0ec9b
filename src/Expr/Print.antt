-- ===== src/Expr/Print.antt =====
-- kaitai/expr/expr.go: the String methods of the nodes.
use zanbato.Base.{true, false, [], ◌∷◌, ◌++◌, Text, codes}
use zanbato.Base.Digits.{int_text}
use zanbato.Base.Platform.{BigFloat}
use zanbato.Expr.Ast.{
  UnaryOp, BinaryOp, Node, Nodes, Parts, ident, string, fstring, int, float, bool, array, call,
  cast, sizeof, bit_sizeof, unary, binary, ternary, scope, member, subscript, nil, cons, end,
  literal, embedded,
}

unfoldable pub unary_prefix : UnaryOp → Text
unary_prefix UnaryOp.logical_not = codes "not "
unary_prefix UnaryOp.negate = codes "-"
unary_prefix UnaryOp.invert = codes "~"
unary_prefix UnaryOp.invalid = codes "InvalidUnaryOp "

unfoldable pub binary_infix : BinaryOp → Text
binary_infix BinaryOp.add = codes "+"
binary_infix BinaryOp.sub = codes "-"
binary_infix BinaryOp.mult = codes "*"
binary_infix BinaryOp.div = codes "/"
binary_infix BinaryOp.modulo = codes "%"
binary_infix BinaryOp.less_than = codes "<"
binary_infix BinaryOp.less_than_equal = codes "<="
binary_infix BinaryOp.greater_than = codes ">"
binary_infix BinaryOp.greater_than_equal = codes ">="
binary_infix BinaryOp.equal = codes "=="
binary_infix BinaryOp.not_equal = codes "!="
binary_infix BinaryOp.shift_left = codes "<<"
binary_infix BinaryOp.shift_right = codes ">>"
binary_infix BinaryOp.bit_and = codes "&"
binary_infix BinaryOp.bit_or = codes "|"
binary_infix BinaryOp.bit_xor = codes "^"
binary_infix BinaryOp.logical_and = codes "and"
binary_infix BinaryOp.logical_or = codes "or"
binary_infix BinaryOp.invalid = codes "!InvalidBinaryOp"

abbrev pub paren : Text → Text
paren s = b'(' ∷ s ++ b')' ∷ []

-- The verb %q is the parameter `quote`, a float's text that of big.Float.
module _ (quote : Text → Text) (fl : BigFloat) where
  unfoldable mutual
    unfolding int_text unary_prefix binary_infix

    pub to_string : Node fl.Float → Text
    to_string (ident s) = s
    to_string (string s) = quote s
    to_string (fstring ps) = codes "f\"" ++ parts_string ps ++ codes "\""
    to_string (int i) = int_text 10 i
    to_string (float x) = fl.text x
    to_string (bool true) = codes "true"
    to_string (bool false) = codes "false"
    to_string (array xs) = b'[' ∷ items_string xs ++ b']' ∷ []
    to_string (call f xs) = to_string f ++ b'(' ∷ items_string xs ++ b')' ∷ []
    to_string (cast a t) = to_string a ++ codes ".as<" ++ t ++ codes ">"
    to_string (sizeof t) = codes "sizeof<" ++ t ++ codes ">"
    to_string (bit_sizeof t) = codes "bitsizeof<" ++ t ++ codes ">"
    to_string (unary a op) = unary_prefix op ++ paren (to_string a)
    to_string (binary a b op) =
        paren (to_string a) ++ b' ' ∷ binary_infix op ++ b' ' ∷ paren (to_string b)
    to_string (ternary a b c) =
        paren (to_string a)
        ++ codes " ? "
        ++ paren (to_string b)
        ++ codes " : "
        ++ paren (to_string c)
    to_string (scope a t) = to_string a ++ codes "::" ++ t
    to_string (member a p) = to_string a ++ b'.' ∷ p
    to_string (subscript a b) = to_string a ++ b'[' ∷ to_string b ++ b']' ∷ []

    pub items_string : Nodes fl.Float → Text
    items_string nil = []
    items_string (cons x xs) = to_string x ++ more_items xs

    -- The items after the first, each behind a comma.
    pub more_items : Nodes fl.Float → Text
    more_items nil = []
    more_items (cons x xs) = codes ", " ++ to_string x ++ more_items xs

    pub parts_string : Parts fl.Float → Text
    parts_string end = []
    parts_string (literal s ps) = s ++ parts_string ps
    parts_string (embedded a ps) = b'{' ∷ to_string a ++ b'}' ∷ parts_string ps
