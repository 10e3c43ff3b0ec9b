-- ===== src/Expr/Ast.antt =====
-- kaitai/expr/expr.go: the syntax tree of expressions.
use zanbato.Base.{Bool, Text}
use zanbato.Base.Int.{ℤ}

pub data UnaryOp : Type 0 where
  invalid logical_not negate invert : UnaryOp

pub data BinaryOp : Type 0 where
  invalid add sub mult div modulo less_than less_than_equal greater_than greater_than_equal equal :
      BinaryOp
  not_equal shift_left shift_right bit_and bit_or bit_xor logical_and logical_or : BinaryOp

-- One constructor for each node struct; `Nodes` is []Node, and `Parts` is []FStringPart, whose
-- element is a literal where its Expr is nil.
mutual
  pub data Node (F : Type 0) : Type 0 where
    ident : Text → Node F
    string : Text → Node F
    fstring : Parts F → Node F
    int : ℤ → Node F
    float : F → Node F
    bool : Bool → Node F
    array : Nodes F → Node F
    call : Node F → Nodes F → Node F
    cast : Node F → Text → Node F
    sizeof : Text → Node F
    bit_sizeof : Text → Node F
    unary : Node F → UnaryOp → Node F
    binary : Node F → Node F → BinaryOp → Node F
    ternary : Node F → Node F → Node F → Node F
    scope : Node F → Text → Node F
    member : Node F → Text → Node F
    subscript : Node F → Node F → Node F

  pub data Nodes (F : Type 0) : Type 0 where
    nil : Nodes F
    cons : Node F → Nodes F → Nodes F

  pub data Parts (F : Type 0) : Type 0 where
    end : Parts F
    literal : Text → Parts F → Parts F
    embedded : Node F → Parts F → Parts F
