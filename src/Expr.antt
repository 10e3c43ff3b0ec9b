-- ===== src/Expr.antt =====
-- kaitai/expr/expr.go: the expression language of .ksy files.
pub mod Ast
pub mod Print
pub mod Outcome
pub mod Lexer
pub mod Number
pub mod Head
pub mod Depth
pub mod Operators
pub mod Parser
