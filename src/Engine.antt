-- ===== src/Engine.antt =====
-- kaitai/expr/engine: the expression engine.
pub mod Value
pub mod Integers
pub mod Compare
pub mod Operators
pub mod Sizes
pub mod BitAlign
pub mod EvalContext
pub mod Builtins
pub mod Context
mod Tests
