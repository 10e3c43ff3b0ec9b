-- ===== src/Engine/Context.antt =====
-- kaitai/expr/engine/context.go: the graph of symbols and the resolution of names in it, and resolveTypeChain
-- of kaitai/eval/resolve.go. A symbol is its address in a heap; `E` is what expressions are. The built-in
-- methods of values, the lists of StructTypeData, which repeat the tables, and the runtime hook are left out.
pub mod Symbols
pub mod Resolve
pub mod Keeps
pub mod Built
pub mod Paths
pub mod Members
pub mod Descends
mod Tests
