-- ===== src/Eval.antt =====
-- kaitai/eval: the evaluation of schemas over a stream.
pub mod Process
pub mod Path
pub mod Strip
pub mod Encoding
pub mod Value
pub mod Nodes
pub mod Switch
pub mod Repeat
pub mod Read
