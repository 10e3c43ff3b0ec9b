-- ===== src/Types.antt =====
-- kaitai/types: the types of attributes.
pub mod Kind
pub mod TypeRef
pub mod Parse
pub mod Attr
mod Tests
