-- ===== src/Oid.antt =====
-- The crate `const-oid`: object identifiers as bytes, as sequences of arcs and as text.
pub mod Data
pub mod Arcs
pub mod Encoder
pub mod Parser
pub mod Identifier
