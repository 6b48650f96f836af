-- ===== src/Tls.antt =====
-- The crate `tls_codec`: values as bytes in the presentation language of TLS, through the traits over
-- byte slices, on a target of 64 bits and without debug assertions.
pub mod Data
pub mod VarInt
pub mod Codec
