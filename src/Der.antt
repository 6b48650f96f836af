-- ===== src/Der.antt =====
-- The crate `der`: tags, lengths and headers, the reader and the writer over slices, and values.
pub mod Data
pub mod Length
pub mod Tag
pub mod Header
pub mod Value
pub mod Position
pub mod Bytes
pub mod Reader
pub mod Writer
pub mod Asn1
pub mod Fields
