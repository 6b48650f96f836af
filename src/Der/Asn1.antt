-- ===== src/Der/Asn1.antt =====
-- der/src/asn1: types of the universal class, each the four operations of a `Value` and its
-- laws.
pub mod Boolean
pub mod Null
pub mod OctetString
pub mod Uint
pub mod Fixed
pub mod Messages
