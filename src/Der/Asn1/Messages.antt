-- ===== src/Der/Asn1/Messages.antt =====
-- Whole messages of the types of der/src/asn1, read off the general laws.
use formats.Common.{
  ℕ, ◌≡◌, refl, ap, ◌∙◌, Bool, List, [], ◌∷◌, ◌++◌, ok, and_then, length, All, IsByte,
}
use formats.Der.Asn1.Boolean.{boolean_value, boolean_value-IsValue, boolean_octet}
use formats.Der.Asn1.Null.{Null, null_value, null_value-IsValue}
use formats.Der.Asn1.OctetString.{octet_string_value, octet_string_value-IsValue}
use formats.Der.Asn1.Uint.{uint_value}
use formats.Der.Asn1.Uint.Laws.{uint_value-IsValue}
use formats.Der.Asn1.Uint.Octets.{IsUint, uint_octets}
use formats.Der.Data.{boolean, null, octet_string, integer, class, number, is_constructed, bits}
use formats.Der.Header.Octets.{header_octets}
use formats.Der.Length.{IsLength}
use formats.Der.Length.Codec.Octets.{length_octets}
use formats.Der.Tag.Octets.{tag_octets}
use formats.Der.Value.{from_der, to_der}
use formats.Der.Value.Laws.{tlv_octets}
use formats.Der.Value.Laws.Messages.{from_der_ok, from_der-to_der}

boolean_header : header_octets boolean 1 ≡ 1 ∷ 1 ∷ []
unfolding tag_octets length_octets class number is_constructed bits
boolean_header = refl

null_header : header_octets null 0 ≡ 5 ∷ 0 ∷ []
unfolding tag_octets length_octets class number is_constructed bits
null_header = refl

-- The only messages of bytes that `bool::from_der` accepts are 01 01 ff, as true, and 01 01 00, as
-- false.
pub boolean_from_der_ok :
    (bs : List ℕ) (a : Bool)
    → All IsByte bs
    → from_der boolean_value bs ≡ ok a
    → bs ≡ 1 ∷ 1 ∷ boolean_octet a ∷ []
boolean_from_der_ok bs a bytes e =
    let (_, same, _) = from_der_ok boolean_value-IsValue bs a bytes e in
    same ∙ ap (λ front. front ++ (boolean_octet a ∷ [])) boolean_header

-- The only message of bytes that `Null::from_der` accepts is 05 00.
pub null_from_der_ok :
    (bs : List ℕ) (a : Null) → All IsByte bs → from_der null_value bs ≡ ok a → bs ≡ 5 ∷ 0 ∷ []
null_from_der_ok bs a bytes e =
    let (_, same, _) = from_der_ok null_value-IsValue bs a bytes e in
    same ∙ ap (λ front. front ++ []) null_header

-- A message of bytes that `OctetStringRef::from_der` accepts is the tag and the length of the bytes
-- that it returns and these bytes, and `to_der` gives it back.
pub octet_string_from_der_ok :
    (bs contents : List ℕ)
    → All IsByte bs
    → from_der octet_string_value bs ≡ ok contents
    → (bs ≡ tlv_octets octet_string contents) × (to_der octet_string_value contents ≡ ok bs)
octet_string_from_der_ok bs contents bytes e =
    let (_, same, back) = from_der_ok octet_string_value-IsValue bs contents bytes e in (same, back)

-- A message of bytes that `UintRef::from_der` accepts holds a number without needless leading
-- zeroes, it is the one encoding of that number, with a zero octet in front of a first byte of 0x80
-- or more, and `to_der` gives it back.
pub from_der-IsUint :
    (bs digits : List ℕ)
    → All IsByte bs
    → from_der uint_value bs ≡ ok digits
    → IsUint digits
      × (bs ≡ tlv_octets integer (uint_octets digits))
      × (to_der uint_value digits ≡ ok bs)
from_der-IsUint = from_der_ok uint_value-IsValue

-- An unsigned number without needless leading zeroes, whose encoding is within u32::MAX, comes back
-- from `to_der` and `from_der`.
pub uint_from_der-to_der :
    (digits : List ℕ)
    → IsUint digits
    → IsLength (length (tlv_octets integer (uint_octets digits)))
    → and_then (to_der uint_value digits) (from_der uint_value) ≡ ok digits
uint_from_der-to_der = from_der-to_der uint_value-IsValue
