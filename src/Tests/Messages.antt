-- ===== src/Tests/Messages.antt =====
-- Whole messages, read and written.
use formats.Common.{
  ◌^◌, ◌<◌, ℕ, ◌≤◌, ◌≡◌, refl, arith, true, List, [], ◌∷◌, ◌++◌, ok, and_then, length,
}
use formats.Der.Asn1.Boolean.{boolean_value, decode_boolean}
use formats.Der.Asn1.OctetString.{octet_string_value, decode_bytes_ref}
use formats.Der.Asn1.Null.{null_value, decode_null, the_null}
use formats.Der.Asn1.Messages.{from_der-IsUint}
use formats.Common.BigEndian.{be_bytes, be_number}
use formats.Der.Asn1.Fixed.{fixed_value, fixed_len, decode_fixed, decode_to_array}
use formats.Der.Asn1.Fixed.Laws.{fixed_octets}
use formats.Der.Asn1.Fixed.Values.{fixed_from_der_ok}
use formats.Der.Asn1.Uint.{
  uint_value, decode_uint, decode_to_slice, strip_leading_zeroes, needs_leading_zero, encoded_len,
  new,
}
use formats.Der.Data.{
  ErrorKind, from_kind, at_position, boolean, octet_string, integer, noncanonical, trailing_data,
  class, number, is_constructed, bits,
}
use formats.Der.Length.{IsLength}
use formats.Der.Length.Codec.Octets.{length_octets}
use formats.Der.Tag.Octets.{IsTag, tag_octets}
use formats.Der.Reader.Keeps.{Keeps}
use formats.Der.Reader.Ready.{Ready}
use formats.Der.Reader.Whole.{start, start-Ready}
use formats.Der.Value.{from_der, to_der, decode}
use formats.Der.Value.Laws.Decoding.{value_decode-Safe}
use formats.Der.Value.Laws.Encoding.{to_der-tlv_octets}
use formats.Der.Asn1.Uint.Laws.{uint_value-IsValue}
use formats.Der.Value.Laws.{tlv_octets}
use formats.Der.Value.Laws.Messages.{from_der_ok, from_der-to_der}
use formats.Der.Asn1.Uint.Octets.{IsUint, uint_octets}
use formats.Tests.{all_bytes_sound}

abbrev the_true : List ℕ
the_true = 0x01 ∷ 0x01 ∷ 0xff ∷ []

read_true : from_der boolean_value the_true ≡ ok true
unfolding from_der decode decode_boolean formats.Der.Reader.new formats.Der.Bytes.new
    formats.Der.Length.new_usize formats.Der.Header.decode
    formats.Der.Tag.decode_with_constructed_bit formats.Der.Reader.read_byte
    formats.Der.Reader.read_slice formats.Der.Position.new formats.Der.Position.advance
    formats.Der.Length.Codec.decode formats.Der.Header.assert_eq formats.Der.Data.Tag-discrete
    formats.Der.Reader.read_nested formats.Der.Bytes.prefix formats.Der.Position.split_nested
    formats.Der.Position.remaining_len formats.Der.Reader.finish formats.Der.Position.resume_nested
read_true = refl

abbrev the_null_message : List ℕ
the_null_message = 0x05 ∷ 0x00 ∷ []

read_null : from_der null_value the_null_message ≡ ok the_null
unfolding from_der decode decode_null formats.Der.Reader.new formats.Der.Bytes.new
    formats.Der.Length.new_usize formats.Der.Header.decode
    formats.Der.Tag.decode_with_constructed_bit formats.Der.Reader.read_byte
    formats.Der.Reader.read_slice formats.Der.Position.new formats.Der.Position.advance
    formats.Der.Length.Codec.decode formats.Der.Header.assert_eq formats.Der.Data.Tag-discrete
    formats.Der.Reader.read_nested formats.Der.Bytes.prefix formats.Der.Position.split_nested
    formats.Der.Position.remaining_len formats.Der.Reader.finish formats.Der.Position.resume_nested
read_null = refl

abbrev two_bytes : List ℕ
two_bytes = 0x04 ∷ 0x02 ∷ 0x07 ∷ 0x09 ∷ []

read_two_bytes : from_der octet_string_value two_bytes ≡ ok (7 ∷ 9 ∷ [])
unfolding from_der decode decode_bytes_ref formats.Der.Reader.new formats.Der.Bytes.new
    formats.Der.Length.new_usize formats.Der.Header.decode
    formats.Der.Tag.decode_with_constructed_bit formats.Der.Reader.read_byte
    formats.Der.Reader.read_slice formats.Der.Position.new formats.Der.Position.advance
    formats.Der.Length.Codec.decode formats.Der.Header.assert_eq formats.Der.Data.Tag-discrete
    formats.Der.Reader.read_nested formats.Der.Bytes.prefix formats.Der.Position.split_nested
    formats.Der.Position.remaining_len formats.Der.Reader.finish formats.Der.Position.resume_nested
read_two_bytes = refl

abbrev the_128 : List ℕ
the_128 = 0x02 ∷ 0x02 ∷ 0x00 ∷ 0x80 ∷ []

read_128 : from_der uint_value the_128 ≡ ok (0x80 ∷ [])
unfolding from_der decode decode_bytes_ref decode_uint decode_to_slice strip_leading_zeroes
    needs_leading_zero encoded_len new formats.Der.Reader.new formats.Der.Bytes.new
    formats.Der.Length.new_usize formats.Der.Length.add formats.Der.Header.decode
    formats.Der.Tag.decode_with_constructed_bit formats.Der.Reader.read_byte
    formats.Der.Reader.read_slice formats.Der.Position.new formats.Der.Position.advance
    formats.Der.Length.Codec.decode formats.Der.Header.assert_eq formats.Der.Data.Tag-discrete
    formats.Der.Reader.read_nested formats.Der.Bytes.prefix formats.Der.Position.split_nested
    formats.Der.Position.remaining_len formats.Der.Reader.finish formats.Der.Position.resume_nested
read_128 = refl

-- The same message as a u32.
read_128_u32 : from_der (fixed_value 4) the_128 ≡ ok 128
unfolding from_der decode decode_fixed decode_to_array decode_to_slice fixed_len
    strip_leading_zeroes needs_leading_zero be_bytes be_number encoded_len formats.Der.Reader.new
    formats.Der.Bytes.new formats.Der.Length.new_usize formats.Der.Length.add
    formats.Der.Header.decode formats.Der.Tag.decode_with_constructed_bit
    formats.Der.Reader.read_byte formats.Der.Reader.read_into formats.Der.Reader.read_slice
    formats.Der.Position.new formats.Der.Position.advance formats.Der.Length.Codec.decode
    formats.Der.Header.assert_eq formats.Der.Data.Tag-discrete formats.Der.Reader.read_nested
    formats.Der.Bytes.prefix formats.Der.Position.split_nested formats.Der.Position.remaining_len
    formats.Der.Reader.finish formats.Der.Position.resume_nested
read_128_u32 = refl

fixed_from_der_ok_example :
    (128 < 256 ^ 4)
    × (the_128 ≡ tlv_octets integer (fixed_octets 4 128))
    × (to_der (fixed_value 4) 128 ≡ ok the_128)
fixed_from_der_ok_example =
    fixed_from_der_ok 4 (omega arith) (omega arith) the_128 128 (all_bytes_sound the_128 refl)
      read_128_u32

IsUint-128 : IsUint (0x80 ∷ [])
unfolding strip_leading_zeroes uint_octets needs_leading_zero
IsUint-128 = record {
  nonempty = omega arith;
  shortest = refl;
  octets = all_bytes_sound (0x80 ∷ []) refl;
  small = omega arith;
}

short_128 : IsLength (length (tlv_octets integer (uint_octets (0x80 ∷ []))))
unfolding uint_octets needs_leading_zero tag_octets length_octets class number is_constructed bits
short_128 = omega arith

room_128 : length (tlv_octets integer (uint_octets (0x80 ∷ []))) ≤ 6
unfolding uint_octets needs_leading_zero tag_octets length_octets class number is_constructed bits
room_128 = omega arith

from_der-IsUint_example :
    IsUint (0x80 ∷ [])
    × (the_128 ≡ tlv_octets integer (uint_octets (0x80 ∷ [])))
    × (to_der uint_value (0x80 ∷ []) ≡ ok the_128)
from_der-IsUint_example =
    from_der-IsUint the_128 (0x80 ∷ []) (all_bytes_sound the_128 refl) read_128

from_der_ok_example :
    IsUint (0x80 ∷ [])
    × (the_128 ≡ tlv_octets integer (uint_octets (0x80 ∷ [])))
    × (to_der uint_value (0x80 ∷ []) ≡ ok the_128)
from_der_ok_example =
    from_der_ok uint_value-IsValue the_128 (0x80 ∷ []) (all_bytes_sound the_128 refl) read_128

from_der-to_der_example :
    and_then (to_der uint_value (0x80 ∷ [])) (from_der uint_value) ≡ ok (0x80 ∷ [])
from_der-to_der_example = from_der-to_der uint_value-IsValue (0x80 ∷ []) IsUint-128 short_128

to_der-tlv_octets_example :
    to_der uint_value (0x80 ∷ []) ≡ ok (tlv_octets integer (uint_octets (0x80 ∷ [])))
to_der-tlv_octets_example = to_der-tlv_octets uint_value-IsValue (0x80 ∷ []) IsUint-128 short_128

value_decode-Safe_example : Keeps (start the_128) (decode uint_value (start the_128)).1
value_decode-Safe_example =
    value_decode-Safe uint_value-IsValue (start the_128) (start-Ready the_128 (omega arith)).valid

two_bytes_octets : tlv_octets octet_string (7 ∷ 9 ∷ []) ≡ two_bytes
unfolding tag_octets length_octets class number is_constructed bits
two_bytes_octets = refl

octet_string-IsTag : IsTag octet_string
unfolding number
octet_string-IsTag = omega arith

two_bytes-IsLength : IsLength (length (tlv_octets octet_string (7 ∷ 9 ∷ [])))
two_bytes-IsLength = rw two_bytes_octets (omega arith)

-- Two bytes in an OCTET STRING, and a byte behind it.
two_bytes-Ready :
    Ready (start (two_bytes ++ (1 ∷ []))) (tlv_octets octet_string (7 ∷ 9 ∷ []) ++ (1 ∷ []))
two_bytes-Ready = rw two_bytes_octets (start-Ready (two_bytes ++ (1 ∷ [])) (omega arith))
