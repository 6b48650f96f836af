-- ===== src/Der/Asn1/Fixed.antt =====
-- der/src/asn1/integer/uint.rs: INTEGER for u8 to u128, a number of `size` bytes.
pub mod Padding
pub mod Laws
pub mod Values
use formats.Common.{
  ℕ, ◌+◌, ◌-◌, List, ◌++◌, ok, err, and_then, not, ltb, leb, ◌==◌, if◌then◌else◌, length, replicate,
}
use formats.Common.BigEndian.{be_bytes, be_number}
use formats.Der.Asn1.Uint.{
  decode_to_slice, strip_leading_zeroes, needs_leading_zero, encoded_len, report,
}
use formats.Der.Data.{Length, ErrorKind, DerResult, from_kind, integer, noncanonical}
use formats.Der.Header.{Header}
use formats.Der.Reader
use formats.Der.Reader.{Decoder, ◌>>=◌, read_into}
use formats.Der.Value.{Value}
use formats.Der.Writer
use formats.Der.Writer.{Encoder, write, write_byte}

-- The input behind as many zeroes as the array has room for.
abbrev pub padded : ℕ → List ℕ → DerResult (List ℕ)
padded size input =
    if leb (length input) size
    then ok (replicate (size - length input) 0 ++ input)
    else err (from_kind (ErrorKind.length integer))

unfoldable pub decode_to_array : ℕ → List ℕ → DerResult (List ℕ)
decode_to_array size bytes = and_then (decode_to_slice bytes) (padded size)

-- `value_len`
unfoldable pub fixed_len : ℕ → ℕ → DerResult Length
fixed_len size n = encoded_len (be_bytes size n)

abbrev pub check_same : Header → ℕ → Length → Decoder ℕ
check_same h result n =
    if not (h.length == n) then Reader.error (noncanonical integer) else Reader.return result

abbrev pub from_array : ℕ → Header → List ℕ → Decoder ℕ
from_array size h array =
    Reader.lift (fixed_len size (be_number 0 array)) >>= check_same h (be_number 0 array)

abbrev pub from_bytes : ℕ → Header → List ℕ → Decoder ℕ
from_bytes size h bytes = report (decode_to_array size bytes) >>= from_array size h

unfoldable pub decode_fixed : ℕ → Header → Decoder ℕ
decode_fixed size h =
    if h.length == 0
    then Reader.error (ErrorKind.length integer)
    else if ltb (size + 1) h.length
    then Reader.error (noncanonical integer)
    else (read_into h.length >>= from_bytes size h)

-- `encode_bytes`
unfoldable pub encode_bytes : List ℕ → Encoder (Unit {0})
encode_bytes bytes =
    let stripped = strip_leading_zeroes bytes in
    Writer.◌>>◌ (if needs_leading_zero stripped then write_byte 0 else Writer.return tt)
      (write stripped)

unfoldable pub encode_fixed : ℕ → ℕ → Encoder (Unit {0})
encode_fixed size n = encode_bytes (be_bytes size n)

abbrev pub fixed_value : ℕ → Value ℕ
fixed_value size = record {
  fixed_tag = integer;
  decode_value = decode_fixed size;
  value_len = fixed_len size;
  encode_value = encode_fixed size;
}
