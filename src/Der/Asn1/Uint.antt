-- ===== src/Der/Asn1/Uint.antt =====
-- der/src/asn1/integer/uint.rs: INTEGER for unsigned numbers of any size, big-endian bytes.
pub mod Octets
pub mod Laws
use formats.Common.{
  ℕ, zero, suc, ◌+◌, Bool, true, false, not, List, [], ◌∷◌, ok, err, and_then, ltb, leb, ◌==◌,
  if◌then◌else◌, length,
}
use formats.Der.Asn1.OctetString.{decode_bytes_ref}
use formats.Der.Bytes
use formats.Der.Data.{Length, ErrorKind, DerResult, from_kind, integer, noncanonical, value}
use formats.Der.Header.{Header}
use formats.Der.Length.{new_usize, add}
use formats.Der.Reader
use formats.Der.Reader.{Decoder, ◌>>=◌}
use formats.Der.Value.{Value}
use formats.Der.Writer
use formats.Der.Writer.{Encoder, write, write_byte}

unfoldable pub decode_to_slice : List ℕ → DerResult (List ℕ)
decode_to_slice [] = err (from_kind (noncanonical integer))
decode_to_slice (zero ∷ []) = ok (0 ∷ [])
decode_to_slice (zero ∷ byte ∷ rest) =
    if ltb byte 0x80 then err (from_kind (noncanonical integer)) else ok (byte ∷ rest)
decode_to_slice (suc b ∷ rest) =
    if leb 0x80 (suc b) then err (from_kind (value integer)) else ok (suc b ∷ rest)

unfoldable pub strip_leading_zeroes : List ℕ → List ℕ
strip_leading_zeroes [] = []
strip_leading_zeroes (byte ∷ []) = byte ∷ []
strip_leading_zeroes (byte ∷ next ∷ rest) =
    let stripped = strip_leading_zeroes (next ∷ rest) in
    if byte == 0 then stripped else byte ∷ next ∷ rest

unfoldable pub needs_leading_zero : List ℕ → Bool
needs_leading_zero [] = false
needs_leading_zero (byte ∷ _) = leb 0x80 byte

unfoldable pub encoded_len : List ℕ → DerResult Length
encoded_len bytes =
    let stripped = strip_leading_zeroes bytes in
    and_then (new_usize (length stripped))
      (λ n. add n (if needs_leading_zero stripped then 1 else 0))

-- `UintRef::new`
abbrev length_error : DerResult (List ℕ) → DerResult (List ℕ)
length_error (ok bytes) = ok bytes
length_error (err _) = err (from_kind (ErrorKind.length integer))

unfoldable pub new : List ℕ → DerResult (List ℕ)
new bytes = length_error (Bytes.new (strip_leading_zeroes bytes))

-- `res.map_err(|err| reader.error(err.kind()))?`
abbrev pub report {ℓ} : {A : Type ℓ} → DerResult A → Decoder A
report (ok a) = Reader.return a
report (err e) = Reader.error e.kind

-- `decode_value` of `UintRef`
abbrev check_canonical : Header → List ℕ → Length → Decoder (List ℕ)
check_canonical h result n =
    if not (n == h.length) then Reader.error (noncanonical integer) else Reader.return result

abbrev from_contents : Header → List ℕ → Decoder (List ℕ)
from_contents h bytes = do
  slice ← report (decode_to_slice bytes)
  result ← Reader.lift (new slice)
  n ← Reader.lift (encoded_len result)
  check_canonical h result n

unfoldable pub decode_uint : Header → Decoder (List ℕ)
decode_uint h = decode_bytes_ref h >>= from_contents h

-- `encode_value` of `UintRef`
unfoldable pub encode_uint : List ℕ → Encoder (Unit {0})
encode_uint bytes = Writer.◌>>=◌ (Writer.lift (encoded_len bytes)) (λ n.
    Writer.◌>>◌ (if ltb (Bytes.slice_len bytes) n then write_byte 0 else Writer.return tt)
      (write bytes))

abbrev pub uint_value : Value (List ℕ)
uint_value = record {
  fixed_tag = integer;
  decode_value = decode_uint;
  value_len = encoded_len;
  encode_value = encode_uint;
}
