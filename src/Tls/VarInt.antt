-- ===== src/Tls/VarInt.antt =====
-- tls_codec/src/varint.rs: integers of variable length, as in RFC 9000 (16). `mls` is the feature of that
-- name, without which longer encodings than needed are taken.
pub mod Octets
pub mod Laws
use formats.Common.{
  ℕ, zero, suc, ◌+◌, ◌-◌, ◌*◌, ◌/◌, ◌%◌, ◌^◌, Bool, true, false, List, [], ◌∷◌, ◌++◌, ok, err,
  bit_and, bit_or, ltb, leb, ◌==◌, if◌then◌else◌, length, take, drop, replicate,
}
use formats.Tls.Data.{
  TlsError, TlsResult, ◌>>=◌, invalid_vector_length, end_of_stream, library_error,
}

-- `TlsVarInt::MAX`
abbrev pub max_varint : ℕ
max_varint = 2 ^ 62 - 1

-- A `TlsVarInt` is its u64.
unfoldable pub try_new : ℕ → TlsResult ℕ
try_new value = if ltb max_varint value then err invalid_vector_length else ok value

unfoldable pub bytes_len : ℕ → ℕ
bytes_len value =
    if leb value 0x3f
    then 1
    else if leb value 0x3fff
    then 2
    else if leb value 0x3fff_ffff
    then 4
    else 8

-- The bits of the length, above those of the value.
unfoldable pub length_bits : ℕ → TlsResult ℕ
length_bits len =
    if len == 1
    then ok 0x00
    else if len == 2
    then ok 0x40
    else if len == 4
    then ok 0x80
    else if len == 8
    then ok 0xc0
    else err library_error

-- `for b in bytes.iter_mut().rev()`, with the value that is left.
unfoldable pub or_bytes : List ℕ → ℕ → List ℕ × ℕ
or_bytes [] value = ([], value)
or_bytes (b ∷ bytes) value =
    let (rest, left) = or_bytes bytes value in (bit_or b (bit_and left 0xff) ∷ rest, left / 2 ^ 8)

-- `bytes[0] = bits`
abbrev set_first : ℕ → List ℕ → List ℕ
set_first bits [] = []
set_first bits (b ∷ bytes) = bits ∷ bytes

-- `write_bytes` with the bits for the length, in a buffer that is long enough.
abbrev pub write_at : ℕ → ℕ → List ℕ → TlsResult ℕ → TlsResult ℕ × List ℕ
write_at value len buf (err e) = (err e, buf)
write_at value len buf (ok bits) =
    (ok len, (or_bytes (set_first bits (take len buf)) value).0 ++ drop len buf)

-- The result and the buffer.
unfoldable pub write_bytes : ℕ → List ℕ → TlsResult ℕ × List ℕ
write_bytes value buf =
    let len = bytes_len value in
    if ltb (length buf) len
    then (err invalid_vector_length, buf)
    else write_at value len buf (length_bits len)

unfoldable pub serialize : ℕ → TlsResult (List ℕ)
serialize value =
    let (written, bytes) = write_bytes value (replicate (bytes_len value) 0) in
    written >>= λ _. ok bytes

unfoldable pub check_min_len : Bool → ℕ → ℕ → TlsResult (Unit {0})
unfolding try_new
check_min_len true value len =
    try_new value >>= λ v. if bytes_len v == len then ok tt else err invalid_vector_length
check_min_len false value len = ok tt

-- `len_log` is a byte shifted by six bits, which is 3 at most.
unfoldable pub calculate_value : ℕ → TlsResult (ℕ × ℕ)
calculate_value byte =
    let value = bit_and byte 0x3f in
    let len_log = byte / 2 ^ 6 in
    if ltb 3 len_log
    then err invalid_vector_length
    else ok (
      value,
      if len_log == 0 then 1 else if len_log == 1 then 2 else if len_log == 2 then 4 else 8,
    )

-- `u8::tls_deserialize_bytes`
abbrev pub next_byte : List ℕ → TlsResult (ℕ × List ℕ)
next_byte [] = err end_of_stream
next_byte (b ∷ remainder) = ok (b, remainder)

-- `for _ in 1..len`, with the rounds left.
unfoldable pub read_value : ℕ → ℕ → List ℕ → TlsResult (ℕ × List ℕ)
read_value zero value remainder = ok (value, remainder)
read_value (suc rounds) value remainder =
    next_byte remainder >>= λ (next, rest). read_value rounds (value * 2 ^ 8 % 2 ^ 64 + next) rest

abbrev pub with_min_len : Bool → ℕ → ℕ × List ℕ → TlsResult (ℕ × List ℕ)
with_min_len mls len (value, remainder) = check_min_len mls value len >>= λ _. ok (value, remainder)

unfoldable pub deserialize : Bool → List ℕ → TlsResult (ℕ × List ℕ)
deserialize mls bytes = next_byte bytes >>= λ (len_byte, remainder).
    calculate_value len_byte >>= λ (value, len).
    read_value (len - 1) value remainder >>= with_min_len mls len
