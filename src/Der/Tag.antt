-- ===== src/Der/Tag.antt =====
-- der/src/tag.rs: `Decode for Tag` and `Encode for Tag`, with tag numbers in the short and the long
-- form.
pub mod Log
pub mod Octets
pub mod Tables
pub mod Numbers
pub mod RoundTrip
pub mod LongForm
pub mod Canonical
pub mod Keeping
use formats.Common.{
  ℕ, zero, suc, ◌+◌, ◌-◌, ◌*◌, ◌/◌, ◌%◌, ◌^◌, Bool, true, false, not, ◌&&◌, Option, none, some,
  List, [], ◌∷◌, ok, bit_and, bit_or, ltb, leb, ◌==◌, if◌then◌else◌,
}
use formats.Der.Data.{
  Length, TagNumber, Tag, boolean, integer, bit_string, octet_string, null, object_identifier, real,
  enumerated, utf8_string, relative_oid, sequence, set_tag, numeric_string, printable_string,
  teletex_string, videotex_string, ia5_string, utc_time, generalized_time, visible_string,
  general_string, bmp_string, application_tag, context_specific_tag, private_tag,
  tag_number_invalid, tag_unknown, DerResult, class, number, is_constructed, bits,
}
use formats.Der.Reader
use formats.Der.Reader.{Decoder, ◌>>=◌, read_byte}
use formats.Der.Writer
use formats.Der.Writer.{Encoder, write_byte}

-- `u32::ilog2`, for a number above 0: how often it can be halved. A u32 is halved 31 times at most.
ilog2_rounds : ℕ → ℕ → ℕ
ilog2_rounds zero n = 0
ilog2_rounds (suc rounds) n =
    let more = suc (ilog2_rounds rounds (n / 2)) in if ltb n 2 then 0 else more

unfoldable pub ilog2 : ℕ → ℕ
unfolding ilog2_rounds
ilog2 n = ilog2_rounds 31 n

-- `u32::leading_zeros`
unfoldable pub leading_zeros : ℕ → ℕ
leading_zeros n = if n == 0 then 32 else 31 - ilog2 n

-- The universal tags, by their octet.
unfoldable pub universal_tag : ℕ → Option Tag
universal_tag b =
    if b == 0x01
    then some boolean
    else if b == 0x02
    then some integer
    else if b == 0x03
    then some bit_string
    else if b == 0x04
    then some octet_string
    else if b == 0x05
    then some null
    else if b == 0x06
    then some object_identifier
    else if b == 0x09
    then some real
    else if b == 0x0a
    then some enumerated
    else if b == 0x0c
    then some utf8_string
    else if b == 0x0d
    then some relative_oid
    else if b == 0x12
    then some numeric_string
    else if b == 0x13
    then some printable_string
    else if b == 0x14
    then some teletex_string
    else if b == 0x15
    then some videotex_string
    else if b == 0x16
    then some ia5_string
    else if b == 0x17
    then some utc_time
    else if b == 0x18
    then some generalized_time
    else if b == 0x1a
    then some visible_string
    else if b == 0x1b
    then some general_string
    else if b == 0x1e
    then some bmp_string
    else if b == 0x30
    then some sequence
    else if b == 0x31
    then some set_tag
    else none

-- `first_byte & CONSTRUCTED_FLAG != 0`
abbrev pub has_flag : ℕ → Bool
has_flag b = not (bit_and b 0b100000 == 0)

-- A round of the loop of `parse_parts`, behind its read; `more` is the rest of the loop.
-- `leading_zeros` keeps the shift in u32.
abbrev number_byte : (ℕ → Decoder TagNumber) → ℕ → ℕ → ℕ → Decoder TagNumber
number_byte more i acc byte =
    let n = bit_or acc (bit_and byte 0x7f) in
    if bit_and byte 0x80 == 0
    then (if ltb n 31 then Reader.error tag_number_invalid else Reader.return n)
    else if i == 0 && n == 0
    then Reader.error tag_number_invalid
    else if ltb (leading_zeros n) 7
    then Reader.error tag_number_invalid
    else more (n * 2 ^ 7 % 2 ^ 32)

-- The loop over `i`, with the rounds left.
pub number_loop : ℕ → ℕ → ℕ → Decoder TagNumber
number_loop zero i acc = Reader.error tag_number_invalid
number_loop (suc rounds) i acc = do
  byte ← read_byte
  number_byte (number_loop rounds (i + 1)) i acc byte

-- `parse_parts`
abbrev parse_parts : ℕ → Decoder (Bool × TagNumber)
parse_parts b =
    let first = bit_and b 0x1f in
    if not (first == 31)
    then Reader.return (has_flag b, first)
    else (do n ← number_loop 5 0 0; Reader.return (has_flag b, n))

-- The arms behind the universal tags.
abbrev other_tag : ℕ → Decoder Tag
other_tag b =
    if leb 0x40 b && leb b 0x7f
    then (do p ← parse_parts b; Reader.return (application_tag p.0 p.1))
    else if leb 0x80 b && leb b 0xbf
    then (do p ← parse_parts b; Reader.return (context_specific_tag p.0 p.1))
    else if leb 0xc0 b && leb b 0xff
    then (do p ← parse_parts b; Reader.return (private_tag p.0 p.1))
    else if b == 0x1f
    then Reader.error tag_number_invalid
    else Reader.error (tag_unknown b)

abbrev tag_from : Option Tag → ℕ → Decoder Tag
tag_from (some t) b = Reader.return t
tag_from none b = other_tag b

unfoldable pub decode_with_constructed_bit : Decoder (Tag × Bool)
unfolding universal_tag number_loop
decode_with_constructed_bit = do
  b ← read_byte
  t ← tag_from (universal_tag b) b
  Reader.return (t, has_flag b)

unfoldable pub decode : Decoder Tag
unfolding decode_with_constructed_bit
decode = do p ← decode_with_constructed_bit; Reader.return p.0

unfoldable pub encoded_len : Tag → DerResult Length
encoded_len t = if leb (number t) 30 then ok 1 else ok (ilog2 (number t) / 7 + 2)

-- `for shift in (0..extra_bytes).rev()`
encode_groups : ℕ → TagNumber → Encoder (Unit {0})
encode_groups zero n = Writer.return tt
encode_groups (suc shift) n =
    let byte = bit_and (n / 2 ^ (shift * 7)) 0x7f in
    Writer.◌>>◌ (write_byte (if shift == 0 then byte else bit_or byte 0x80)) (encode_groups shift n)

abbrev class_octet : Tag → ℕ
class_octet t = bit_or (bits (class t)) ((if is_constructed t then 1 else 0) * 2 ^ 5)

unfoldable pub encode : Tag → Encoder (Unit {0})
unfolding encode_groups
encode t =
    if ltb (number t) 31
    then write_byte (bit_or (class_octet t) (bit_and (number t) 0x1f))
    else Writer.◌>>◌ (write_byte (bit_or (class_octet t) 31))
        (encode_groups (ilog2 (number t) / 7 + 1) (number t))
