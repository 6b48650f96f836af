-- ===== src/Tests/Codec.antt =====
-- Tags, lengths and headers, read and written.
use formats.Common.{
  ℕ, ◌+◌, ◌≡◌, refl, arith, true, false, List, [], ◌∷◌, ◌++◌, ok, length, replicate,
}
use formats.Der.Data.{Tag, context_specific_tag, class, number, is_constructed, bits}
use formats.Der.Header
use formats.Der.Header.Octets.{header_octets}
use formats.Der.Header.RoundTrip.{header_decode-Reads}
use formats.Der.Length.{IsLength}
use formats.Der.Length.Codec
use formats.Der.Length.Codec.Canonical.{length_decode_ok}
use formats.Der.Length.Codec.Octets.{length_octets, octet_count}
use formats.Der.Length.Codec.RoundTrip.{length_decode-Reads}
use formats.Der.Reader.{SliceReader}
use formats.Der.Reader.Ready.{Ready, skip}
use formats.Der.Reader.Whole.{start, start-Ready}
use formats.Der.Tag
use formats.Der.Tag.Canonical.{Decoded as TagDecoded, decode_with_constructed_bit_ok}
use formats.Common.Base128.{group_count}
use formats.Der.Tag.Octets.{IsTag, tag_octets}
use formats.Der.Tag.RoundTrip.{decode_with_constructed_bit-Reads}
use formats.Der.Writer.{SliceWriter}
use formats.Der.Writer.Room.{HasRoom}
use formats.Tests.{all_bytes_sound}

-- [300], constructed: two groups of seven bits behind the first octet.
abbrev tag_300 : Tag
tag_300 = context_specific_tag true 300

abbrev tag_300_bytes : List ℕ
tag_300_bytes = 0xbf ∷ 0x82 ∷ 0x2c ∷ []

tag_300_octets : tag_octets tag_300 ≡ tag_300_bytes
unfolding tag_octets class number is_constructed bits group_count
tag_300_octets = refl

IsTag-300 : IsTag tag_300
unfolding number
IsTag-300 = omega arith

tag_300-Ready : Ready (start (tag_300_bytes ++ (7 ∷ []))) (tag_octets tag_300 ++ (7 ∷ []))
tag_300-Ready = rw tag_300_octets (start-Ready (tag_300_bytes ++ (7 ∷ [])) (omega arith))

decode_with_constructed_bit-Reads_example :
    Tag.decode_with_constructed_bit (start (tag_300_bytes ++ (7 ∷ []))) ≡ (
      ok (tag_300, is_constructed tag_300),
      skip (start (tag_300_bytes ++ (7 ∷ []))) (length (tag_octets tag_300)),
    )
decode_with_constructed_bit-Reads_example =
    decode_with_constructed_bit-Reads tag_300 IsTag-300 (start (tag_300_bytes ++ (7 ∷ []))) (7 ∷ [])
      tag_300-Ready

abbrev after_tag : SliceReader
after_tag = skip (start (tag_300_bytes ++ (7 ∷ []))) (length (tag_octets tag_300))

read_tag_300 :
    Tag.decode_with_constructed_bit (start (tag_300_bytes ++ (7 ∷ [])))
    ≡ (ok (tag_300, true), after_tag)
unfolding is_constructed
read_tag_300 =
    decode_with_constructed_bit-Reads tag_300 IsTag-300 (start (tag_300_bytes ++ (7 ∷ []))) (7 ∷ [])
      tag_300-Ready

decode_with_constructed_bit_ok_example :
    TagDecoded (start (tag_300_bytes ++ (7 ∷ []))) tag_300 true after_tag
decode_with_constructed_bit_ok_example =
    decode_with_constructed_bit_ok (start (tag_300_bytes ++ (7 ∷ []))) tag_300 true after_tag
      tag_300-Ready.valid (all_bytes_sound (tag_300_bytes ++ (7 ∷ [])) refl) read_tag_300

abbrev empty_buffer : SliceWriter
empty_buffer = record { bytes = replicate 8 0; failed = false; position = 0 }

tag_300_room : HasRoom empty_buffer (length (tag_octets tag_300))
tag_300_room = rw tag_300_octets (record { live = refl; room = omega arith; small = omega arith })

abbrev length_300_bytes : List ℕ
length_300_bytes = 0x82 ∷ 0x01 ∷ 0x2c ∷ []

length_300_octets : length_octets 300 ≡ length_300_bytes
unfolding length_octets octet_count
length_300_octets = refl

length_300-Ready : Ready (start length_300_bytes) (length_octets 300 ++ [])
length_300-Ready = rw length_300_octets (start-Ready length_300_bytes (omega arith))

abbrev after_length : SliceReader
after_length = skip (start length_300_bytes) (length (length_octets 300))

length_decode-Reads_example : Codec.decode (start length_300_bytes) ≡ (ok 300, after_length)
length_decode-Reads_example =
    length_decode-Reads 300 (omega arith) (start length_300_bytes) [] length_300-Ready

read_length_300 : Codec.decode (start length_300_bytes) ≡ (ok 300, after_length)
read_length_300 = length_decode-Reads 300 (omega arith) (start length_300_bytes) [] length_300-Ready

length_decode_ok_example :
    (rest : List ℕ) × Ready (start length_300_bytes) (length_octets 300 ++ rest)
    × (after_length ≡ skip (start length_300_bytes) (length (length_octets 300)))
length_decode_ok_example =
    length_decode_ok (start length_300_bytes) 300 after_length length_300-Ready.valid
      (all_bytes_sound length_300_bytes refl) read_length_300

length_300_room : HasRoom empty_buffer (length (length_octets 300))
length_300_room =
    rw length_300_octets (record { live = refl; room = omega arith; small = omega arith })

abbrev header_bytes : List ℕ
header_bytes = tag_300_bytes ++ length_300_bytes

header_300_octets : header_octets tag_300 300 ≡ header_bytes
header_300_octets = rw (tag_300_octets, length_300_octets) refl

header-Ready : Ready (start header_bytes) (header_octets tag_300 300 ++ [])
header-Ready = rw header_300_octets (start-Ready header_bytes (omega arith))

abbrev after_header : SliceReader
after_header = skip (start header_bytes) (length (header_octets tag_300 300))

read_header : Header.decode (start header_bytes) ≡ (ok (Header.new tag_300 300), after_header)
read_header =
    header_decode-Reads tag_300 300 IsTag-300 (omega arith) (start header_bytes) [] header-Ready

header_and_300 : IsLength (length (header_octets tag_300 300) + 300)
header_and_300 = rw header_300_octets (omega arith)
