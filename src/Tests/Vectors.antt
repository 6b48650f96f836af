-- ===== src/Tests/Vectors.antt =====
-- Integers of variable length, and vectors behind their length.
use formats.Common.{
  ℕ, ◌^◌, ◌≤◌, ◌<◌, ◌≡◌, ◌↔◌, refl, arith, true, false, List, [], ◌∷◌, ◌++◌, ok, err, length, All,
}
use formats.Common.BigEndian.{be_bytes, be_number}
use formats.Tls.Data.{invalid_vector_length}
use formats.Tls.VarInt
use formats.Tls.VarInt.{max_varint, bytes_len}
use formats.Tls.VarInt.Octets.{varint_octets, serialize-varint_octets}
use formats.Tls.VarInt.Laws.{deserialize-varint_octets, deserialize_ok}
use formats.Tls.Codec.{
  unsigned, deserialize_vl_bytes, vl_bytes, byte_vec, serialize_byte_vec, deserialize_byte_vec, vec,
  vec_loop, deserialize_vec, deserialize_tls_vec, deserialize_unsigned,
}
use formats.Tls.Codec.Primitives.{FitsIn, unsigned_shrinks, unsigned-Lawful, unsigned-Canonical}
use formats.Tls.Codec.Bytes.{IsContentLength, vl_octets, vl_bytes_limits, deserialize_vl_bytes_ok}
use formats.Tls.Codec.ByteVec.{byte_vec_octets, byte_vec_back}
use formats.Tls.Codec.Vector.{elements_octets, IsElement}
use formats.Tls.Codec.Whole.{vec_loop-rounds, vec_back, deserialize_vec_ok, deserialize_tls_vec_ok}

-- The example of RFC 9000 (A.1).
two_bytes : VarInt.serialize 15_293 ≡ ok (0x7b ∷ 0xbd ∷ [])
unfolding VarInt.serialize VarInt.write_bytes VarInt.length_bits VarInt.or_bytes bytes_len
two_bytes = refl

two_bytes_read : VarInt.deserialize true (0x7b ∷ 0xbd ∷ 7 ∷ []) ≡ ok (15_293, 7 ∷ [])
unfolding VarInt.deserialize VarInt.calculate_value VarInt.read_value VarInt.check_min_len
    VarInt.try_new bytes_len
two_bytes_read = refl

-- 37 in two bytes.
not_least : VarInt.deserialize true (0x40 ∷ 0x25 ∷ []) ≡ err invalid_vector_length
unfolding VarInt.deserialize VarInt.calculate_value VarInt.read_value VarInt.check_min_len
    VarInt.try_new bytes_len
not_least = refl

serialize-varint_octets_example :
    (VarInt.serialize 15_293 ≡ ok (varint_octets 15_293))
    × (length (varint_octets 15_293) ≡ bytes_len 15_293)
serialize-varint_octets_example = serialize-varint_octets 15_293 (omega arith)

deserialize-varint_octets_example :
    VarInt.deserialize true (varint_octets 15_293 ++ (7 ∷ [])) ≡ ok (15_293, 7 ∷ [])
deserialize-varint_octets_example = deserialize-varint_octets true 15_293 (7 ∷ []) (omega arith)

deserialize_ok_example :
    (15_293 ≤ max_varint) × (0x7b ∷ 0xbd ∷ 7 ∷ [] ≡ varint_octets 15_293 ++ (7 ∷ []))
deserialize_ok_example =
    deserialize_ok (0x7b ∷ 0xbd ∷ 7 ∷ []) 15_293 (7 ∷ []) (omega arith) two_bytes_read

vl_bytes_limits_example :
    (deserialize_vl_bytes true (vl_octets (5 ∷ 6 ∷ []) ++ (7 ∷ [])) ≡ ok (5 ∷ 6 ∷ [], 7 ∷ []))
    × (((vl_bytes true).tls_serialize_bytes (5 ∷ 6 ∷ []) ≡ ok (vl_octets (5 ∷ 6 ∷ [])))
        ↔ IsContentLength true 2)
vl_bytes_limits_example = vl_bytes_limits true (5 ∷ 6 ∷ []) (7 ∷ []) (omega arith)

vl_read : deserialize_vl_bytes true (2 ∷ 5 ∷ 6 ∷ 7 ∷ []) ≡ ok (5 ∷ 6 ∷ [], 7 ∷ [])
unfolding deserialize_vl_bytes VarInt.deserialize VarInt.calculate_value VarInt.read_value
    VarInt.check_min_len VarInt.try_new bytes_len
vl_read = refl

deserialize_vl_bytes_ok_example :
    (2 ≤ max_varint) × (2 ∷ 5 ∷ 6 ∷ 7 ∷ [] ≡ vl_octets (5 ∷ 6 ∷ []) ++ (7 ∷ []))
deserialize_vl_bytes_ok_example =
    deserialize_vl_bytes_ok (2 ∷ 5 ∷ 6 ∷ 7 ∷ []) (5 ∷ 6 ∷ []) (7 ∷ []) (omega arith) vl_read

byte_vec_back_example :
    (serialize_byte_vec 1 (5 ∷ 6 ∷ []) ≡ ok (byte_vec_octets 1 (5 ∷ 6 ∷ [])))
    × ((byte_vec 1).tls_serialized_len (5 ∷ 6 ∷ []) ≡ length (byte_vec_octets 1 (5 ∷ 6 ∷ [])))
    × (deserialize_byte_vec 1 (byte_vec_octets 1 (5 ∷ 6 ∷ []) ++ (7 ∷ []))
        ≡ ok (5 ∷ 6 ∷ [], 7 ∷ []))
byte_vec_back_example = byte_vec_back 1 (5 ∷ 6 ∷ []) (7 ∷ []) (omega arith) (omega arith)

-- Two u16.
abbrev words : List ℕ
words = 1 ∷ 515 ∷ []

abbrev words_content : List ℕ
words_content = elements_octets (unsigned 2) (FitsIn 2) (be_bytes 2) words

words-IsElement : All (IsElement (unsigned 2) (FitsIn 2) (be_bytes 2)) words
unfolding be_bytes
words-IsElement = omega arith

words_content_is : length words_content ≡ 4
unfolding be_bytes
words_content_is = refl

words_read : deserialize_vec (unsigned 2) true (4 ∷ 0 ∷ 1 ∷ 2 ∷ 3 ∷ 7 ∷ []) ≡ ok (words, 7 ∷ [])
unfolding deserialize_vec vec_loop deserialize_unsigned be_number VarInt.deserialize
    VarInt.calculate_value VarInt.read_value VarInt.check_min_len VarInt.try_new bytes_len
words_read = refl

fixed_words_read :
    deserialize_tls_vec (unsigned 2) 1 (4 ∷ 0 ∷ 1 ∷ 2 ∷ 3 ∷ 7 ∷ []) ≡ ok (words, 7 ∷ [])
unfolding deserialize_tls_vec vec_loop deserialize_unsigned be_number
fixed_words_read = refl

vec_loop-rounds_example :
    vec_loop (unsigned 2) 9 4 0 (0 ∷ 1 ∷ 2 ∷ 3 ∷ []) []
    ≡ vec_loop (unsigned 2) 4 4 0 (0 ∷ 1 ∷ 2 ∷ 3 ∷ []) []
vec_loop-rounds_example =
    vec_loop-rounds (unsigned 2) (unsigned_shrinks 2) 4 9 4 0 (0 ∷ 1 ∷ 2 ∷ 3 ∷ []) [] (omega arith)
      (omega arith)

vec_back_example :
    ((vec (unsigned 2) false).tls_serialize_bytes words
      ≡ ok (varint_octets (length words_content) ++ words_content))
    × ((vec (unsigned 2) false).tls_serialized_len words
        ≡ length (varint_octets (length words_content) ++ words_content))
    × (deserialize_vec
          (unsigned 2)
          false
          ((varint_octets (length words_content) ++ words_content) ++ (7 ∷ []))
        ≡ ok (words, 7 ∷ []))
vec_back_example =
    vec_back (unsigned 2) (FitsIn 2) (be_bytes 2) false words (7 ∷ []) (unsigned-Lawful 2)
      words-IsElement (omega (arith, words_content_is))

deserialize_vec_ok_example :
    All (IsElement (unsigned 2) (FitsIn 2) (be_bytes 2)) words
    × (length words_content ≤ max_varint)
    × (4 ∷ 0 ∷ 1 ∷ 2 ∷ 3 ∷ 7 ∷ []
        ≡ varint_octets (length words_content) ++ (words_content ++ (7 ∷ [])))
deserialize_vec_ok_example =
    deserialize_vec_ok (unsigned 2) (FitsIn 2) (be_bytes 2) (4 ∷ 0 ∷ 1 ∷ 2 ∷ 3 ∷ 7 ∷ []) words
      (7 ∷ []) (unsigned-Canonical 2) (omega arith) words_read

deserialize_tls_vec_ok_example :
    All (IsElement (unsigned 2) (FitsIn 2) (be_bytes 2)) words
    × (length words_content < 256 ^ 1)
    × (4 ∷ 0 ∷ 1 ∷ 2 ∷ 3 ∷ 7 ∷ []
        ≡ be_bytes 1 (length words_content) ++ (words_content ++ (7 ∷ [])))
deserialize_tls_vec_ok_example =
    deserialize_tls_vec_ok (unsigned 2) (FitsIn 2) (be_bytes 2) 1 (4 ∷ 0 ∷ 1 ∷ 2 ∷ 3 ∷ 7 ∷ []) words
      (7 ∷ []) (unsigned-Canonical 2) (omega arith) fixed_words_read
