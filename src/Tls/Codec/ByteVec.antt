-- ===== src/Tls/Codec/ByteVec.antt =====
-- tls_codec/src/tls_vec.rs: `TlsByteVecU8` to `TlsByteVecU32`.
use formats.Common.{
  ℕ, ◌+◌, ◌^◌, ◌≤◌, ◌<◌, ◌≡◌, sym, ap, ◌∙◌, arith, List, ◌++◌, append_assoc, ok, err, length,
  length-append, take, take_append, drop, drop_append, All, IsByte,
}
use formats.Common.BigEndian.{be_bytes, length-be_bytes, pow256_pos}
use formats.Tls.Data.{◌>>=◌, >>=-ok, invalid_vector_length}
use formats.Tls.Codec.{
  deserialize_unsigned, serialize_byte_vec, byte_vec_content, deserialize_byte_vec, byte_vec,
}
use formats.Tls.Codec.Lawful.{Canonical}
use formats.Tls.Codec.Primitives.{unsigned-Lawful, unsigned_only}
use formats.Tls.Codec.Options.{checked_alloc_len_ok}
use formats.Tls.Codec.Bytes.{cut_ok}

unfoldable pub byte_vec_octets : ℕ → List ℕ → List ℕ
byte_vec_octets len_len vec = be_bytes len_len (length vec) ++ vec

byte_vec_written :
    (len_len : ℕ) (vec : List ℕ)
    → length vec < 256 ^ len_len
    → length vec + len_len < 2 ^ 63
    → serialize_byte_vec len_len vec ≡ ok (byte_vec_octets len_len vec)
unfolding serialize_byte_vec byte_vec_octets
byte_vec_written len_len vec h small =
    ground (arith, checked_alloc_len_ok (length vec) len_len small)

byte_vec_content_lem :
    (len_len : ℕ) (vec rest : List ℕ)
    → byte_vec_content len_len
        (be_bytes len_len (length vec) ++ (vec ++ rest))
        (length vec, vec ++ rest)
      ≡ ok (vec, rest)
byte_vec_content_lem len_len vec rest =
    let len = be_bytes len_len (length vec) in
    let size : length len ≡ len_len = length-be_bytes len_len (length vec) in
    let behind : drop len_len (len ++ (vec ++ rest)) ≡ vec ++ rest =
      ap (λ k. drop k (len ++ (vec ++ rest))) (sym size) ∙ drop_append len (vec ++ rest) in
    rw (behind, take_append vec rest, drop_append vec rest)
      (ground (arith, length-append len (vec ++ rest), length-append vec rest, size))

byte_vec_reads :
    (len_len : ℕ) (vec rest : List ℕ)
    → length vec < 256 ^ len_len
    → deserialize_byte_vec len_len (byte_vec_octets len_len vec ++ rest) ≡ ok (vec, rest)
unfolding deserialize_byte_vec byte_vec_octets
byte_vec_reads len_len vec rest h =
    let len = be_bytes len_len (length vec) in
    ap (deserialize_byte_vec len_len) (append_assoc len vec rest)
    ∙ ap (λ r. r >>= byte_vec_content len_len (len ++ (vec ++ rest)))
        ((unsigned-Lawful len_len).reads (length vec) (vec ++ rest) h)
    ∙ byte_vec_content_lem len_len vec rest

byte_vec_content_ok :
    (len_len n : ℕ) (bytes tail vec rest : List ℕ)
    → drop len_len bytes ≡ tail
    → byte_vec_content len_len bytes (n, tail) ≡ ok (vec, rest)
    → (length vec ≡ n) × (tail ≡ vec ++ rest)
byte_vec_content_ok len_len n bytes tail vec rest behind e =
    cut_ok n tail vec rest (ground arith) (ap (take n) (sym behind) ∙ ground arith) (ground arith)

byte_vec_only :
    (len_len : ℕ) (bytes vec rest : List ℕ)
    → All IsByte bytes
    → deserialize_byte_vec len_len bytes ≡ ok (vec, rest)
    → (length vec < 256 ^ len_len) × (bytes ≡ byte_vec_octets len_len vec ++ rest)
unfolding deserialize_byte_vec byte_vec_octets
byte_vec_only len_len bytes vec rest all e =
    let ((n, tail), read, content) =
      >>=-ok (deserialize_unsigned len_len bytes) (byte_vec_content len_len bytes) e in
    let (range, is) = unsigned_only len_len bytes n tail all read in
    let behind : drop len_len bytes ≡ tail =
      ap (drop len_len) is
      ∙ ap (λ k. drop k (be_bytes len_len n ++ tail)) (sym (length-be_bytes len_len n))
      ∙ drop_append (be_bytes len_len n) tail in
    let (count, whole) = byte_vec_content_ok len_len n bytes tail vec rest behind content in
    (
      omega arith,
      is ∙ rw (whole, ← count) (sym (append_assoc (be_bytes len_len (length vec)) vec rest)),
    )

-- A byte vector whose length fits is written, behind that length, in as many bytes as announced, and
-- comes back, whatever follows it.
pub byte_vec_back :
    (len_len : ℕ) (vec rest : List ℕ)
    → length vec + len_len < 2 ^ 63
    → length vec < 256 ^ len_len
    → (serialize_byte_vec len_len vec ≡ ok (byte_vec_octets len_len vec))
      × ((byte_vec len_len).tls_serialized_len vec ≡ length (byte_vec_octets len_len vec))
      × (deserialize_byte_vec len_len (byte_vec_octets len_len vec ++ rest) ≡ ok (vec, rest))
unfolding byte_vec_octets
byte_vec_back len_len vec rest small h =
    let len = be_bytes len_len (length vec) in
    (
      byte_vec_written len_len vec h small,
      omega (arith, length-append len vec, length-be_bytes len_len (length vec)),
      byte_vec_reads len_len vec rest h,
    )

pub byte_vec_too_long :
    (len_len : ℕ) (vec : List ℕ)
    → 256 ^ len_len ≤ length vec
    → serialize_byte_vec len_len vec ≡ err invalid_vector_length
unfolding serialize_byte_vec
byte_vec_too_long len_len vec h = ground (arith, pow256_pos len_len)

pub byte_vec-Canonical :
    (len_len : ℕ)
    → Canonical (byte_vec len_len) (λ vec. length vec < 256 ^ len_len) (byte_vec_octets len_len)
byte_vec-Canonical len_len = record { only = byte_vec_only len_len }
