-- ===== src/Tls/Codec.antt =====
-- tls_codec/src/primitives.rs, quic_vec.rs and tls_vec.rs: the types that implement the traits.
pub mod Lawful
pub mod Primitives
pub mod Options
pub mod Bytes
pub mod ByteVec
pub mod Vector
pub mod Whole
use formats.Common.{
  ℕ, zero, suc, ◌+◌, ◌-◌, ◌*◌, ◌/◌, ◌%◌, ◌^◌, Bool, true, false, Option, none, some, List, [], ◌∷◌,
  ◌++◌, ok, err, ltb, leb, ◌==◌, if◌then◌else◌, length, take, drop, Result,
}
use formats.Common.BigEndian.{be_bytes, be_number}
use formats.Tls.Data.{
  TlsError, TlsResult, Codec, ◌>>=◌, invalid_vector_length, decoding_error, end_of_stream,
  library_error, checked_alloc_len,
}
use formats.Tls.VarInt

-- `impl_unsigned!`: a u8, u16, `U24`, u32 or u64 by the number of its bytes.
unfoldable pub deserialize_unsigned : ℕ → List ℕ → TlsResult (ℕ × List ℕ)
deserialize_unsigned size bytes =
    if ltb (length bytes) size
    then err end_of_stream
    else ok (be_number 0 (take size bytes), drop size bytes)

abbrev pub unsigned : ℕ → Codec ℕ
unsigned size = record {
  tls_serialized_len = λ n. size;
  tls_serialize_bytes = λ n. ok (be_bytes size n);
  tls_deserialize_bytes = deserialize_unsigned size;
}

module _ {A : Type 0} (c : Codec A) where
  -- `impl … for Option<T>`
  unfoldable pub option_len : Option A → ℕ
  option_len (some v) = 1 + c.tls_serialized_len v
  option_len none = 1 + 0

  unfoldable pub serialize_option : Option A → TlsResult (List ℕ)
  serialize_option (some e) = checked_alloc_len (c.tls_serialized_len e) 1 >>= λ _.
      c.tls_serialize_bytes e >>= λ bytes. ok (1 ∷ bytes)
  serialize_option none = ok (0 ∷ [])

  abbrev pub some_element : A × List ℕ → TlsResult (Option A × List ℕ)
  some_element (element, remainder) = ok (some element, remainder)

  abbrev pub option_from : ℕ × List ℕ → TlsResult (Option A × List ℕ)
  option_from (some_or_none, remainder) =
      if some_or_none == 0
      then ok (none, remainder)
      else if some_or_none == 1
      then (c.tls_deserialize_bytes remainder >>= some_element)
      else err decoding_error

  unfoldable pub deserialize_option : List ℕ → TlsResult (Option A × List ℕ)
  deserialize_option bytes = deserialize_unsigned 1 bytes >>= option_from

  abbrev pub option_codec : Codec (Option A)
  option_codec = record {
    tls_serialized_len = option_len;
    tls_serialize_bytes = serialize_option;
    tls_deserialize_bytes = deserialize_option;
  }

-- The largest length in the feature `mls`.
abbrev pub max_mls_len : ℕ
max_mls_len = 2 ^ 30 - 1

-- `ContentLength`, which is its `TlsVarInt`; `mls` is the feature.
unfoldable pub content_length : Bool → ℕ → TlsResult ℕ
content_length true value = if ltb max_mls_len value then err invalid_vector_length else ok value
content_length false value = ok value

unfoldable pub content_length_from_usize : Bool → ℕ → TlsResult ℕ
content_length_from_usize mls value = VarInt.try_new value >>= content_length mls

-- `DeserializeBytes for ContentLength`, which does not go through `new`.
abbrev pub deserialize_content_length : Bool → List ℕ → TlsResult (ℕ × List ℕ)
deserialize_content_length mls bytes = VarInt.deserialize mls bytes

-- Content behind its length: `SerializeBytes for VLBytes`, and the frame of `&[T]`.
unfoldable pub with_length : Bool → ℕ → TlsResult (List ℕ) → TlsResult (List ℕ)
with_length mls len content = content_length_from_usize mls len >>= λ length.
    checked_alloc_len len (VarInt.bytes_len length) >>= λ _.
    VarInt.serialize length >>= λ out. content >>= λ bytes. ok (out ++ bytes)

-- `unwrap_or` gives no length to a content that is too long.
abbrev len_of : TlsResult ℕ → ℕ
len_of (ok length) = VarInt.bytes_len length
len_of (err e) = 0

unfoldable pub len_with_length : Bool → ℕ → ℕ
len_with_length mls len = len + len_of (content_length_from_usize mls len)

-- `VLBytes`, `VLByteVec`
abbrev pub vl_content : ℕ × List ℕ → TlsResult (List ℕ × List ℕ)
vl_content (len, remainder) =
    if len == 0
    then ok ([], remainder)
    else if ltb (length remainder) len
    then err decoding_error
    else ok (take len remainder, drop len remainder)

unfoldable pub deserialize_vl_bytes : Bool → List ℕ → TlsResult (List ℕ × List ℕ)
deserialize_vl_bytes mls bytes = deserialize_content_length mls bytes >>= vl_content

abbrev pub vl_bytes : Bool → Codec (List ℕ)
vl_bytes mls = record {
  tls_serialized_len = λ vec. len_with_length mls (length vec);
  tls_serialize_bytes = λ vec. with_length mls (length vec) (ok vec);
  tls_deserialize_bytes = deserialize_vl_bytes mls;
}

-- `TlsByteVecU8` to `TlsByteVecU32`, by the number of bytes of the length. `get(len_len..end)` and
-- `remainder.get(len..)` are one slice apart.
unfoldable pub serialize_byte_vec : ℕ → List ℕ → TlsResult (List ℕ)
serialize_byte_vec len_len vec =
    if ltb (256 ^ len_len - 1) (length vec)
    then err invalid_vector_length
    else (checked_alloc_len (length vec) len_len >>= λ _. ok (be_bytes len_len (length vec) ++ vec))

abbrev pub byte_vec_content : ℕ → List ℕ → ℕ × List ℕ → TlsResult (List ℕ × List ℕ)
byte_vec_content len_len bytes (len, remainder) =
    if ltb (length bytes) (len + len_len)
    then err end_of_stream
    else if ltb (length remainder) len
    then err end_of_stream
    else ok (take len (drop len_len bytes), drop len remainder)

unfoldable pub deserialize_byte_vec : ℕ → List ℕ → TlsResult (List ℕ × List ℕ)
deserialize_byte_vec len_len bytes =
    deserialize_unsigned len_len bytes >>= byte_vec_content len_len bytes

abbrev pub byte_vec : ℕ → Codec (List ℕ)
byte_vec len_len = record {
  tls_serialized_len = λ vec. length vec + len_len;
  tls_serialize_bytes = serialize_byte_vec len_len;
  tls_deserialize_bytes = deserialize_byte_vec len_len;
}

module _ {A : Type 0} (c : Codec A) where
  -- `try_fold` over the lengths of the elements.
  pub lens : List A → ℕ
  lens [] = 0
  lens (e ∷ elements) = c.tls_serialized_len e + lens elements

  pub serialize_all : List A → TlsResult (List ℕ)
  serialize_all [] = ok []
  serialize_all (e ∷ elements) =
      c.tls_serialize_bytes e >>= λ bytes. serialize_all elements >>= λ out. ok (bytes ++ out)

  -- Behind the loop.
  abbrev pub end_vec : ℕ → ℕ → List ℕ → List A → TlsResult (List A × List ℕ)
  end_vec len read remainder result =
      if read == len then ok (result, remainder) else err decoding_error

  -- A round of the loop, behind the element that it read; `more` is the rest of the loop. A
  -- remainder that is longer than what it was taken from wraps the difference, and then the sum, as
  -- a build without overflow checks does; any other sum is a position among the bytes.
  abbrev pub vec_element :
      (ℕ → List ℕ → List A → TlsResult (List A × List ℕ))
      → ℕ
      → List ℕ
      → List A
      → A × List ℕ
      → TlsResult (List A × List ℕ)
  vec_element more read remainder result (element, next) =
      let before = length remainder in
      let after = length next in
      let shorter = leb after before in
      let consumed = if shorter then before - after else (before + 2 ^ 64 - after) % 2 ^ 64 in
      let read_on = if shorter then read + consumed else (read + consumed) % 2 ^ 64 in
      if consumed == 0 then err decoding_error else more read_on next (result ++ (element ∷ []))

  -- `while read < length`, with rounds for all the bytes that are left: each round but an error
  -- takes one at least, for a type whose remainders are no longer than what they were taken from.
  unfoldable pub vec_loop : ℕ → ℕ → ℕ → List ℕ → List A → TlsResult (List A × List ℕ)
  vec_loop zero len read remainder result = end_vec len read remainder result
  vec_loop (suc rounds) len read remainder result =
      if ltb read len
      then (c.tls_deserialize_bytes remainder
          >>= vec_element (vec_loop rounds len) read remainder result)
      else end_vec len read remainder result

  abbrev pub vec_content : ℕ × List ℕ → TlsResult (List A × List ℕ)
  vec_content (len, remainder) =
      if len == 0 then ok ([], remainder) else vec_loop len len 0 remainder []

  unfoldable pub deserialize_vec : Bool → List ℕ → TlsResult (List A × List ℕ)
  deserialize_vec mls bytes = deserialize_content_length mls bytes >>= vec_content

  -- `Vec<T>`
  abbrev pub vec : Bool → Codec (List A)
  vec mls = record {
    tls_serialized_len = λ elements. len_with_length mls (lens elements);
    tls_serialize_bytes = λ elements. with_length mls (lens elements) (serialize_all elements);
    tls_deserialize_bytes = deserialize_vec mls;
  }

  -- `TlsVecU8` to `TlsVecU32`: `impl_deserialize_bytes!`
  abbrev pub tls_vec_content : ℕ × List ℕ → TlsResult (List A × List ℕ)
  tls_vec_content (len, remainder) = vec_loop len len 0 remainder []

  unfoldable pub deserialize_tls_vec : ℕ → List ℕ → TlsResult (List A × List ℕ)
  deserialize_tls_vec len_len bytes = deserialize_unsigned len_len bytes >>= tls_vec_content
