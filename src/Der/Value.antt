-- ===== src/Der/Value.antt =====
-- der/src/decode.rs, der/src/encode.rs and der/src/reader.rs: values with a tag of their own, behind
-- the traits `FixedTag`, `DecodeValue` and `EncodeValue`.
pub mod Laws
use formats.Common.{
  ℕ, zero, suc, ◌+◌, List, [], ◌∷◌, ◌++◌, ok, err, and_then, ◌==◌, not, if◌then◌else◌, length, drop,
  take, replicate,
}
use formats.Der.Data.{Length, Tag, Error, DerResult, incomplete, from_kind}
use formats.Der.Header
use formats.Der.Header.{Header}
use formats.Der.Length.{new_usize}
use formats.Der.Reader
use formats.Der.Reader.{SliceReader, Decoder, ◌>>=◌}
use formats.Der.Writer
use formats.Der.Writer.{Encoder}

-- The operations that a type implements.
pub record Value (A : Type 0) : Type 0 where
  pub fixed_tag : Tag
  pub decode_value : Header → Decoder A
  pub value_len : A → DerResult Length
  pub encode_value : A → Encoder (Unit {0})

-- `from_der` behind the decoding: the reader has to stand at the end of the message.
abbrev finish_decoding : {A : Type 0} → DerResult A × SliceReader → DerResult A
finish_decoding (ok a, r) = and_then (Reader.finish r) (λ _. ok a)
finish_decoding (err e, r) = err e

abbrev finish_partial : {A : Type 0} → DerResult A × SliceReader → DerResult (A × List ℕ)
finish_partial (ok a, r) = and_then (Reader.remaining r) (λ rest. ok (a, rest))
finish_partial (err e, r) = err e

abbrev finish_encoding : DerResult (Unit {0}) × Writer.SliceWriter → DerResult (List ℕ)
finish_encoding (ok _, w) = Writer.finish w
finish_encoding (err e, w) = err e

-- `encode_to_vec` compares the announced length with what was written. Where they are equal, what
-- was written is the whole vector.
abbrev check_len : ℕ → List ℕ → DerResult (List ℕ)
check_len expected_len written =
    if not (expected_len == length written)
    then and_then (new_usize expected_len)
        (λ e. and_then (new_usize (length written)) (λ a. err (from_kind (incomplete e a))))
    else and_then (new_usize (length written)) (λ _. ok written)

module _ {A : Type 0} (v : Value A) where
  -- `read_value`
  abbrev pub read_value : Header → Decoder A
  read_value h = Reader.read_nested h.length (v.decode_value h)

  -- `Decode for T`
  unfoldable pub decode : Decoder A
  decode = do h ← Header.decode; _ ← Reader.lift (Header.assert_eq h.tag v.fixed_tag); read_value h

  -- `Encode for T`
  unfoldable pub encoded_len : A → DerResult Length
  encoded_len a = and_then (v.value_len a) (λ n. Header.for_tlv n v.fixed_tag)

  unfoldable pub encode : A → Encoder (Unit {0})
  encode a =
      Writer.◌>>=◌ (Writer.lift (v.value_len a))
        (λ n. Writer.◌>>◌ (Header.encode (Header.new v.fixed_tag n)) (v.encode_value a))

  -- `from_der`
  unfoldable pub from_der : List ℕ → DerResult A
  from_der bytes = and_then (Reader.new bytes) (λ r. finish_decoding (decode r))

  -- `from_der_partial`
  unfoldable pub from_der_partial : List ℕ → DerResult (A × List ℕ)
  from_der_partial bytes = and_then (Reader.new bytes) (λ r. finish_partial (decode r))

  -- `encode_to_slice`
  unfoldable pub encode_to_slice : A → List ℕ → DerResult (List ℕ)
  encode_to_slice a buf = finish_encoding (encode a (Writer.new buf))

  -- `to_der`, with `encode_to_vec` on the empty vector: the buffer has the announced length.
  unfoldable pub to_der : A → DerResult (List ℕ)
  to_der a =
      and_then (encoded_len a) (λ n. and_then (encode_to_slice a (replicate n 0)) (check_len n))
