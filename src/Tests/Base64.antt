-- ===== src/Tests/Base64.antt =====
-- Base64 texts.
use formats.Common.{ℕ, ◌≡◌, refl, arith, List, [], ◌∷◌, ◌++◌, ok, err, some}
use formats.Base64.{decode_6bits, encode_6bits, decode_3bytes, encode_3bytes}
use formats.Base64.Alphabets.{base64, base64_unpadded, base64_sha_crypt}
use formats.Base64.Coder.Instances.{base64-IsCoder, base64_sha_crypt-IsCoder}
use formats.Base64.Codec.{
  encode_string, decode_vec, encode, decode, encode_loop, encoded_len, decode_loop, decode_padding,
  decoded_len, is_pad_ct, validate_last_block, last_block_start, invalid_encoding,
}
use formats.Base64.Codec.Text.{text}
use formats.Base64.Codec.Encoding.{encode_string-text}
use formats.Base64.Codec.RoundTrip.{decode_vec-encode_string}

-- "hello world"
abbrev hello : List ℕ
hello = 0x68 ∷ 0x65 ∷ 0x6c ∷ 0x6c ∷ 0x6f ∷ 0x20 ∷ 0x77 ∷ 0x6f ∷ 0x72 ∷ 0x6c ∷ 0x64 ∷ []

-- "aGVsbG8gd29ybGQ"
abbrev hello_text : List ℕ
hello_text =
    b'a' ∷ b'G' ∷ b'V' ∷ b's' ∷ b'b' ∷ b'G' ∷ b'8' ∷ b'g' ∷ b'd' ∷ b'2' ∷ b'9' ∷ b'y' ∷ b'b' ∷ b'G'
    ∷ b'Q' ∷ []

hello_encoded : encode_string base64 hello ≡ some (hello_text ++ (b'=' ∷ []))
unfolding encode_string encode encode_loop encoded_len encode_3bytes encode_6bits
hello_encoded = refl

hello_decoded : decode_vec base64 (hello_text ++ (b'=' ∷ [])) ≡ ok hello
unfolding decode_vec decode decode_loop decode_padding decoded_len is_pad_ct validate_last_block
    last_block_start encode encode_loop encoded_len encode_3bytes encode_6bits decode_3bytes
    decode_6bits
hello_decoded = refl

-- A bit behind the last byte.
hello_changed : decode_vec base64_unpadded (b'a' ∷ b'H' ∷ []) ≡ err invalid_encoding
unfolding decode_vec decode decode_loop decode_padding decoded_len is_pad_ct validate_last_block
    last_block_start encode encode_loop encoded_len encode_3bytes encode_6bits decode_3bytes
    decode_6bits
hello_changed = refl

encode_string-text_example :
    encode_string base64_sha_crypt hello ≡ some (text base64_sha_crypt hello)
encode_string-text_example =
    encode_string-text base64_sha_crypt base64_sha_crypt-IsCoder hello (omega arith) (omega arith)

decode_vec-encode_string_example :
    (string : List ℕ) × (encode_string base64 hello ≡ some string)
    × (decode_vec base64 string ≡ ok hello)
decode_vec-encode_string_example =
    decode_vec-encode_string base64 base64-IsCoder hello (omega arith) (omega arith)
