-- ===== src/Base64/Alphabets/Symbols.antt =====
-- One character in base64ct/src/alphabet.rs, against the lists of characters of RFC 4648 (4, 5) and
-- of the password hashes.
use formats.Common.{ℕ, refl, List, [], ◌∷◌, ◌++◌}
use formats.Common.Symbols.{run, Agrees, Agrees-table}
use formats.Base64.{decode_6bits, encode_6bits}
use formats.Base64.Alphabets.{
  base64, base64_unpadded, base64_url, base64_url_unpadded, base64_pbkdf2, base64_bcrypt,
  base64_crypt, base64_sha_crypt,
}

abbrev pub letters_first : ℕ → ℕ → List ℕ
letters_first c d = run b'A' 26 ++ run b'a' 26 ++ run b'0' 10 ++ (c ∷ d ∷ [])

abbrev pub bcrypt_symbols : List ℕ
bcrypt_symbols = b'.' ∷ b'/' ∷ run b'A' 26 ++ run b'a' 26 ++ run b'0' 10

abbrev pub crypt_symbols : List ℕ
crypt_symbols = b'.' ∷ b'/' ∷ run b'0' 10 ++ run b'A' 26 ++ run b'a' 26

-- Each of the eight alphabets is its list of symbols: the decoder gives every byte its place in the
-- list and 0xffff where it has none, the encoder gives every place its symbol.
pub alphabets-Agrees :
    Agrees (decode_6bits base64) (encode_6bits base64) (letters_first b'+' b'/')
    × Agrees (decode_6bits base64_unpadded) (encode_6bits base64_unpadded) (letters_first b'+' b'/')
    × Agrees (decode_6bits base64_url) (encode_6bits base64_url) (letters_first b'-' b'_')
    × Agrees
        (decode_6bits base64_url_unpadded)
        (encode_6bits base64_url_unpadded)
        (letters_first b'-' b'_')
    × Agrees (decode_6bits base64_pbkdf2) (encode_6bits base64_pbkdf2) (letters_first b'.' b'/')
    × Agrees (decode_6bits base64_bcrypt) (encode_6bits base64_bcrypt) bcrypt_symbols
    × Agrees (decode_6bits base64_crypt) (encode_6bits base64_crypt) crypt_symbols
    × Agrees (decode_6bits base64_sha_crypt) (encode_6bits base64_sha_crypt) crypt_symbols
unfolding decode_6bits encode_6bits
alphabets-Agrees = (
  Agrees-table (decode_6bits base64) (encode_6bits base64) (letters_first b'+' b'/') refl refl,
  Agrees-table (decode_6bits base64_unpadded) (encode_6bits base64_unpadded)
      (letters_first b'+' b'/') refl refl,
  Agrees-table (decode_6bits base64_url) (encode_6bits base64_url) (letters_first b'-' b'_') refl
      refl,
  Agrees-table (decode_6bits base64_url_unpadded) (encode_6bits base64_url_unpadded)
      (letters_first b'-' b'_') refl refl,
  Agrees-table (decode_6bits base64_pbkdf2) (encode_6bits base64_pbkdf2) (letters_first b'.' b'/')
      refl refl,
  Agrees-table (decode_6bits base64_bcrypt) (encode_6bits base64_bcrypt) bcrypt_symbols refl refl,
  Agrees-table (decode_6bits base64_crypt) (encode_6bits base64_crypt) crypt_symbols refl refl,
  Agrees-table (decode_6bits base64_sha_crypt) (encode_6bits base64_sha_crypt) crypt_symbols refl
      refl,
)
