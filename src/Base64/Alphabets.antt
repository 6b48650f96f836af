-- ===== src/Base64/Alphabets.antt =====
-- The alphabets of base64ct/src/alphabet: standard.rs, url.rs, pbkdf2.rs, bcrypt.rs, crypt.rs and
-- shacrypt.rs.
pub mod Symbols
use formats.Common.{ℕ, ◌+◌, ◌-◌, ◌*◌, ◌/◌, ◌%◌, ◌^◌, true, false, List, [], ◌∷◌, bit_and, bit_or}
use formats.Common.Int16.{shift_right, shift_left}
use formats.Base64.{
  DecodeStep, range, only, EncodeStep, apply, diff, Packing, Alphabet, default_packing,
}

-- A negative i16.
abbrev minus : ℕ → ℕ
minus n = 2 ^ 16 - n

-- The steps for letters and figures, which the modules of the standard kind repeat.
abbrev letters : List DecodeStep → List DecodeStep
letters others =
    range b'A' b'Z' (minus 64) ∷ range b'a' b'z' (minus 70) ∷ range b'0' b'9' 5 ∷ others

abbrev pub base64 : Alphabet
base64 = record {
  base = b'A';
  decoder = letters (only b'+' 63 ∷ only b'/' 64 ∷ []);
  encoder =
      diff 25 6
      ∷ diff 51 (minus 75)
      ∷ diff 61 (minus (b'+' - 0x1c))
      ∷ diff 62 (b'/' - b'+' - 1)
      ∷ [];
  padded = true;
  packing = default_packing;
}

abbrev pub base64_unpadded : Alphabet
base64_unpadded = record base64 { padded = false }

abbrev pub base64_url : Alphabet
base64_url = record {
  base = b'A';
  decoder = letters (only b'-' 63 ∷ only b'_' 64 ∷ []);
  encoder =
      diff 25 6
      ∷ diff 51 (minus 75)
      ∷ diff 61 (minus (b'-' - 0x20))
      ∷ diff 62 (b'_' - b'-' - 1)
      ∷ [];
  padded = true;
  packing = default_packing;
}

abbrev pub base64_url_unpadded : Alphabet
base64_url_unpadded = record base64_url { padded = false }

abbrev pub base64_pbkdf2 : Alphabet
base64_pbkdf2 = record {
  base = b'A';
  decoder = letters (only b'.' 63 ∷ only b'/' 64 ∷ []);
  encoder =
      diff 25 6
      ∷ diff 51 (minus 75)
      ∷ diff 61 (minus (b'.' - 0x22))
      ∷ diff 62 (b'/' - b'.' - 1)
      ∷ [];
  padded = false;
  packing = default_packing;
}

abbrev pub base64_bcrypt : Alphabet
base64_bcrypt = record {
  base = b'.';
  decoder =
      range b'.' b'/' (minus 45)
      ∷ range b'A' b'Z' (minus 62)
      ∷ range b'a' b'z' (minus 68)
      ∷ range b'0' b'9' 7
      ∷ [];
  encoder = apply b'/' 17 ∷ apply b'Z' 6 ∷ apply b'z' (minus 75) ∷ [];
  padded = false;
  packing = default_packing;
}

abbrev pub base64_crypt : Alphabet
base64_crypt = record {
  base = b'.';
  decoder =
      range b'.' b'9' (minus 45) ∷ range b'A' b'Z' (minus 52) ∷ range b'a' b'z' (minus 58) ∷ [];
  encoder = apply b'9' 7 ∷ apply b'Z' 6 ∷ [];
  padded = false;
  packing = default_packing;
}

-- The methods of `Base64ShaCrypt`, which begin with the low bits.
abbrev pub sha_crypt_packing : Packing
sha_crypt_packing = record {
  byte_0 = λ c0 c1. bit_or c0 (shift_left 6 (bit_and c1 0x3)) % 2 ^ 8;
  byte_1 = λ c1 c2. bit_or (shift_right 2 c1) (shift_left 4 (bit_and c2 0xf)) % 2 ^ 8;
  byte_2 = λ c2 c3. bit_or (shift_right 4 c2) (shift_left 2 c3) % 2 ^ 8;
  bits_0 = λ b0. bit_and b0 63;
  bits_1 = λ b0 b1. bit_and (bit_or (shift_left 2 b1) (shift_right 6 b0)) 63;
  bits_2 = λ b1 b2. bit_and (bit_or (shift_left 4 b2) (shift_right 4 b1)) 63;
  bits_3 = λ b2. shift_right 2 b2;
}

abbrev pub base64_sha_crypt : Alphabet
base64_sha_crypt = record base64_crypt { packing = sha_crypt_packing }
