-- ===== src/Base32.antt =====
-- The alphabets of `base32ct`: base32ct/src/alphabet.rs and alphabet/rfc4648.rs.
pub mod Symbols
use formats.Common.{ℕ, zero, suc, ◌+◌, ◌-◌, ◌%◌, ◌^◌, Bool, true, false, List, [], ◌∷◌, bit_and}
use formats.Common.Int16.{add_i16, sub_i16, shift_i16, minus_one}

-- The offsets are of type i16.
pub record DecodeStep : Type 0 where
  pub low : ℕ
  pub high : ℕ
  pub offset : ℕ

pub record EncodeStep : Type 0 where
  pub threshold : ℕ
  pub offset : ℕ

pub record Alphabet : Type 0 where
  pub base : ℕ
  pub decoder : List DecodeStep
  pub encoder : List EncodeStep
  pub padded : Bool

abbrev decode_steps : ℕ → List DecodeStep → ℕ → ℕ
decode_steps src [] ret = ret
decode_steps src (step ∷ steps) ret =
    let outside = bit_and (sub_i16 (step.low - 1) src) (sub_i16 src (step.high + 1)) in
    decode_steps src steps (add_i16 ret (bit_and (shift_i16 outside) (add_i16 src step.offset)))

unfoldable pub decode_5bits : Alphabet → ℕ → ℕ
decode_5bits a byte = decode_steps byte a.decoder minus_one

abbrev encode_steps : ℕ → List EncodeStep → ℕ → ℕ
encode_steps src [] diff = diff % 2 ^ 8
encode_steps src (step ∷ steps) diff =
    encode_steps src steps
      (sub_i16 diff (bit_and (shift_i16 (sub_i16 step.threshold src)) step.offset))

unfoldable pub encode_5bits : Alphabet → ℕ → ℕ
encode_5bits a byte = encode_steps byte a.encoder (add_i16 byte a.base)

abbrev decode_lower : List DecodeStep
decode_lower =
    record { low = b'a'; high = b'z'; offset = 2 ^ 16 - 96 }
    ∷ record { low = b'2'; high = b'7'; offset = 2 ^ 16 - 23 }
    ∷ []

abbrev encode_lower : List EncodeStep
encode_lower = record { threshold = 25; offset = 73 } ∷ []

abbrev pub base32 : Alphabet
base32 = record { base = b'a'; decoder = decode_lower; encoder = encode_lower; padded = true }

abbrev pub base32_unpadded : Alphabet
base32_unpadded = record {
  base = b'a';
  decoder = decode_lower;
  encoder = encode_lower;
  padded = false;
}

abbrev decode_upper : List DecodeStep
decode_upper =
    record { low = b'A'; high = b'Z'; offset = 2 ^ 16 - 64 }
    ∷ record { low = b'2'; high = b'7'; offset = 2 ^ 16 - 23 }
    ∷ []

abbrev encode_upper : List EncodeStep
encode_upper = record { threshold = 25; offset = 41 } ∷ []

abbrev pub base32_upper : Alphabet
base32_upper = record { base = b'A'; decoder = decode_upper; encoder = encode_upper; padded = true }

abbrev pub base32_upper_unpadded : Alphabet
base32_upper_unpadded = record {
  base = b'A';
  decoder = decode_upper;
  encoder = encode_upper;
  padded = false;
}
