-- ===== src/Base64.antt =====
-- The crate `base64ct`: base64ct/src/alphabet.rs and encoding.rs. A function that writes to a buffer
-- returns what it leaves there.
pub mod Alphabets
pub mod Blocks
pub mod Codec
pub mod Coder
use formats.Common.{
  ℕ, zero, suc, ◌+◌, ◌-◌, ◌*◌, ◌/◌, ◌%◌, ◌^◌, Bool, true, false, Option, none, some, List, [], ◌∷◌,
  ◌++◌, bit_and, bit_or,
}
use formats.Common.Int16.{add_i16, sub_i16, shift_i16, shift_right, shift_left, minus_one}

-- The offsets are of type i16.
pub data DecodeStep : Type 0 where
  range : ℕ → ℕ → ℕ → DecodeStep
  only : ℕ → ℕ → DecodeStep

pub data EncodeStep : Type 0 where
  apply : ℕ → ℕ → EncodeStep
  diff : ℕ → ℕ → EncodeStep

-- What `decode_3bytes` makes of four values, byte by byte, and what `encode_3bytes` makes of three
-- bytes, value by value. One alphabet has its own.
pub record Packing : Type 0 where
  pub byte_0 : ℕ → ℕ → ℕ
  pub byte_1 : ℕ → ℕ → ℕ
  pub byte_2 : ℕ → ℕ → ℕ
  pub bits_0 : ℕ → ℕ
  pub bits_1 : ℕ → ℕ → ℕ
  pub bits_2 : ℕ → ℕ → ℕ
  pub bits_3 : ℕ → ℕ

pub record Alphabet : Type 0 where
  pub base : ℕ
  pub decoder : List DecodeStep
  pub encoder : List EncodeStep
  pub padded : Bool
  pub packing : Packing

abbrev decode_step : ℕ → DecodeStep → ℕ
decode_step src (range low high offset) =
    bit_and (shift_i16 (bit_and (sub_i16 (low - 1) src) (sub_i16 src (high + 1))))
      (add_i16 src offset)
decode_step src (only value offset) =
    bit_and (shift_i16 (bit_and (sub_i16 (value - 1) src) (sub_i16 src (value + 1)))) offset

abbrev decode_steps : ℕ → List DecodeStep → ℕ → ℕ
decode_steps src [] ret = ret
decode_steps src (step ∷ steps) ret = decode_steps src steps (add_i16 ret (decode_step src step))

unfoldable pub decode_6bits : Alphabet → ℕ → ℕ
decode_6bits a src = decode_steps src a.decoder minus_one

abbrev encode_step : ℕ → ℕ → EncodeStep → ℕ
encode_step src ret (apply threshold offset) = bit_and (shift_i16 (sub_i16 threshold ret)) offset
encode_step src ret (diff threshold offset) = bit_and (shift_i16 (sub_i16 threshold src)) offset

abbrev encode_steps : ℕ → List EncodeStep → ℕ → ℕ
encode_steps src [] ret = ret % 2 ^ 8
encode_steps src (step ∷ steps) ret =
    encode_steps src steps (add_i16 ret (encode_step src ret step))

unfoldable pub encode_6bits : Alphabet → ℕ → ℕ
encode_6bits a src = encode_steps src a.encoder (add_i16 src a.base)

-- The default methods.
abbrev pub default_packing : Packing
default_packing = record {
  byte_0 = λ c0 c1. bit_or (shift_left 2 c0) (shift_right 4 c1) % 2 ^ 8;
  byte_1 = λ c1 c2. bit_or (shift_left 4 c1) (shift_right 2 c2) % 2 ^ 8;
  byte_2 = λ c2 c3. bit_or (shift_left 6 c2) c3 % 2 ^ 8;
  bits_0 = λ b0. shift_right 2 b0;
  bits_1 = λ b0 b1. bit_and (bit_or (shift_left 4 b0) (shift_right 4 b1)) 63;
  bits_2 = λ b1 b2. bit_and (bit_or (shift_left 2 b1) (shift_right 6 b2)) 63;
  bits_3 = λ b2. bit_and b2 63;
}

-- The three bytes, and 1 where one of the four characters is not of the alphabet.
unfoldable pub decode_3bytes : Alphabet → ℕ → ℕ → ℕ → ℕ → List ℕ × ℕ
decode_3bytes a s0 s1 s2 s3 =
    let c0 = decode_6bits a s0 in
    let c1 = decode_6bits a s1 in
    let c2 = decode_6bits a s2 in
    let c3 = decode_6bits a s3 in
    let p = a.packing in
    (
      p.byte_0 c0 c1 ∷ p.byte_1 c1 c2 ∷ p.byte_2 c2 c3 ∷ [],
      bit_and (shift_i16 (bit_or (bit_or (bit_or c0 c1) c2) c3)) 1,
    )

unfoldable pub encode_3bytes : Alphabet → ℕ → ℕ → ℕ → List ℕ
encode_3bytes a b0 b1 b2 =
    let p = a.packing in
    encode_6bits a (p.bits_0 b0)
    ∷ encode_6bits a (p.bits_1 b0 b1)
    ∷ encode_6bits a (p.bits_2 b1 b2)
    ∷ encode_6bits a (p.bits_3 b2)
    ∷ []
