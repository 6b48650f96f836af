-- ===== src/Base64/Blocks/Standard.antt =====
-- The default `decode_3bytes` and `encode_3bytes` of base64ct/src/alphabet.rs.
use formats.Common.{ℕ, ◌+◌, ◌*◌, ◌/◌, ◌%◌, ◌^◌, ◌<◌, ◌≡◌, refl, ◌∙◌, arith, IsByte}
use formats.Common.Bits.{bit_and_0x3f}
use formats.Common.Int16.{shift_right_small, join}
use formats.Base64.{default_packing}
use formats.Base64.Blocks.{IsPacking}

bits_0_is : (b0 : ℕ) → IsByte b0 → default_packing.bits_0 b0 ≡ b0 / 4
bits_0_is b0 h = shift_right_small 2 b0 (omega arith)

bits_1_is :
    (b0 b1 : ℕ) → IsByte b0 → IsByte b1 → default_packing.bits_1 b0 b1 ≡ (b0 * 16 + b1 / 16) % 64
bits_1_is b0 b1 h k =
    rw (shift_right_small 4 b1 (omega arith), join 4 b0 (b1 / 2 ^ 4) (omega arith) (omega arith))
      (bit_and_0x3f (b0 * 2 ^ 4 + b1 / 2 ^ 4))

bits_2_is :
    (b1 b2 : ℕ) → IsByte b1 → IsByte b2 → default_packing.bits_2 b1 b2 ≡ (b1 * 4 + b2 / 64) % 64
bits_2_is b1 b2 h k =
    rw (shift_right_small 6 b2 (omega arith), join 2 b1 (b2 / 2 ^ 6) (omega arith) (omega arith))
      (bit_and_0x3f (b1 * 2 ^ 2 + b2 / 2 ^ 6))

byte_0_is :
    (c0 c1 : ℕ) → c0 < 64 → c1 < 64 → default_packing.byte_0 c0 c1 ≡ (c0 * 4 + c1 / 16) % 256
byte_0_is c0 c1 h k =
    rw (shift_right_small 4 c1 (omega arith), join 2 c0 (c1 / 2 ^ 4) (omega arith) (omega arith))
      refl

byte_1_is :
    (c1 c2 : ℕ) → c1 < 64 → c2 < 64 → default_packing.byte_1 c1 c2 ≡ (c1 * 16 + c2 / 4) % 256
byte_1_is c1 c2 h k =
    rw (shift_right_small 2 c2 (omega arith), join 4 c1 (c2 / 2 ^ 2) (omega arith) (omega arith))
      refl

byte_2_is : (c2 c3 : ℕ) → c2 < 64 → c3 < 64 → default_packing.byte_2 c2 c3 ≡ (c2 * 64 + c3) % 256
byte_2_is c2 c3 h k = rw (join 6 c2 c3 (omega arith) (omega arith)) refl

bits_3_is : (b2 : ℕ) → IsByte b2 → default_packing.bits_3 b2 ≡ b2 % 64
bits_3_is b2 h = bit_and_0x3f b2

pub default_packing-IsPacking : IsPacking default_packing
default_packing-IsPacking = record {
  small_0 = λ b0 h. omega (arith, bits_0_is b0 h);
  small_1 = λ b0 b1 h k. omega (arith, bits_1_is b0 b1 h k);
  small_2 = λ b1 b2 h k. omega (arith, bits_2_is b1 b2 h k);
  small_3 = λ b2 h. omega (arith, bits_3_is b2 h);
  back_0 = λ b0 b1 h k.
      rw (bits_0_is b0 h, bits_1_is b0 b1 h k)
        (byte_0_is (b0 / 4) ((b0 * 16 + b1 / 16) % 64) (omega arith) (omega arith) ∙ omega arith);
  back_1 = λ b0 b1 b2 h k l.
      rw (bits_1_is b0 b1 h k, bits_2_is b1 b2 k l)
        (byte_1_is ((b0 * 16 + b1 / 16) % 64) ((b1 * 4 + b2 / 64) % 64) (omega arith) (omega arith)
          ∙ omega arith);
  back_2 = λ b1 b2 h k.
      rw (bits_2_is b1 b2 h k, bits_3_is b2 k)
        (byte_2_is ((b1 * 4 + b2 / 64) % 64) (b2 % 64) (omega arith) (omega arith) ∙ omega arith);
}
