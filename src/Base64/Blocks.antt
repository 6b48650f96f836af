-- ===== src/Base64/Blocks.antt =====
-- Three bytes as four values of six bits, by `decode_3bytes` and `encode_3bytes` of
-- base64ct/src/alphabet.rs and alphabet/shacrypt.rs.
pub mod Standard
pub mod ShaCrypt
use formats.Common.{
  ℕ, zero, suc, ◌+◌, ◌*◌, ◌/◌, ◌%◌, ◌^◌, ◌≤◌, ◌<◌, ◌≡◌, arith, IsByte, List, [], ◌∷◌, bit_and,
  bit_or,
}
use formats.Base64.{Packing, Alphabet, decode_6bits, encode_6bits, decode_3bytes, encode_3bytes}

-- The values are of six bits, and each byte comes back from the two values that hold its bits,
-- whatever the other bits are.
pub record IsPacking (p : Packing) : Type 0 where
  pub small_0 : (b0 : ℕ) → IsByte b0 → p.bits_0 b0 < 64
  pub small_1 : (b0 b1 : ℕ) → IsByte b0 → IsByte b1 → p.bits_1 b0 b1 < 64
  pub small_2 : (b1 b2 : ℕ) → IsByte b1 → IsByte b2 → p.bits_2 b1 b2 < 64
  pub small_3 : (b2 : ℕ) → IsByte b2 → p.bits_3 b2 < 64
  pub back_0 : (b0 b1 : ℕ) → IsByte b0 → IsByte b1 → p.byte_0 (p.bits_0 b0) (p.bits_1 b0 b1) ≡ b0
  pub back_1 :
      (b0 b1 b2 : ℕ)
      → IsByte b0
      → IsByte b1
      → IsByte b2
      → p.byte_1 (p.bits_1 b0 b1) (p.bits_2 b1 b2) ≡ b1
  pub back_2 : (b1 b2 : ℕ) → IsByte b1 → IsByte b2 → p.byte_2 (p.bits_2 b1 b2) (p.bits_3 b2) ≡ b2
