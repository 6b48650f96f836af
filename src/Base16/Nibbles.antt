-- ===== src/Base16/Nibbles.antt =====
-- base16ct/src/lower.rs, upper.rs and mixed.rs: one hexadecimal digit, without branches.
use formats.Common.{ℕ, ◌%◌, ◌^◌, bit_and}
use formats.Common.Int16.{add_i16, sub_i16, shift_i16, minus_one}

-- `(((low - byte) & (byte - high)) >> 8) & (byte - base)`
abbrev pub masked : ℕ → ℕ → ℕ → ℕ → ℕ
masked low high base byte =
    bit_and (shift_i16 (bit_and (sub_i16 low byte) (sub_i16 byte high))) (sub_i16 byte base)

unfoldable pub lower_decode_nibble : ℕ → ℕ
lower_decode_nibble byte =
    add_i16 (add_i16 minus_one (masked 0x2f 0x3a 47 byte)) (masked 0x60 0x67 86 byte)

unfoldable pub upper_decode_nibble : ℕ → ℕ
upper_decode_nibble byte =
    add_i16 (add_i16 minus_one (masked 0x2f 0x3a 47 byte)) (masked 0x40 0x47 54 byte)

unfoldable pub mixed_decode_nibble : ℕ → ℕ
mixed_decode_nibble byte =
    add_i16 (add_i16 (add_i16 minus_one (masked 0x2f 0x3a 47 byte)) (masked 0x40 0x47 54 byte))
      (masked 0x60 0x67 86 byte)

-- `ret += ((0x39 - ret) >> 8) & step`, and the truncation to u8.
abbrev pub digit_from : ℕ → ℕ → ℕ
digit_from step ret = add_i16 ret (bit_and (shift_i16 (sub_i16 0x39 ret)) step) % 2 ^ 8

unfoldable pub lower_encode_nibble : ℕ → ℕ
lower_encode_nibble src = digit_from (sub_i16 0x61 0x3a) (add_i16 src 0x30)

unfoldable pub upper_encode_nibble : ℕ → ℕ
upper_encode_nibble src = digit_from (sub_i16 0x41 0x3a) (add_i16 src 0x30)
