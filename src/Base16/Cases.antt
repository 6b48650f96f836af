-- ===== src/Base16/Cases.antt =====
-- base16ct/src/lower.rs, upper.rs, mixed.rs and display.rs: the functions by the case of their digits.
use formats.Common.{
  ℕ, ◌^◌, ◌<◌, ◌≡◌, length, refl, sym, ◌∙◌, List, [], ◌∷◌, Option, some, Result, ok, All, IsByte,
}
use formats.Base16.{
  HexError, decode_inner, decode_vec, encode_loop, encode, encoded_len, encode_string, hex_display,
}
use formats.Base16.Loops.{digits, low_half}
use formats.Base16.Nibbles.{
  lower_decode_nibble, upper_decode_nibble, mixed_decode_nibble, lower_encode_nibble,
  upper_encode_nibble,
}
use formats.Base16.RoundTrip.{encode_string-digits}

abbrev pub lower_decode : List ℕ → List ℕ → Result (List ℕ) HexError × List ℕ
lower_decode = decode_inner lower_decode_nibble

abbrev pub upper_decode : List ℕ → List ℕ → Result (List ℕ) HexError × List ℕ
upper_decode = decode_inner upper_decode_nibble

abbrev pub mixed_decode : List ℕ → List ℕ → Result (List ℕ) HexError × List ℕ
mixed_decode = decode_inner mixed_decode_nibble

abbrev pub lower_decode_vec : List ℕ → Result (List ℕ) HexError
lower_decode_vec = decode_vec lower_decode_nibble

abbrev pub upper_decode_vec : List ℕ → Result (List ℕ) HexError
upper_decode_vec = decode_vec upper_decode_nibble

abbrev pub mixed_decode_vec : List ℕ → Result (List ℕ) HexError
mixed_decode_vec = decode_vec mixed_decode_nibble

abbrev pub lower_encode : List ℕ → List ℕ → Result (List ℕ) HexError × List ℕ
lower_encode = encode lower_encode_nibble

abbrev pub upper_encode : List ℕ → List ℕ → Result (List ℕ) HexError × List ℕ
upper_encode = encode upper_encode_nibble

abbrev pub lower_encode_string : List ℕ → Option (List ℕ)
lower_encode_string = encode_string lower_encode_nibble

abbrev pub upper_encode_string : List ℕ → Option (List ℕ)
upper_encode_string = encode_string upper_encode_nibble

-- `fmt::LowerHex` and `fmt::UpperHex` for `HexDisplay`
abbrev pub lower_hex : List ℕ → Option (List ℕ)
lower_hex = hex_display lower_encode_nibble

abbrev pub upper_hex : List ℕ → Option (List ℕ)
upper_hex = hex_display upper_encode_nibble

one_byte :
    (e : ℕ → ℕ) (b : ℕ)
    → IsByte b
    → encode e (b ∷ []) (0 ∷ 0 ∷ []) ≡ (ok (digits e (b ∷ [])), digits e (b ∷ []))
unfolding encode encode_loop encoded_len
one_byte e b h = rw (low_half b h) refl

hex_display-digits :
    (e : ℕ → ℕ) (bs : List ℕ) → All IsByte bs → hex_display e bs ≡ some (digits e bs)
unfolding hex_display
hex_display-digits e [] all = refl
hex_display-digits e (b ∷ bs) all = rw (one_byte e b all.0, hex_display-digits e bs all.1) refl

-- The formatter writes the text that `encode_string` returns, for fewer than 2 ^ 62 bytes and in either
-- case.
pub hex_display-encode_string :
    (bs : List ℕ)
    → length bs < 2 ^ 62
    → All IsByte bs
    → (lower_hex bs ≡ lower_encode_string bs) × (upper_hex bs ≡ upper_encode_string bs)
hex_display-encode_string bs few all = (
  hex_display-digits lower_encode_nibble bs all
      ∙ sym (encode_string-digits lower_encode_nibble bs few all),
  hex_display-digits upper_encode_nibble bs all
      ∙ sym (encode_string-digits upper_encode_nibble bs few all),
)
