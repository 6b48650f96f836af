-- ===== src/Tests/Hex.antt =====
-- Hexadecimal texts.
use formats.Common.{ℕ, ◌≡◌, refl, arith, List, [], ◌∷◌, some, ok, err}
use formats.Base16.{decode_vec, decode_inner, decoded_len, invalid_encoding, invalid_length}
use formats.Base16.Cases.{lower_decode_vec, upper_decode_vec, mixed_decode_vec, lower_encode_string}
use formats.Base16.Nibbles.{lower_decode_nibble, upper_decode_nibble, mixed_decode_nibble}
use formats.Base16.RoundTrip.{decode_vec-lower_string}
use formats.Tests.{all_bytes_sound}

-- "abcd", "ABCD" and their bytes.
abbrev lower_text : List ℕ
lower_text = 0x61 ∷ 0x62 ∷ 0x63 ∷ 0x64 ∷ []

abbrev upper_text : List ℕ
upper_text = 0x41 ∷ 0x42 ∷ 0x43 ∷ 0x44 ∷ []

abbrev two_bytes : List ℕ
two_bytes = 0xab ∷ 0xcd ∷ []

read_lower : lower_decode_vec lower_text ≡ ok two_bytes
unfolding decode_vec decode_inner decoded_len lower_decode_nibble
read_lower = refl

read_upper : upper_decode_vec upper_text ≡ ok two_bytes
unfolding decode_vec decode_inner decoded_len upper_decode_nibble
read_upper = refl

read_mixed : mixed_decode_vec (0x61 ∷ 0x42 ∷ 0x43 ∷ 0x64 ∷ []) ≡ ok two_bytes
unfolding decode_vec decode_inner decoded_len mixed_decode_nibble
read_mixed = refl

read_wrong_case : lower_decode_vec upper_text ≡ err invalid_encoding
unfolding decode_vec decode_inner decoded_len lower_decode_nibble
read_wrong_case = refl

read_odd : mixed_decode_vec (0x61 ∷ []) ≡ err invalid_length
unfolding decode_vec decoded_len
read_odd = refl

decode_vec-lower_string_example :
    (text : List ℕ) × (lower_encode_string two_bytes ≡ some text)
    × (lower_decode_vec text ≡ ok two_bytes)
    × (mixed_decode_vec text ≡ ok two_bytes)
decode_vec-lower_string_example =
    decode_vec-lower_string two_bytes (omega arith) (all_bytes_sound two_bytes refl)

abbrev mixed_text : List ℕ
mixed_text = 0x61 ∷ 0x42 ∷ 0x43 ∷ 0x64 ∷ []
