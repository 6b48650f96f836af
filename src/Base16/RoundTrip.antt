-- ===== src/Base16/RoundTrip.antt =====
-- Encoding and then decoding in base16ct/src/lower.rs, upper.rs and mixed.rs.
use formats.Common.{
  ℕ, zero, suc, ◌-◌, ◌*◌, ◌/◌, ◌%◌, ◌^◌, ◌<◌, ◌≡◌, refl, ◌∙◌, ap, arith, List, [], ◌∷◌, length,
  drop, take_all, replicate, length-replicate, bit_and, All, IsByte, some, ok, append-nil, leb,
  true,
}
use formats.Common.Bits.{bit_and_0x1}
use formats.Base16.{
  decoded_len, encoded_len, pair_word, decode_loop, decode_inner, decode_vec, encode, encode_string,
}
use formats.Base16.Digits.{
  IsDigits, lower-IsDigits, upper-IsDigits, mixed_lower-IsDigits, mixed_upper-IsDigits,
}
use formats.Base16.Loops.{digits, length-digits, encode_loop-digits, pair_word_digits}
use formats.Base16.Nibbles.{
  lower_decode_nibble, upper_decode_nibble, mixed_decode_nibble, lower_encode_nibble,
  upper_encode_nibble,
}

module _ {d e : ℕ → ℕ} (law : IsDigits d e) where
  pair_word-byte : (b : ℕ) → IsByte b → pair_word d (e (b / 16)) (e (b % 16)) ≡ b
  pair_word-byte b h =
      let hi = law.inverse (b / 16) (omega arith) in
      let lo = law.inverse (b % 16) (omega arith) in
      pair_word_digits d (e (b / 16)) (e (b % 16)) (omega arith) (omega arith) ∙ omega arith

  decode_loop-digits :
      (bs dst : List ℕ)
      → All IsByte bs
      → length dst ≡ length bs
      → decode_loop d (digits e bs) dst 0 ≡ (bs, 0)
  unfolding decode_loop
  decode_loop-digits [] [] all h = refl
  decode_loop-digits [] (x ∷ dst) all h = absurd (omega arith)
  decode_loop-digits (b ∷ bs) [] all h = absurd (omega arith)
  decode_loop-digits (b ∷ bs) (x ∷ dst) all h =
      let small : b / 2 ^ 8 ≡ 0 = omega arith in
      let whole : b % 2 ^ 8 ≡ b = omega arith in
      rw (pair_word-byte b all.0, small, whole, decode_loop-digits bs dst all.1 (omega arith)) refl

decoded_len_even : (bs : List ℕ) (n : ℕ) → length bs ≡ n * 2 → decoded_len bs ≡ ok n
unfolding decoded_len
decoded_len_even bs n h =
    let even : bit_and (length bs) 1 ≡ 0 = bit_and_0x1 (length bs) ∙ omega arith in
    let half : length bs / 2 ≡ n = omega arith in rw (even, half) refl

-- The fresh buffer.
abbrev pub zeroes : ℕ → List ℕ
zeroes n = replicate n 0

pub drop-zeroes : (n : ℕ) → drop n (zeroes n) ≡ []
drop-zeroes zero = refl
drop-zeroes (suc n) = drop-zeroes n

pub leb_self : (n : ℕ) → leb n n ≡ true
leb_self n = ground arith

pub encode_string-digits :
    (e : ℕ → ℕ) (bs : List ℕ)
    → length bs < 2 ^ 62
    → All IsByte bs
    → encode_string e bs ≡ some (digits e bs)
unfolding encode_string encode encoded_len
encode_string-digits e bs few all =
    let n = length bs * 2 in
    let no_wrap : n % 2 ^ 64 ≡ n = omega arith in
    let allocated : leb n (2 ^ 63 - 1) ≡ true = ground arith in
    let size : length (zeroes n) ≡ n = length-replicate n 0 in
    rw
      (
        no_wrap,
        allocated,
        size,
        leb_self n,
        take_all n (zeroes n) (omega (arith, size)),
        encode_loop-digits e bs (zeroes n) all size,
        drop-zeroes n,
      )
      (ap some (append-nil (digits e bs)))

decode_vec-digits :
    {d e : ℕ → ℕ}
    → IsDigits d e
    → (bs : List ℕ) → All IsByte bs
    → decode_vec d (digits e bs) ≡ ok bs
unfolding decode_vec decode_inner
decode_vec-digits {d} {e} law bs all =
    let n = length bs in
    let size : length (zeroes n) ≡ n = length-replicate n 0 in
    rw
      (
        decoded_len_even (digits e bs) n (length-digits e bs),
        size,
        leb_self n,
        take_all n (zeroes n) (omega (arith, size)),
        decode_loop-digits law bs (zeroes n) all size,
        drop-zeroes n,
      )
      (ap ok (append-nil bs))

-- The text in lower case of fewer than 2 ^ 62 bytes, which `encode_string` returns, is decoded to
-- these bytes by the decoders for lower case and for mixed case.
pub decode_vec-lower_string :
    (bs : List ℕ)
    → length bs < 2 ^ 62
    → All IsByte bs
    → (text : List ℕ) × (encode_string lower_encode_nibble bs ≡ some text)
      × (decode_vec lower_decode_nibble text ≡ ok bs)
      × (decode_vec mixed_decode_nibble text ≡ ok bs)
decode_vec-lower_string bs few all = (
  digits lower_encode_nibble bs,
  encode_string-digits lower_encode_nibble bs few all,
  decode_vec-digits lower-IsDigits bs all,
  decode_vec-digits mixed_lower-IsDigits bs all,
)

-- The text in upper case of fewer than 2 ^ 62 bytes, which `encode_string` returns, is decoded to
-- these bytes by the decoders for upper case and for mixed case.
pub decode_vec-upper_string :
    (bs : List ℕ)
    → length bs < 2 ^ 62
    → All IsByte bs
    → (text : List ℕ) × (encode_string upper_encode_nibble bs ≡ some text)
      × (decode_vec upper_decode_nibble text ≡ ok bs)
      × (decode_vec mixed_decode_nibble text ≡ ok bs)
decode_vec-upper_string bs few all = (
  digits upper_encode_nibble bs,
  encode_string-digits upper_encode_nibble bs few all,
  decode_vec-digits upper-IsDigits bs all,
  decode_vec-digits mixed_upper-IsDigits bs all,
)
