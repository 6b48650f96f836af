-- ===== src/Base64/Codec/RoundTrip.antt =====
-- Encoding and then decoding in base64ct/src/encoding.rs.
use formats.Common.{
  ℕ, ◌^◌, ◌≤◌, ◌<◌, ◌≡◌, refl, ap, arith, Bool, true, false, some, ok, List, ◌++◌, length,
  length-append, length-take, length-replicate, take, drop, take_append, replicate, All, IsByte,
  ltb, leb,
}
use formats.Base64.{Alphabet}
use formats.Base64.Coder.{IsCoder}
use formats.Base64.Codec.{unpadded, decode, decode_vec, decoded_len, encode_string}
use formats.Base64.Codec.Text.{
  padding, symbols, text, length-padding_none, length-symbols_le, decoded_len-symbols,
}
use formats.Base64.Codec.Encoding.{encode_string-text}
use formats.Base64.Codec.Padding.{decode_padding-text}
use formats.Base64.Codec.Decoding.{decode_loop-symbols}
use formats.Base64.Codec.LastBlock.{validate_last_block-text}

decoded_len_le : (n m : ℕ) → n ≤ m → decoded_len n ≤ decoded_len m
unfolding decoded_len
decoded_len_le n m h = omega arith

module _ (a : Alphabet) (law : IsCoder a) where
  unpadded_at :
      (p : Bool) (bs : List ℕ)
      → All IsByte bs
      → unpadded p (symbols a bs ++ padding p bs) ≡ ok (length (symbols a bs), 0)
  unpadded_at true bs all = decode_padding-text a law bs all
  unpadded_at false bs all =
      ap (λ n. ok (n, 0)) {x = length (symbols a bs ++ padding false bs)}
        {y = length (symbols a bs)}
        (omega (arith, length-append (symbols a bs) (padding false bs), length-padding_none bs))

  unpadded-text :
      (bs : List ℕ) → All IsByte bs → unpadded a.padded (text a bs) ≡ ok (length (symbols a bs), 0)
  unfolding text
  unpadded-text bs all = unpadded_at a.padded bs all

  take-text : (bs : List ℕ) → take (length (symbols a bs)) (text a bs) ≡ symbols a bs
  unfolding text
  take-text bs = take_append (symbols a bs) (padding a.padded bs)

  -- Into a buffer that is long enough.
  decode-text :
      (bs dst : List ℕ)
      → All IsByte bs
      → length bs ≤ length dst
      → decode a (text a bs) dst ≡ (ok bs, bs ++ drop (length bs) dst)
  unfolding decode
  decode-text bs dst all room =
      let n = length bs in
      let size : length (take n dst) ≡ n = omega (arith, length-take n dst) in
      let fits : ltb (length dst) n ≡ false = ground arith in
      rw
        (
          unpadded-text bs all,
          take-text bs,
          decoded_len-symbols a bs,
          decode_loop-symbols a law bs (take n dst) all size,
          fits,
          validate_last_block-text a law bs all,
        )
        refl

  -- The text of some bytes is decoded as these bytes.
  decode_vec-text : (bs : List ℕ) → All IsByte bs → decode_vec a (text a bs) ≡ ok bs
  unfolding decode_vec
  decode_vec-text bs all =
      let n = length bs in
      let d = decoded_len (length (text a bs)) in
      let dst = replicate d 0 in
      let room : n ≤ length dst = omega (
        arith,
        decoded_len_le (length (symbols a bs)) (length (text a bs)) (length-symbols_le a bs),
        decoded_len-symbols a bs,
        length-replicate {A = ℕ} d 0,
      ) in
      let fits : leb n (length (bs ++ drop n dst)) ≡ true =
        ground (arith, length-append bs (drop n dst)) in
      rw (decode-text bs dst all room, fits, take_append bs (drop n dst)) refl

  -- In each alphabet with laws, up to a quarter of a usize of bytes are encoded to a text that
  -- `decode_vec` gives back as these bytes.
  pub decode_vec-encode_string :
      (bs : List ℕ)
      → All IsByte bs
      → length bs < 2 ^ 62
      → (string : List ℕ) × (encode_string a bs ≡ some string) × (decode_vec a string ≡ ok bs)
  decode_vec-encode_string bs all small =
      (text a bs, encode_string-text a law bs all small, decode_vec-text bs all)
