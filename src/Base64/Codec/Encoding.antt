-- ===== src/Base64/Codec/Encoding.antt =====
-- `encode` and `encode_string` of base64ct/src/encoding.rs give the text of the bytes.
use formats.Common.{
  ℕ, suc, ◌^◌, ◌≤◌, ◌<◌, ◌≡◌, refl, ap, ◌∙◌, arith, Bool, true, false, some, ok, List, [], ◌∷◌,
  ◌++◌, append-nil, length, length-take, length-replicate, take, drop, drop-replicate, replicate,
  bit_and, bit_or, All, IsByte, ltb,
}
use formats.Common.Bits.{bit_and_0xff, and_zero, or_zero}
use formats.Base64.{Alphabet, encode_6bits, encode_3bytes}
use formats.Base64.Coder.{IsCoder}
use formats.Base64.Codec.{pad, pad_block, encode_end, encode_loop, encode, encode_string}
use formats.Base64.Codec.Text.{padding, symbols, text, encoded_len-text}

pad_one : (c0 c1 c2 c3 : ℕ) → pad_block 1 (c0 ∷ c1 ∷ c2 ∷ c3 ∷ []) ≡ c0 ∷ c1 ∷ pad ∷ pad ∷ []
pad_one c0 c1 c2 c3 = rw (and_zero c2) refl

pad_two :
    (c0 c1 c2 c3 : ℕ) → IsByte c2 → pad_block 2 (c0 ∷ c1 ∷ c2 ∷ c3 ∷ []) ≡ c0 ∷ c1 ∷ c2 ∷ pad ∷ []
pad_two c0 c1 c2 c3 h =
    let whole : bit_or (bit_and c2 0xff) 0 ≡ c2 =
      or_zero (bit_and c2 0xff) ∙ bit_and_0xff c2 ∙ omega arith in
    rw whole refl

module _ (a : Alphabet) (law : IsCoder a) where
  -- Behind the whole blocks.
  encode_end-nil :
      (p : Bool) (dst : List ℕ)
      → length dst ≡ length (padding p [])
      → encode_end a p [] dst ≡ padding p []
  encode_end-nil true [] h = refl
  encode_end-nil false [] h = refl
  encode_end-nil true (d ∷ dst) h = absurd (omega arith)
  encode_end-nil false (d ∷ dst) h = absurd (omega arith)

  encode_end_one :
      (p : Bool) (x : ℕ) (dst : List ℕ)
      → IsByte x
      → length dst ≡ suc (suc (length (padding p (x ∷ []))))
      → encode_end a p (x ∷ []) dst ≡ symbols a (x ∷ []) ++ padding p (x ∷ [])
  unfolding encode_3bytes
  encode_end_one true x (_ ∷ _ ∷ _ ∷ _ ∷ []) hx h =
      let p = a.packing in
      ap (λ l. l ++ [])
        (pad_one (encode_6bits a (p.bits_0 x)) (encode_6bits a (p.bits_1 x 0))
          (encode_6bits a (p.bits_2 0 0)) (encode_6bits a (p.bits_3 0)))
  encode_end_one false x (_ ∷ _ ∷ []) hx h = refl
  encode_end_one true x [] hx h = absurd (omega arith)
  encode_end_one true x (_ ∷ []) hx h = absurd (omega arith)
  encode_end_one true x (_ ∷ _ ∷ []) hx h = absurd (omega arith)
  encode_end_one true x (_ ∷ _ ∷ _ ∷ []) hx h = absurd (omega arith)
  encode_end_one true x (_ ∷ _ ∷ _ ∷ _ ∷ _ ∷ dst) hx h = absurd (omega arith)
  encode_end_one false x [] hx h = absurd (omega arith)
  encode_end_one false x (_ ∷ []) hx h = absurd (omega arith)
  encode_end_one false x (_ ∷ _ ∷ _ ∷ dst) hx h = absurd (omega arith)

  encode_end_two :
      (p : Bool) (x y : ℕ) (dst : List ℕ)
      → IsByte x
      → IsByte y
      → length dst ≡ suc (suc (suc (length (padding p (x ∷ y ∷ [])))))
      → encode_end a p (x ∷ y ∷ []) dst ≡ symbols a (x ∷ y ∷ []) ++ padding p (x ∷ y ∷ [])
  unfolding encode_3bytes
  encode_end_two true x y (_ ∷ _ ∷ _ ∷ _ ∷ []) hx hy h =
      let p = a.packing in
      ap (λ l. l ++ [])
        (pad_two (encode_6bits a (p.bits_0 x)) (encode_6bits a (p.bits_1 x y))
          (encode_6bits a (p.bits_2 y 0)) (encode_6bits a (p.bits_3 0))
          (law.byte (p.bits_2 y 0) (law.packing.small_2 y 0 hy (omega arith))))
  encode_end_two false x y (_ ∷ _ ∷ _ ∷ []) hx hy h = refl
  encode_end_two true x y [] hx hy h = absurd (omega arith)
  encode_end_two true x y (_ ∷ []) hx hy h = absurd (omega arith)
  encode_end_two true x y (_ ∷ _ ∷ []) hx hy h = absurd (omega arith)
  encode_end_two true x y (_ ∷ _ ∷ _ ∷ []) hx hy h = absurd (omega arith)
  encode_end_two true x y (_ ∷ _ ∷ _ ∷ _ ∷ _ ∷ dst) hx hy h = absurd (omega arith)
  encode_end_two false x y [] hx hy h = absurd (omega arith)
  encode_end_two false x y (_ ∷ []) hx hy h = absurd (omega arith)
  encode_end_two false x y (_ ∷ _ ∷ []) hx hy h = absurd (omega arith)
  encode_end_two false x y (_ ∷ _ ∷ _ ∷ _ ∷ dst) hx hy h = absurd (omega arith)

  -- The loop fills a buffer of the right length with the text.
  encode_loop-text :
      (bs dst : List ℕ)
      → All IsByte bs
      → length dst ≡ length (text a bs)
      → encode_loop a bs dst ≡ text a bs
  unfolding encode_loop encode_3bytes text
  encode_loop-text [] dst all h = encode_end-nil a.padded dst h
  encode_loop-text (x ∷ []) dst all h = encode_end_one a.padded x dst all.0 h
  encode_loop-text (x ∷ y ∷ []) dst all h = encode_end_two a.padded x y dst all.0 all.1.0 h
  encode_loop-text (x ∷ y ∷ z ∷ bs) (_ ∷ _ ∷ _ ∷ _ ∷ dst) all h =
      let p = a.packing in
      ap
        (λ rest.
          encode_6bits a (p.bits_0 x)
          ∷ encode_6bits a (p.bits_1 x y)
          ∷ encode_6bits a (p.bits_2 y z)
          ∷ encode_6bits a (p.bits_3 z)
          ∷ rest)
        (encode_loop-text bs dst all.1.1.1 (omega arith))
  encode_loop-text (x ∷ y ∷ z ∷ bs) [] all h = absurd (omega arith)
  encode_loop-text (x ∷ y ∷ z ∷ bs) (_ ∷ []) all h = absurd (omega arith)
  encode_loop-text (x ∷ y ∷ z ∷ bs) (_ ∷ _ ∷ []) all h = absurd (omega arith)
  encode_loop-text (x ∷ y ∷ z ∷ bs) (_ ∷ _ ∷ _ ∷ []) all h = absurd (omega arith)

  -- Into a buffer that is long enough.
  pub encode-text :
      (bs dst : List ℕ)
      → All IsByte bs
      → length bs < 2 ^ 62
      → length (text a bs) ≤ length dst
      → encode a bs dst ≡ (ok (text a bs), text a bs ++ drop (length (text a bs)) dst)
  unfolding encode
  encode-text bs dst all small room =
      let n = length (text a bs) in
      let size : length (take n dst) ≡ n = omega (arith, length-take n dst) in
      let fits : ltb (length dst) n ≡ false = ground arith in
      rw (encoded_len-text a bs small, encode_loop-text bs (take n dst) all size, fits) refl

  -- In an alphabet with laws, as the eight of the crate are, `encode_string` does not panic on up to
  -- a quarter of a usize of bytes, and gives their text: a symbol for each six bits, and the padding.
  pub encode_string-text :
      (bs : List ℕ) → All IsByte bs → length bs < 2 ^ 62 → encode_string a bs ≡ some (text a bs)
  unfolding encode_string
  encode_string-text bs all small =
      let n = length (text a bs) in
      rw
        (
          encoded_len-text a bs small,
          encode-text bs (replicate n 0) all small (omega (arith, length-replicate {A = ℕ} n 0)),
          drop-replicate {A = ℕ} n 0,
        )
        (ap some (append-nil (text a bs)))
