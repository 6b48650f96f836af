-- ===== src/Base64/Codec/Padding.antt =====
-- `decode_padding` of base64ct/src/encoding.rs on the text of some bytes.
use formats.Common.{
  ℕ, ◌-◌, ◌%◌, ◌<◌, ◌≡◌, ◌≢◌, refl, ap, ◌∙◌, arith, true, ok, List, [], ◌∷◌, ◌++◌, length,
  length-append, All, IsByte, ◌==◌, if◌then◌else◌,
}
use formats.Common.Bits.{agree_below}
use formats.Base64.{Alphabet, encode_6bits}
use formats.Base64.Coder.{IsCoder}
use formats.Base64.Codec.{pad, is_pad_ct, last_two, padding_of, decode_padding}
use formats.Base64.Codec.Text.{padding, symbols, length-symbols, length-padding}

is_pad_ct-pad : is_pad_ct pad ≡ 1
unfolding is_pad_ct
is_pad_ct-pad = refl

is_pad_ct_test : (c : ℕ) → IsByte c → is_pad_ct c ≡ (if c == pad then 1 else 0)
unfolding is_pad_ct
is_pad_ct_test = agree_below 256 is_pad_ct (λ c. if c == pad then 1 else 0) refl

not_pad : (c : ℕ) → IsByte c → c ≢ pad → is_pad_ct c ≡ 0
not_pad c h differs = is_pad_ct_test c h ∙ ground arith

module _ (a : Alphabet) (law : IsCoder a) where
  no_pad : (n : ℕ) → n < 64 → is_pad_ct (encode_6bits a n) ≡ 0
  no_pad n h = not_pad (encode_6bits a n) (law.byte n h) (law.no_pad n h)

  abbrev padded_text : List ℕ → List ℕ
  padded_text bs = symbols a bs ++ padding true bs

  -- The two last characters of a longer text are those of what follows the first block.
  last_two-text :
      (s0 s1 s2 s3 w : ℕ) (bs : List ℕ)
      → last_two (s0 ∷ s1 ∷ s2 ∷ s3 ∷ padded_text (w ∷ bs)) ≡ last_two (padded_text (w ∷ bs))
  last_two-text s0 s1 s2 s3 w [] = refl
  last_two-text s0 s1 s2 s3 w (v ∷ []) = refl
  last_two-text s0 s1 s2 s3 w (v ∷ u ∷ bs) = refl

  -- The padding is found to be right, of whatever length the text is said to be.
  padding_of-text :
      (bs : List ℕ) (len : ℕ)
      → All IsByte bs
      → padding_of len (last_two (padded_text bs)) ≡ ok (len - length (padding true bs), 0)
  padding_of-text [] len all = ap (λ n. ok (n, 0)) {x = len} {y = len - 0} (omega arith)
  padding_of-text (x ∷ []) len all = rw is_pad_ct-pad refl
  padding_of-text (x ∷ y ∷ []) len all =
      rw
        (
          no_pad (a.packing.bits_2 y 0) (law.packing.small_2 y 0 all.1.0 (omega arith)),
          is_pad_ct-pad,
        )
        refl
  padding_of-text (x ∷ y ∷ z ∷ []) len all =
      rw
        (
          no_pad (a.packing.bits_2 y z) (law.packing.small_2 y z all.1.0 all.1.1.0),
          no_pad (a.packing.bits_3 z) (law.packing.small_3 z all.1.1.0),
        )
        refl
  padding_of-text (x ∷ y ∷ z ∷ w ∷ bs) len all =
      let p = a.packing in
      ap (padding_of len) (
        last_two-text (encode_6bits a (p.bits_0 x)) (encode_6bits a (p.bits_1 x y))
          (encode_6bits a (p.bits_2 y z)) (encode_6bits a (p.bits_3 z)) w bs)
      ∙ padding_of-text (w ∷ bs) len all.1.1.1

  pub decode_padding-text :
      (bs : List ℕ)
      → All IsByte bs
      → decode_padding (padded_text bs) ≡ ok (length (symbols a bs), 0)
  unfolding decode_padding
  decode_padding-text bs all =
      let len = length (padded_text bs) in
      let count = length-append (symbols a bs) (padding true bs) in
      let blocks : len % 4 ≡ 0 = omega (arith, count, length-symbols a bs, length-padding bs) in
      rw blocks (
        padding_of-text bs len all
        ∙ ap (λ n. ok (n, 0)) {x = len - length (padding true bs)} {y = length (symbols a bs)}
            (omega (arith, count)))
