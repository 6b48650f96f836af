-- ===== src/Base64/Coder.antt =====
-- One block of base64ct/src/alphabet.rs, in an alphabet with laws.
pub mod Instances
use formats.Common.{
  ℕ, zero, suc, ◌+◌, ◌*◌, ◌/◌, ◌%◌, ◌^◌, ◌≤◌, ◌<◌, ◌≡◌, ◌≢◌, refl, ap, ◌∙◌, arith, List, [], ◌∷◌,
  bit_and, bit_or, IsByte, ltb, if◌then◌else◌,
}
use formats.Common.Bits.{bit_or_lt}
use formats.Common.Int16.{shift_i16}
use formats.Base64.{Alphabet, decode_6bits, encode_6bits, decode_3bytes, encode_3bytes}
use formats.Base64.Blocks.{IsPacking}
use formats.Base64.Codec.{pad}

-- Each value of six bits has a symbol, which is no padding and is decoded as that value; the letter
-- that `decode` fills up with is of the alphabet.
pub record IsCoder (a : Alphabet) : Type 0 where
  pub packing : IsPacking a.packing
  pub inverse : (n : ℕ) → n < 64 → decode_6bits a (encode_6bits a n) ≡ n
  pub byte : (n : ℕ) → n < 64 → IsByte (encode_6bits a n)
  pub no_pad : (n : ℕ) → n < 64 → encode_6bits a n ≢ pad
  pub filler : decode_6bits a b'A' < 64

-- No error.
clean :
    (c0 c1 c2 c3 : ℕ)
    → c0 < 64
    → c1 < 64
    → c2 < 64
    → c3 < 64
    → bit_and (shift_i16 (bit_or (bit_or (bit_or c0 c1) c2) c3)) 1 ≡ 0
clean c0 c1 c2 c3 h0 h1 h2 h3 =
    let all : ℕ = bit_or (bit_or (bit_or c0 c1) c2) c3 in
    let low : all < 64 =
      bit_or_lt 6 (bit_or (bit_or c0 c1) c2) c3
        (bit_or_lt 6 (bit_or c0 c1) c2 (bit_or_lt 6 c0 c1 h0 h1) h2) h3 in
    let none : shift_i16 all ≡ 0 = ground arith in ap (λ n. bit_and n 1) none

module _ (a : Alphabet) (law : IsCoder a) where
  -- The symbols of values of six bits.
  decode-symbols :
      (n0 n1 n2 n3 : ℕ)
      → n0 < 64
      → n1 < 64
      → n2 < 64
      → n3 < 64
      → decode_3bytes a
          (encode_6bits a n0)
          (encode_6bits a n1)
          (encode_6bits a n2)
          (encode_6bits a n3)
        ≡ (a.packing.byte_0 n0 n1 ∷ a.packing.byte_1 n1 n2 ∷ a.packing.byte_2 n2 n3 ∷ [], 0)
  unfolding decode_3bytes
  decode-symbols n0 n1 n2 n3 h0 h1 h2 h3 =
      rw (law.inverse n0 h0, law.inverse n1 h1, law.inverse n2 h2, law.inverse n3 h3)
        (ap
          (λ e. (a.packing.byte_0 n0 n1 ∷ a.packing.byte_1 n1 n2 ∷ a.packing.byte_2 n2 n3 ∷ [], e))
          (clean n0 n1 n2 n3 h0 h1 h2 h3))

  -- The blocks of three bytes, two and one. The characters behind a short block are of the
  -- alphabet, and hold no bits of its bytes.
  pub decode-encode :
      (x y z : ℕ)
      → IsByte x
      → IsByte y
      → IsByte z
      → decode_3bytes a
          (encode_6bits a (a.packing.bits_0 x))
          (encode_6bits a (a.packing.bits_1 x y))
          (encode_6bits a (a.packing.bits_2 y z))
          (encode_6bits a (a.packing.bits_3 z))
        ≡ (x ∷ y ∷ z ∷ [], 0)
  decode-encode x y z hx hy hz =
      let l = law.packing in
      decode-symbols (a.packing.bits_0 x) (a.packing.bits_1 x y) (a.packing.bits_2 y z)
        (a.packing.bits_3 z) (l.small_0 x hx) (l.small_1 x y hx hy) (l.small_2 y z hy hz)
        (l.small_3 z hz)
      ∙ rw (l.back_0 x y hx hy, l.back_1 x y z hx hy hz, l.back_2 y z hy hz) refl

  -- The first bytes of a block of which only some characters are known.
  pub decode-filled :
      (x y s2 s3 : ℕ)
      → IsByte x
      → IsByte y
      → decode_6bits a s2 < 64
      → decode_6bits a s3 < 64
      → (rest : List ℕ) × (decode_3bytes a
            (encode_6bits a (a.packing.bits_0 x))
            (encode_6bits a (a.packing.bits_1 x y))
            s2
            s3
          ≡ (x ∷ rest, 0))
  unfolding decode_3bytes
  decode-filled x y s2 s3 hx hy h2 h3 =
      let l = law.packing in
      let n0 = a.packing.bits_0 x in
      let n1 = a.packing.bits_1 x y in
      let c2 = decode_6bits a s2 in
      let c3 = decode_6bits a s3 in
      (
        a.packing.byte_1 n1 c2 ∷ a.packing.byte_2 c2 c3 ∷ [],
        rw
            (
              law.inverse n0 (l.small_0 x hx),
              law.inverse n1 (l.small_1 x y hx hy),
              l.back_0 x y hx hy,
            )
            (ap (λ e. (x ∷ a.packing.byte_1 n1 c2 ∷ a.packing.byte_2 c2 c3 ∷ [], e))
              (clean n0 n1 c2 c3 (l.small_0 x hx) (l.small_1 x y hx hy) h2 h3)),
      )

  pub decode-filled_two :
      (x y s3 : ℕ)
      → IsByte x
      → IsByte y
      → decode_6bits a s3 < 64
      → (rest : List ℕ) × (decode_3bytes a
            (encode_6bits a (a.packing.bits_0 x))
            (encode_6bits a (a.packing.bits_1 x y))
            (encode_6bits a (a.packing.bits_2 y 0))
            s3
          ≡ (x ∷ y ∷ rest, 0))
  unfolding decode_3bytes
  decode-filled_two x y s3 hx hy h3 =
      let l = law.packing in
      let n0 = a.packing.bits_0 x in
      let n1 = a.packing.bits_1 x y in
      let n2 = a.packing.bits_2 y 0 in
      let c3 = decode_6bits a s3 in
      let h2 = l.small_2 y 0 hy (omega arith) in
      (
        a.packing.byte_2 n2 c3 ∷ [],
        rw
            (
              law.inverse n0 (l.small_0 x hx),
              law.inverse n1 (l.small_1 x y hx hy),
              law.inverse n2 h2,
              l.back_0 x y hx hy,
              l.back_1 x y 0 hx hy (omega arith),
            )
            (ap (λ e. (x ∷ y ∷ a.packing.byte_2 n2 c3 ∷ [], e))
              (clean n0 n1 n2 c3 (l.small_0 x hx) (l.small_1 x y hx hy) h2 h3)),
      )

  pub decode-filler : (first : List ℕ) × (decode_3bytes a b'A' b'A' b'A' b'A' ≡ (first, 0))
  unfolding decode_3bytes
  decode-filler =
      let c = decode_6bits a b'A' in
      (
        a.packing.byte_0 c c ∷ a.packing.byte_1 c c ∷ a.packing.byte_2 c c ∷ [],
        ap (λ e. (a.packing.byte_0 c c ∷ a.packing.byte_1 c c ∷ a.packing.byte_2 c c ∷ [], e))
            (clean c c c c law.filler law.filler law.filler law.filler),
      )
