-- ===== src/Base64/Codec/LastBlock.antt =====
-- `validate_last_block` of base64ct/src/encoding.rs on the text of some bytes.
use formats.Common.{
  ℕ, suc, ◌-◌, ◌*◌, ◌/◌, ◌≤◌, ◌≡◌, refl, ap, ◌∙◌, arith, Bool, true, false, ◌&&◌, ok, List, [], ◌∷◌,
  ◌++◌, length, drop, replicate, All, IsByte, if◌then◌else◌,
}
use Prim.Native.Nat.{bit_xor}
use formats.Common.Bits.{agree_below}
use formats.Base64.{Alphabet, encode_6bits}
use formats.Base64.Coder.{IsCoder}
use formats.Base64.Codec.{last_block_start, differ, is_empty, validate_last_block, encode}
use formats.Base64.Codec.Text.{padding, symbols, text, text_next, length-text_le}
use formats.Base64.Codec.Characters.{text-IsByte}
use formats.Base64.Codec.Encoding.{encode-text}

-- What the last block of the text stands for.
abbrev pub last_bytes : List ℕ → List ℕ
last_bytes [] = []
last_bytes (x ∷ []) = x ∷ []
last_bytes (x ∷ y ∷ []) = x ∷ y ∷ []
last_bytes (x ∷ y ∷ z ∷ []) = x ∷ y ∷ z ∷ []
last_bytes (x ∷ y ∷ z ∷ w ∷ bs) = last_bytes (w ∷ bs)

-- One block earlier.
earlier_3 :
    (x y z w : ℕ) (bs : List ℕ)
    → drop (last_block_start (x ∷ y ∷ z ∷ w ∷ bs) 3) (x ∷ y ∷ z ∷ w ∷ bs)
      ≡ drop (last_block_start (w ∷ bs) 3) (w ∷ bs)
unfolding last_block_start
earlier_3 x y z w bs =
    ap (λ n. drop n (x ∷ y ∷ z ∷ w ∷ bs)) {x = (length (x ∷ y ∷ z ∷ w ∷ bs) - 1) / 3 * 3}
      {y = suc (suc (suc ((length (w ∷ bs) - 1) / 3 * 3)))} (omega arith)

earlier_4 :
    (s0 s1 s2 s3 : ℕ) (rest : List ℕ)
    → 1 ≤ length rest
    → drop (last_block_start (s0 ∷ s1 ∷ s2 ∷ s3 ∷ rest) 4) (s0 ∷ s1 ∷ s2 ∷ s3 ∷ rest)
      ≡ drop (last_block_start rest 4) rest
unfolding last_block_start
earlier_4 s0 s1 s2 s3 rest h =
    ap (λ n. drop n (s0 ∷ s1 ∷ s2 ∷ s3 ∷ rest))
      {x = (length (s0 ∷ s1 ∷ s2 ∷ s3 ∷ rest) - 1) / 4 * 4}
      {y = suc (suc (suc (suc ((length rest - 1) / 4 * 4))))} (omega arith)

last_start : (bs : List ℕ) → drop (last_block_start bs 3) bs ≡ last_bytes bs
unfolding last_block_start
last_start [] = refl
last_start (x ∷ []) = refl
last_start (x ∷ y ∷ []) = refl
last_start (x ∷ y ∷ z ∷ []) = refl
last_start (x ∷ y ∷ z ∷ w ∷ bs) = earlier_3 x y z w bs ∙ last_start (w ∷ bs)

last_few : (bs : List ℕ) → All IsByte bs → All IsByte (last_bytes bs) × (length (last_bytes bs) ≤ 3)
last_few [] all = (all, omega arith)
last_few (x ∷ []) all = (all, omega arith)
last_few (x ∷ y ∷ []) all = (all, omega arith)
last_few (x ∷ y ∷ z ∷ []) all = (all, omega arith)
last_few (x ∷ y ∷ z ∷ w ∷ bs) all = last_few (w ∷ bs) all.1.1.1

xor_same : (c : ℕ) → IsByte c → bit_xor c c ≡ 0
xor_same = agree_below 256 (λ c. bit_xor c c) (λ c. 0) refl

differ_same : (block : List ℕ) → All IsByte block → differ block block 0 ≡ 0
differ_same [] all = refl
differ_same (c ∷ block) all = rw (xor_same c all.0) (differ_same block all.1)

either : {A : Type 0} {a : A} (b : Bool) → (if b then a else a) ≡ a
either true = refl
either false = refl

module _ (a : Alphabet) (law : IsCoder a) where
  length-text_some : (w : ℕ) (bs : List ℕ) → 1 ≤ length (text a (w ∷ bs))
  unfolding text
  length-text_some w [] = omega arith
  length-text_some w (v ∷ []) = omega arith
  length-text_some w (v ∷ u ∷ bs) = omega arith

  last_text_at :
      (p : Bool) (bs : List ℕ)
      → length bs ≤ 3
      → drop (last_block_start (symbols a bs ++ padding p bs) 4) (symbols a bs ++ padding p bs)
        ≡ symbols a bs ++ padding p bs
  unfolding last_block_start
  last_text_at p [] h = refl
  last_text_at true (x ∷ []) h = refl
  last_text_at false (x ∷ []) h = refl
  last_text_at true (x ∷ y ∷ []) h = refl
  last_text_at false (x ∷ y ∷ []) h = refl
  last_text_at p (x ∷ y ∷ z ∷ []) h = refl
  last_text_at p (x ∷ y ∷ z ∷ w ∷ bs) h = absurd (omega arith)

  last_text_few :
      (bs : List ℕ) → length bs ≤ 3 → drop (last_block_start (text a bs) 4) (text a bs) ≡ text a bs
  unfolding text
  last_text_few bs h = last_text_at a.padded bs h

  last_text :
      (bs : List ℕ) → drop (last_block_start (text a bs) 4) (text a bs) ≡ text a (last_bytes bs)
  last_text [] = last_text_few [] (omega arith)
  last_text (x ∷ []) = last_text_few (x ∷ []) (omega arith)
  last_text (x ∷ y ∷ []) = last_text_few (x ∷ y ∷ []) (omega arith)
  last_text (x ∷ y ∷ z ∷ []) = last_text_few (x ∷ y ∷ z ∷ []) (omega arith)
  last_text (x ∷ y ∷ z ∷ w ∷ bs) =
      let p = a.packing in
      ap (λ l. drop (last_block_start l 4) l) (text_next a x y z (w ∷ bs))
      ∙ earlier_4 (encode_6bits a (p.bits_0 x)) (encode_6bits a (p.bits_1 x y))
          (encode_6bits a (p.bits_2 y z)) (encode_6bits a (p.bits_3 z)) (text a (w ∷ bs))
          (length-text_some w bs)
      ∙ last_text (w ∷ bs)

  encoded_again :
      (bs : List ℕ)
      → All IsByte bs
      → length bs ≤ 3
      → (encode a bs (replicate 4 0)).0 ≡ ok (text a bs)
  encoded_again bs all few =
      ap (λ r. r.0)
        (encode-text a law bs (replicate 4 0) all (omega arith)
          (omega (arith, length-text_le a bs)))

  -- The last block of the bytes is encoded again as the last block of their text.
  pub validate_last_block-text :
      (bs : List ℕ) → All IsByte bs → validate_last_block a (text a bs) bs ≡ ok tt
  unfolding validate_last_block
  validate_last_block-text bs all =
      let (bytes, few) = last_few bs all in
      let t = text a (last_bytes bs) in
      rw
        (
          last_start bs,
          last_text bs,
          encoded_again (last_bytes bs) bytes few,
          differ_same t (text-IsByte a law (last_bytes bs) bytes),
        )
        (either (is_empty (text a bs) && is_empty bs))
