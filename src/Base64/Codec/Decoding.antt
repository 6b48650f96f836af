-- ===== src/Base64/Codec/Decoding.antt =====
-- The loop of `decode` in base64ct/src/encoding.rs on the symbols of some bytes.
use formats.Common.{ℕ, ◌≡◌, refl, arith, List, [], ◌∷◌, length, All, IsByte}
use formats.Base64.{Alphabet}
use formats.Base64.Coder.{IsCoder, decode-encode, decode-filled, decode-filled_two, decode-filler}
use formats.Base64.Codec.{decode_end, decode_loop}
use formats.Base64.Codec.Text.{symbols}

module _ (a : Alphabet) (law : IsCoder a) where
  decode_end_one : (x d : ℕ) → IsByte x → decode_end a (symbols a (x ∷ [])) (d ∷ []) 0 ≡ (x ∷ [], 0)
  decode_end_one x d hx =
      let (rest, is) = decode-filled a law x 0 b'A' b'A' hx (omega arith) law.filler law.filler in
      rw is refl

  decode_end_two :
      (x y d e : ℕ)
      → IsByte x
      → IsByte y
      → decode_end a (symbols a (x ∷ y ∷ [])) (d ∷ e ∷ []) 0 ≡ (x ∷ y ∷ [], 0)
  decode_end_two x y d e hx hy =
      let (rest, is) = decode-filled_two a law x y b'A' hx hy law.filler in rw is refl

  -- Into a buffer of the right length the loop puts the bytes, and finds nothing wrong.
  pub decode_loop-symbols :
      (bs dst : List ℕ)
      → All IsByte bs
      → length dst ≡ length bs
      → decode_loop a (symbols a bs) dst 0 ≡ (bs, 0)
  unfolding decode_loop
  decode_loop-symbols [] [] all h = rw (decode-filler a law).1 refl
  decode_loop-symbols [] (d ∷ dst) all h = absurd (omega arith)
  decode_loop-symbols (x ∷ []) [] all h = absurd (omega arith)
  decode_loop-symbols (x ∷ []) (d ∷ []) all h = decode_end_one x d all.0
  decode_loop-symbols (x ∷ []) (d ∷ e ∷ dst) all h = absurd (omega arith)
  decode_loop-symbols (x ∷ y ∷ []) [] all h = absurd (omega arith)
  decode_loop-symbols (x ∷ y ∷ []) (d ∷ []) all h = absurd (omega arith)
  decode_loop-symbols (x ∷ y ∷ []) (d ∷ e ∷ []) all h = decode_end_two x y d e all.0 all.1.0
  decode_loop-symbols (x ∷ y ∷ []) (d ∷ e ∷ f ∷ dst) all h = absurd (omega arith)
  decode_loop-symbols (x ∷ y ∷ z ∷ bs) [] all h = absurd (omega arith)
  decode_loop-symbols (x ∷ y ∷ z ∷ bs) (d ∷ []) all h = absurd (omega arith)
  decode_loop-symbols (x ∷ y ∷ z ∷ bs) (d ∷ e ∷ []) all h = absurd (omega arith)
  decode_loop-symbols (x ∷ y ∷ z ∷ bs) (d ∷ e ∷ f ∷ dst) all h =
      rw
        (
          decode-encode a law x y z all.0 all.1.0 all.1.1.0,
          decode_loop-symbols bs dst all.1.1.1 (omega arith),
        )
        refl
