-- ===== src/Base64/Codec/Characters.antt =====
-- The characters of the text of base64ct/src/encoding.rs are bytes.
use formats.Common.{ℕ, arith, Bool, true, false, List, [], ◌∷◌, All, IsByte, All-append}
use formats.Base64.{Alphabet, encode_6bits}
use formats.Base64.Coder.{IsCoder}
use formats.Base64.Codec.Text.{padding, symbols, text}

padding-IsByte : (p : Bool) (bs : List ℕ) → All IsByte (padding p bs)
padding-IsByte p [] = tt
padding-IsByte true (x ∷ []) = (omega arith, (omega arith, tt))
padding-IsByte false (x ∷ []) = tt
padding-IsByte true (x ∷ y ∷ []) = (omega arith, tt)
padding-IsByte false (x ∷ y ∷ []) = tt
padding-IsByte p (x ∷ y ∷ z ∷ bs) = padding-IsByte p bs

module _ (a : Alphabet) (law : IsCoder a) where
  first_two :
      (x y : ℕ)
      → IsByte x
      → IsByte y
      → IsByte (encode_6bits a (a.packing.bits_0 x))
        × IsByte (encode_6bits a (a.packing.bits_1 x y))
  first_two x y hx hy = (
    law.byte (a.packing.bits_0 x) (law.packing.small_0 x hx),
    law.byte (a.packing.bits_1 x y) (law.packing.small_1 x y hx hy),
  )

  third : (y z : ℕ) → IsByte y → IsByte z → IsByte (encode_6bits a (a.packing.bits_2 y z))
  third y z hy hz = law.byte (a.packing.bits_2 y z) (law.packing.small_2 y z hy hz)

  symbols-IsByte : (bs : List ℕ) → All IsByte bs → All IsByte (symbols a bs)
  symbols-IsByte [] all = tt
  symbols-IsByte (x ∷ []) all = let (c0, c1) = first_two x 0 all.0 (omega arith) in (c0, (c1, tt))
  symbols-IsByte (x ∷ y ∷ []) all =
      let (c0, c1) = first_two x y all.0 all.1.0 in
      (c0, (c1, (third y 0 all.1.0 (omega arith), tt)))
  symbols-IsByte (x ∷ y ∷ z ∷ bs) all =
      let (c0, c1) = first_two x y all.0 all.1.0 in
      let c3 = law.byte (a.packing.bits_3 z) (law.packing.small_3 z all.1.1.0) in
      (c0, (c1, (third y z all.1.0 all.1.1.0, (c3, symbols-IsByte bs all.1.1.1))))

  pub text-IsByte : (bs : List ℕ) → All IsByte bs → All IsByte (text a bs)
  unfolding text
  text-IsByte bs all =
      All-append IsByte (symbols a bs) (padding a.padded bs) (symbols-IsByte bs all)
        (padding-IsByte a.padded bs)
