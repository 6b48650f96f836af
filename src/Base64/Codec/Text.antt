-- ===== src/Base64/Codec/Text.antt =====
-- The text of base64ct/src/encoding.rs for some bytes: their bits in groups of six, and the padding.
use formats.Common.{
  ℕ, ◌+◌, ◌*◌, ◌/◌, ◌^◌, ◌≤◌, ◌<◌, ◌≡◌, refl, ap, arith, Bool, true, false, some, List, [], ◌∷◌,
  ◌++◌, length, length-append, if◌then◌else◌,
}
use formats.Base64.{Alphabet, encode_6bits}
use formats.Base64.Codec.{pad, encoded_len, decoded_len}

-- The padding behind so many bytes.
abbrev pub padding : Bool → List ℕ → List ℕ
padding p [] = []
padding p (x ∷ []) = if p then pad ∷ pad ∷ [] else []
padding p (x ∷ y ∷ []) = if p then pad ∷ [] else []
padding p (x ∷ y ∷ z ∷ bs) = padding p bs

pub length-padding_none : (bs : List ℕ) → length (padding false bs) ≡ 0
length-padding_none [] = refl
length-padding_none (x ∷ []) = refl
length-padding_none (x ∷ y ∷ []) = refl
length-padding_none (x ∷ y ∷ z ∷ bs) = length-padding_none bs

-- A symbol for each six bits, behind the last byte of zeroes.
abbrev pub symbols : Alphabet → List ℕ → List ℕ
symbols a [] = []
symbols a (x ∷ []) =
    encode_6bits a (a.packing.bits_0 x) ∷ encode_6bits a (a.packing.bits_1 x 0) ∷ []
symbols a (x ∷ y ∷ []) =
    encode_6bits a (a.packing.bits_0 x)
    ∷ encode_6bits a (a.packing.bits_1 x y)
    ∷ encode_6bits a (a.packing.bits_2 y 0)
    ∷ []
symbols a (x ∷ y ∷ z ∷ bs) =
    encode_6bits a (a.packing.bits_0 x)
    ∷ encode_6bits a (a.packing.bits_1 x y)
    ∷ encode_6bits a (a.packing.bits_2 y z)
    ∷ encode_6bits a (a.packing.bits_3 z)
    ∷ symbols a bs

unfoldable pub text : Alphabet → List ℕ → List ℕ
text a bs = symbols a bs ++ padding a.padded bs

pub text_next :
    (a : Alphabet) (x y z : ℕ) (bs : List ℕ)
    → text a (x ∷ y ∷ z ∷ bs)
      ≡ encode_6bits a (a.packing.bits_0 x)
        ∷ encode_6bits a (a.packing.bits_1 x y)
        ∷ encode_6bits a (a.packing.bits_2 y z)
        ∷ encode_6bits a (a.packing.bits_3 z)
        ∷ text a bs
unfolding text
text_next a x y z bs = refl

pub length-symbols :
    (a : Alphabet) (bs : List ℕ) → length (symbols a bs) ≡ length bs + (length bs + 2) / 3
length-symbols a [] = refl
length-symbols a (x ∷ []) = refl
length-symbols a (x ∷ y ∷ []) = refl
length-symbols a (x ∷ y ∷ z ∷ bs) = omega (arith, length-symbols a bs)

pub length-padding :
    (bs : List ℕ)
    → length bs + (length bs + 2) / 3 + length (padding true bs) ≡ (length bs + 2) / 3 * 4
length-padding [] = refl
length-padding (x ∷ []) = refl
length-padding (x ∷ y ∷ []) = refl
length-padding (x ∷ y ∷ z ∷ bs) = omega (arith, length-padding bs)

encoded_len_at :
    (p : Bool) (n m : ℕ)
    → n < 2 ^ 62
    → (p ≡ true → m ≡ (n + 2) / 3 * 4)
    → (p ≡ false → m ≡ n + (n + 2) / 3)
    → encoded_len n p ≡ some m
unfolding encoded_len
encoded_len_at true n m small is_padded is_not =
    let is : m ≡ (n + 2) / 3 * 4 = is_padded refl in ground arith
encoded_len_at false n m small is_padded is_not =
    let is : m ≡ n + (n + 2) / 3 = is_not refl in ground arith

length-text_at :
    (a : Alphabet) (p : Bool) (bs : List ℕ)
    → length bs < 2 ^ 62
    → encoded_len (length bs) p ≡ some (length (symbols a bs ++ padding p bs))
length-text_at a p bs small =
    let count = length-append (symbols a bs) (padding p bs) in
    encoded_len_at p (length bs) (length (symbols a bs ++ padding p bs)) small
      (λ is.
        omega (
          arith,
          count,
          length-symbols a bs,
          length-padding bs,
          ap (λ q. length (padding q bs)) is,
        ))
      (λ is. omega (
        arith,
        count,
        length-symbols a bs,
        length-padding_none bs,
        ap (λ q. length (padding q bs)) is,
      ))

-- The length that the code computes is that of the text.
pub encoded_len-text :
    (a : Alphabet) (bs : List ℕ)
    → length bs < 2 ^ 62
    → encoded_len (length bs) a.padded ≡ some (length (text a bs))
unfolding text
encoded_len-text a bs small = length-text_at a a.padded bs small

length-text_at_le :
    (a : Alphabet) (p : Bool) (bs : List ℕ)
    → length (symbols a bs ++ padding p bs) ≤ (length bs + 2) / 3 * 4
length-text_at_le a true bs =
    omega (
      arith,
      length-append (symbols a bs) (padding true bs),
      length-symbols a bs,
      length-padding bs,
    )
length-text_at_le a false bs = omega (
  arith,
  length-append (symbols a bs) (padding false bs),
  length-symbols a bs,
  length-padding_none bs,
)

pub length-text_le : (a : Alphabet) (bs : List ℕ) → length (text a bs) ≤ (length bs + 2) / 3 * 4
unfolding text
length-text_le a bs = length-text_at_le a a.padded bs

pub length-symbols_le : (a : Alphabet) (bs : List ℕ) → length (symbols a bs) ≤ length (text a bs)
unfolding text
length-symbols_le a bs = omega (arith, length-append (symbols a bs) (padding a.padded bs))

pub decoded_len-symbols :
    (a : Alphabet) (bs : List ℕ) → decoded_len (length (symbols a bs)) ≡ length bs
unfolding decoded_len
decoded_len-symbols a bs =
    let count = length-symbols a bs in
    let n : ℕ = length bs in let m : ℕ = length (symbols a bs) in omega (arith, count)
