-- ===== src/Base16/Loops.antt =====
-- The loops over pairs of digits of base16ct/src/lib.rs, on any decoder and encoder of digits.
use formats.Common.{
  ℕ, ◌+◌, ◌*◌, ◌/◌, ◌%◌, ◌^◌, ◌≤◌, ◌<◌, ◌≡◌, refl, arith, ◌⊎◌, inl, inr, List, [], ◌∷◌, length,
  bit_and, bit_or, All, IsByte,
}
use formats.Common.Bits.{bit_or_shifted, bit_or_ge, agree_below}
use formats.Base16.{pair_word, decode_loop, encode_loop}

-- The digits of each byte, high half first.
abbrev pub digits : (ℕ → ℕ) → List ℕ → List ℕ
digits encode_nibble [] = []
digits encode_nibble (b ∷ bs) =
    encode_nibble (b / 16) ∷ encode_nibble (b % 16) ∷ digits encode_nibble bs

pub length-digits : (e : ℕ → ℕ) (bs : List ℕ) → length (digits e bs) ≡ length bs * 2
length-digits e [] = refl
length-digits e (b ∷ bs) = omega (arith, length-digits e bs)

pub low_half : (b : ℕ) → IsByte b → bit_and b 0x0f ≡ b % 16
low_half = agree_below 256 (λ b. bit_and b 0x0f) (λ b. b % 16) refl

-- The loop of `encode` fills a buffer of the right length with the digits.
pub encode_loop-digits :
    (e : ℕ → ℕ) (bs dst : List ℕ)
    → All IsByte bs
    → length dst ≡ length bs * 2
    → encode_loop e bs dst ≡ digits e bs
unfolding encode_loop
encode_loop-digits e [] [] all h = refl
encode_loop-digits e [] (x ∷ dst) all h = absurd (omega arith)
encode_loop-digits e (b ∷ bs) [] all h = absurd (omega arith)
encode_loop-digits e (b ∷ bs) (x ∷ []) all h = absurd (omega arith)
encode_loop-digits e (b ∷ bs) (x ∷ y ∷ dst) all h =
    rw (low_half b all.0, encode_loop-digits e bs dst all.1 (omega arith)) refl

-- Two digits make their byte; where one is none, the upper byte of the word is not 0.
pub pair_word_digits :
    (d : ℕ → ℕ) (a b : ℕ) → d a < 16 → d b < 16 → pair_word d a b ≡ d a * 16 + d b
pair_word_digits d a b ha hb =
    let small : d a * 2 ^ 4 % 2 ^ 16 ≡ d a * 2 ^ 4 = omega arith in
    rw small (bit_or_shifted 4 (d a) (d b) hb)

pub pair_word_none :
    (d : ℕ → ℕ) (a b : ℕ) → (d a ≡ 0xffff) ⊎ (d b ≡ 0xffff) → 1 ≤ pair_word d a b / 2 ^ 8
pair_word_none d a b (inl none_a) = omega (arith, (bit_or_ge (d a * 2 ^ 4 % 2 ^ 16) (d b)).0)
pair_word_none d a b (inr none_b) = omega (arith, (bit_or_ge (d a * 2 ^ 4 % 2 ^ 16) (d b)).1)

-- `err` never goes back.
pub loop_err_ge : (d : ℕ → ℕ) (src dst : List ℕ) (e : ℕ) → e ≤ (decode_loop d src dst e).1
unfolding decode_loop
loop_err_ge d [] dst e = omega arith
loop_err_ge d (a ∷ []) dst e = omega arith
loop_err_ge d (a ∷ b ∷ src) [] e = omega arith
loop_err_ge d (a ∷ b ∷ src) (x ∷ dst) e = omega (
  arith,
  (bit_or_ge e (pair_word d a b / 2 ^ 8)).0,
  loop_err_ge d src dst (bit_or e (pair_word d a b / 2 ^ 8)),
)
