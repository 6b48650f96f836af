-- ===== src/Der/Asn1/Fixed/Padding.antt =====
-- Leading zeroes: stripped and put back.
use formats.Common.{
  ℕ, zero, suc, ◌-◌, ◌≤◌, ◌<◌, ◌≡◌, refl, ap, ◌∙◌, arith, List, [], ◌∷◌, ◌++◌, length,
  length-append, replicate, All, IsByte, ◌==◌, Bool-cases, inl, inr, ==→eq,
}
use formats.Der.Asn1.Uint.{strip_leading_zeroes}

strip_zero : (ys : List ℕ) → 0 < length ys → strip_leading_zeroes (0 ∷ ys) ≡ strip_leading_zeroes ys
unfolding strip_leading_zeroes
strip_zero [] h = absurd (omega arith)
strip_zero (c ∷ ys) h = refl

-- Zeroes in front do not matter.
pub strip_padded :
    (k : ℕ) (xs : List ℕ)
    → 0 < length xs
    → strip_leading_zeroes (replicate k 0 ++ xs) ≡ strip_leading_zeroes xs
strip_padded zero xs h = refl
strip_padded (suc k) xs h =
    strip_zero (replicate k 0 ++ xs) (omega (arith, length-append (replicate k 0) xs))
    ∙ strip_padded k xs h

pub strip_le : (xs : List ℕ) → length (strip_leading_zeroes xs) ≤ length xs
unfolding strip_leading_zeroes
strip_le [] = omega arith
strip_le (b ∷ []) = omega arith
strip_le (b ∷ c ∷ xs) = ground (arith, strip_le (c ∷ xs))

pub strip_nonempty : (xs : List ℕ) → 0 < length xs → 0 < length (strip_leading_zeroes xs)
unfolding strip_leading_zeroes
strip_nonempty [] h = absurd (omega arith)
strip_nonempty (b ∷ []) h = omega arith
strip_nonempty (b ∷ c ∷ xs) h = ground (arith, strip_nonempty (c ∷ xs))

pub strip_twice :
    (xs : List ℕ) → strip_leading_zeroes (strip_leading_zeroes xs) ≡ strip_leading_zeroes xs
unfolding strip_leading_zeroes
strip_twice [] = refl
strip_twice (b ∷ []) = refl
strip_twice (b ∷ c ∷ xs) = elim (Bool-cases (b == 0)) [
  | inl none ↦ rw none (strip_twice (c ∷ xs))
  | inr some ↦ rw (some, strip_leading_zeroes, some) refl
]

pub strip-IsByte : (xs : List ℕ) → All IsByte xs → All IsByte (strip_leading_zeroes xs)
unfolding strip_leading_zeroes
strip-IsByte [] h = h
strip-IsByte (b ∷ []) h = h
strip-IsByte (b ∷ c ∷ xs) h = elim (Bool-cases (b == 0)) [
  | inl none ↦ rw none (strip-IsByte (c ∷ xs) h.1)
  | inr some ↦ rw some h
]

-- As many zeroes as were stripped give the bytes back.
pub pad_strip :
    (xs : List ℕ)
    → replicate (length xs - length (strip_leading_zeroes xs)) 0 ++ strip_leading_zeroes xs ≡ xs
unfolding strip_leading_zeroes
pad_strip [] = refl
pad_strip (b ∷ []) = refl
pad_strip (b ∷ c ∷ xs) = elim (Bool-cases (b == 0)) [
  | inl none ↦
      let rest = strip_leading_zeroes (c ∷ xs) in
      let more : suc (suc (length xs)) - length rest ≡ suc (suc (length xs) - length rest) =
        omega (arith, strip_le (c ∷ xs)) in
      let is_zero : b ≡ 0 = ==→eq b 0 none in
      rw (none, more, is_zero) (ap (◌∷◌ 0) (pad_strip (c ∷ xs)))
  | inr some ↦
      let nothing : suc (suc (length xs)) - suc (suc (length xs)) ≡ 0 = omega arith in
      rw (some, nothing) refl
]
