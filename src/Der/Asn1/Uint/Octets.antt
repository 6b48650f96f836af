-- ===== src/Der/Asn1/Uint/Octets.antt =====
-- der/src/asn1/integer/uint.rs: the contents of an unsigned INTEGER and `decode_to_slice`.
use native.Mathlib.Decide.{dec_lt}
use formats.Common.{
  ℕ, zero, suc, ◌≤◌, ◌<◌, ◌≡◌, refl, sym, ap, arith, List, [], ◌∷◌, ok, if◌then◌else◌, length, All,
  IsByte,
}
use formats.Der.Asn1.Uint.{decode_to_slice, strip_leading_zeroes, needs_leading_zero}
use formats.Der.Length.{IsLength}

-- A leading zero keeps the number from being read as a negative one.
unfoldable pub uint_octets : List ℕ → List ℕ
uint_octets bytes = if needs_leading_zero bytes then 0 ∷ bytes else bytes

-- The shortest form of an unsigned number, whose contents a `Length` counts.
pub record IsUint (bytes : List ℕ) : Type 0 where
  pub nonempty : 0 < length bytes
  pub shortest : strip_leading_zeroes bytes ≡ bytes
  pub octets : All IsByte bytes
  pub small : IsLength (length (uint_octets bytes))

strip_suc : (b : ℕ) (rest : List ℕ) → strip_leading_zeroes (suc b ∷ rest) ≡ suc b ∷ rest
unfolding strip_leading_zeroes
strip_suc b [] = refl
strip_suc b (c ∷ rest) = ground arith

strip_high : (b : ℕ) (rest : List ℕ) → 0x80 ≤ b → strip_leading_zeroes (b ∷ rest) ≡ b ∷ rest
strip_high zero rest h = absurd (omega arith)
strip_high (suc b) rest h = strip_suc b rest

strip_le : (bytes : List ℕ) → length (strip_leading_zeroes bytes) ≤ length bytes
unfolding strip_leading_zeroes
strip_le [] = omega arith
strip_le (b ∷ []) = omega arith
strip_le (b ∷ c ∷ rest) = ground (arith, strip_le (c ∷ rest))

high_first : (b : ℕ) (rest : List ℕ) → 0x80 ≤ b → uint_octets (b ∷ rest) ≡ 0 ∷ b ∷ rest
unfolding uint_octets needs_leading_zero
high_first b rest h = ground arith

low_first : (b : ℕ) (rest : List ℕ) → b < 0x80 → uint_octets (b ∷ rest) ≡ b ∷ rest
unfolding uint_octets needs_leading_zero
low_first b rest h = ground arith

zero_octets : 0 ∷ [] ≡ uint_octets (0 ∷ [])
unfolding uint_octets needs_leading_zero
zero_octets = refl

zero_stripped : strip_leading_zeroes (0 ∷ []) ≡ 0 ∷ []
unfolding strip_leading_zeroes
zero_stripped = refl

-- What `decode_to_slice` accepts is the contents of the number that it returns, in shortest form.
pub decode_to_slice_ok :
    (contents : List ℕ) {bytes : List ℕ}
    → decode_to_slice contents ≡ ok bytes
    → (contents ≡ uint_octets bytes) × (strip_leading_zeroes bytes ≡ bytes) × (0 < length bytes)
unfolding decode_to_slice
decode_to_slice_ok [] e = absurd (cc)
decode_to_slice_ok (zero ∷ []) {bytes} e =
    let same : 0 ∷ [] ≡ bytes = ground arith in
    rw (← same) (zero_octets, zero_stripped, omega arith)
decode_to_slice_ok (zero ∷ b ∷ rest) {bytes} e = elim (dec_lt b 0x80) [
  | yes low ↦ absurd (ground arith)
  | no high ↦
      let hi : 0x80 ≤ b = omega arith in
      let same : b ∷ rest ≡ bytes = ground arith in
      rw (← same) (sym (high_first b rest hi), strip_high b rest hi, omega arith)
]
decode_to_slice_ok (suc b ∷ rest) {bytes} e = elim (dec_lt (suc b) 0x80) [
  | yes low ↦
      let same : suc b ∷ rest ≡ bytes = ground arith in
      rw (← same) (sym (low_first (suc b) rest low), strip_suc b rest, omega arith)
  | no high ↦ absurd (ground arith)
]

-- ... and it accepts the contents of each number in shortest form.
pub decode_to_slice-uint_octets :
    (bytes : List ℕ)
    → 0 < length bytes
    → strip_leading_zeroes bytes ≡ bytes
    → decode_to_slice (uint_octets bytes) ≡ ok bytes
unfolding decode_to_slice uint_octets needs_leading_zero strip_leading_zeroes
decode_to_slice-uint_octets [] h e = absurd (omega arith)
decode_to_slice-uint_octets (zero ∷ []) h e = refl
decode_to_slice-uint_octets (zero ∷ b ∷ rest) h e =
    absurd (ground (arith, strip_le (b ∷ rest), ap length e))
decode_to_slice-uint_octets (suc b ∷ rest) h e = ground arith
