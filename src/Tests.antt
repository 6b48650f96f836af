-- ===== src/Tests.antt =====
-- Runs of `der`, `base16ct`, `base64ct`, `tai64`, `const-oid` and `tls_codec` on concrete inputs, and the theorems at concrete inputs.
pub mod Messages
pub mod Codec
pub mod Windows
pub mod Hex
pub mod Base64
pub mod Identifiers
pub mod Vectors
pub mod Labels
use formats.Common.{
  ℕ, ◌<◌, ◌≡◌, refl, arith, Bool, true, false, ◌&&◌, List, [], ◌∷◌, ◌++◌, ok, err, ltb,
  if◌then◌else◌, length, All, IsByte, Bool-cases, inl, inr,
}

abbrev pub all_bytes : List ℕ → Bool
all_bytes [] = true
all_bytes (b ∷ bs) = let rest = all_bytes bs in if ltb b 256 then rest else false

-- Bytes by computation.
pub all_bytes_sound : (bs : List ℕ) → all_bytes bs ≡ true → All IsByte bs
all_bytes_sound [] h = tt
all_bytes_sound (b ∷ bs) h = elim (Bool-cases (ltb b 256)) [
  | inl small ↦ let rest = rw small at h in (ground arith, all_bytes_sound bs rest)
  | inr large ↦ absurd (cc (rw large at h))
]
