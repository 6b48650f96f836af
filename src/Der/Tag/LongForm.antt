-- ===== src/Der/Tag/LongForm.antt =====
-- The loop of `parse_parts` in der/src/tag.rs: which groups of seven bits it accepts.
use formats.Common.{
  ℕ, zero, suc, ◌+◌, ◌*◌, ◌/◌, ◌%◌, ◌^◌, ◌≤◌, ◌<◌, ◌≡◌, refl, sym, ap, ◌∙◌, arith, List, [], ◌∷◌,
  ◌++◌, ok, length, ◌⊎◌, inl, inr, All, IsByte,
}
use native.Mathlib.Decide.{dec_lt}
use formats.Common.Base128.{group_count, groups, length-groups, top_bit, div_suc_groups}
use formats.Der.Data.{TagNumber, tag_number_invalid}
use formats.Der.Reader
use formats.Der.Reader.{SliceReader, Decoder, read_byte}
use formats.Der.Reader.Ready.{
  IsValid, Ready, Ready-skip, Ready-extend, Ready-IsByte, skip, skip-skip, >>=-ok,
}
use formats.Der.Reader.Slices.{read_byte_ok}
use formats.Der.Tag.{number_byte, number_loop}
use formats.Der.Tag.Log.{leading_zeros_few}
use formats.Der.Tag.Numbers.{push_group, last_group, inner_group}

module _ (more : ℕ → Decoder TagNumber) (i q byte : ℕ) (small : byte < 256) where
  zero_group :
      128 ≤ byte
      → i ≡ 0
      → q * 128 + byte % 128 ≡ 0
      → number_byte more i (q * 2 ^ 7) byte ≡ Reader.error tag_number_invalid
  zero_group lo first empty = ground (arith, push_group q byte, top_bit byte)

  wide_group :
      128 ≤ byte
      → 2 ^ 25 ≤ q * 128 + byte % 128
      → number_byte more i (q * 2 ^ 7) byte ≡ Reader.error tag_number_invalid
  wide_group lo wide =
      ground (arith, push_group q byte, top_bit byte, leading_zeros_few (q * 128 + byte % 128))

  low_number :
      byte < 128
      → q * 128 + byte < 31
      → number_byte more i (q * 2 ^ 7) byte ≡ Reader.error tag_number_invalid
  low_number h low = ground (arith, push_group q byte, top_bit byte)

  -- A round ends with the number, goes on with a number above 0, or is an error.
  number_byte_cases :
      (i ≡ 0) ⊎ (1 ≤ q)
      → (byte < 128)
          × (31 ≤ q * 128 + byte)
          × (number_byte more i (q * 2 ^ 7) byte ≡ Reader.return (q * 128 + byte))
        ⊎ (128 ≤ byte)
          × (1 ≤ q * 128 + byte % 128)
          × (q * 128 + byte % 128 < 2 ^ 25)
          × (number_byte more i (q * 2 ^ 7) byte ≡ more ((q * 128 + byte % 128) * 2 ^ 7))
        ⊎ (number_byte more i (q * 2 ^ 7) byte ≡ Reader.error tag_number_invalid)
  number_byte_cases started = elim (dec_lt byte 128) [
    | yes last ↦ elim (dec_lt (q * 128 + byte) 31) [
      | yes low ↦ inr (inr (low_number last low))
      | no high ↦ inl (last, omega arith, last_group more i q byte last (omega arith))
    ]
    | no on ↦ elim (dec_lt (q * 128 + byte % 128) (2 ^ 25)) [
      | no wide ↦ inr (inr (wide_group (omega arith) (omega arith)))
      | yes few ↦ elim (dec_lt 0 (q * 128 + byte % 128)) [
        | yes pos ↦
            inr (inl (omega arith, pos, few, inner_group more i q byte (omega arith) small pos few))
        | no nothing ↦ elim started [
          | inl first ↦ inr (inr (zero_group (omega arith) first (omega arith)))
          | inr above ↦ absurd (omega arith)
        ]
      ]
    ]
  ]

-- The bytes taken are the last groups of the number, whose higher part is `q`.
pub record Number (rounds q : ℕ) (r : SliceReader) (n : ℕ) (r' : SliceReader) : Type 0 where
  pub high : ℕ
  pub rest : List ℕ
  pub ready : Ready r (groups (suc high) n ++ rest)
  pub moved : r' ≡ skip r (suc high)
  pub above : n / 128 ^ suc high ≡ q
  pub few : high < rounds
  pub least : 31 ≤ n
  pub fits : n < 2 ^ 32
  pub top : 1 ≤ high → 1 ≤ n / 128 ^ high

module _ (r : SliceReader) (q byte : ℕ) (rest : List ℕ) (ready : Ready r (byte ∷ rest)) where
  last_Number :
      (rounds n : ℕ) (r' : SliceReader)
      → byte < 128
      → 31 ≤ q * 128 + byte
      → q < 2 ^ 25
      → Reader.return (q * 128 + byte) (skip r 1) ≡ (ok n, r')
      → Number (suc rounds) q r n r'
  last_Number rounds n r' last least small e =
      let value : n ≡ q * 128 + byte = ground arith in
      let digit : n % 128 ≡ byte = omega arith in
      record {
        high = 0;
        rest = rest;
        ready = rw digit ready;
        moved = sym (ap (λ p. p.1) e);
        above = omega arith;
        few = omega arith;
        least = omega arith;
        fits = omega arith;
        top = λ h. absurd (omega arith);
      }

  inner_Number :
      (rounds n : ℕ) (r' : SliceReader)
      → 128 ≤ byte
      → byte < 256
      → 1 ≤ q * 128 + byte % 128
      → Number rounds (q * 128 + byte % 128) (skip r 1) n r'
      → Number (suc rounds) q r n r'
  inner_Number rounds n r' lo hi pos t =
      let digit : n / 128 ^ suc t.high % 128 + 128 ≡ byte = omega (arith, t.above) in
      record {
        high = suc t.high;
        rest = t.rest;
        ready =
            rw digit (Ready-extend r (byte ∷ []) (groups (suc t.high) n) t.rest rest ready t.ready);
        moved = t.moved ∙ skip-skip r 1 (suc t.high) ∙ ap (skip r) (omega arith);
        above = div_suc_groups (suc t.high) n ∙ omega (arith, t.above);
        few = omega (arith, t.few);
        least = t.least;
        fits = t.fits;
        top = λ _. omega (arith, t.above);
      }

pub number_loop_ok :
    (rounds i q : ℕ) (r : SliceReader) (n : ℕ) (r' : SliceReader)
    → (i ≡ 0) ⊎ (1 ≤ q)
    → q < 2 ^ 25
    → IsValid r
    → All IsByte r.bytes
    → number_loop rounds i (q * 2 ^ 7) r ≡ (ok n, r')
    → Number rounds q r n r'
unfolding number_loop
number_loop_ok zero i q r n r' started small valid bytes e = cc
number_loop_ok (suc rounds) i q r n r' started small valid bytes e =
    let more = number_loop rounds (i + 1) in
    let (byte, s, read, later) = >>=-ok read_byte (number_byte more i (q * 2 ^ 7)) r e in
    let (rest, ready, moved) = read_byte_ok r valid read in
    let octet = (Ready-IsByte r (byte ∷ []) rest bytes ready).0 in
    let after : number_byte more i (q * 2 ^ 7) byte (skip r 1) ≡ (ok n, r') = rw (← moved) later in
    elim (number_byte_cases more i q byte octet started) [
      | inl (last, least, is) ↦
          last_Number r q byte rest ready rounds n r' last least small
            (sym (ap (λ m. m (skip r 1)) is) ∙ after)
      | inr (inl (lo, pos, few, is)) ↦ inner_Number r q byte rest ready rounds n r' lo octet pos (
          number_loop_ok rounds (i + 1) (q * 128 + byte % 128) (skip r 1) n r' (inr pos) few
            (Ready-skip r (byte ∷ []) rest ready).valid bytes
            (sym (ap (λ m. m (skip r 1)) is) ∙ after))
      | inr (inr is) ↦ cc (sym (ap (λ m. m (skip r 1)) is) ∙ after)
    ]

counted :
    (n high : ℕ)
    → high < 5
    → n / 128 ^ suc high ≡ 0
    → (1 ≤ high → 1 ≤ n / 128 ^ high)
    → group_count n ≡ suc high
unfolding group_count
counted n zero few above top = ground arith
counted n (suc zero) few above top = ground (arith, top (omega arith))
counted n (suc (suc zero)) few above top = ground (arith, top (omega arith))
counted n (suc (suc (suc zero))) few above top = ground (arith, top (omega arith))
counted n (suc (suc (suc (suc zero)))) few above top = ground (arith, top (omega arith))
counted n (suc (suc (suc (suc (suc k))))) few above top = absurd (omega arith)

-- From the start, the groups are those of the encoder.
pub number_ok :
    (r : SliceReader) (n : ℕ) (r' : SliceReader)
    → IsValid r
    → All IsByte r.bytes
    → number_loop 5 0 0 r ≡ (ok n, r')
    → (31 ≤ n)
      × (n < 2 ^ 32)
      × (rest : List ℕ) × Ready r (groups (group_count n) n ++ rest)
      × (r' ≡ skip r (length (groups (group_count n) n)))
number_ok r n r' valid bytes e =
    let t = number_loop_ok 5 0 0 r n r' (inl refl) (omega arith) valid bytes e in
    let count : group_count n ≡ suc t.high = counted n t.high t.few t.above t.top in
    (t.least, t.fits, t.rest, rw count t.ready, rw (length-groups (group_count n) n, count) t.moved)
