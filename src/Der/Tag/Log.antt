-- ===== src/Der/Tag/Log.antt =====
-- `ilog2` and `leading_zeros` in der/src/tag.rs, by their bounds.
use formats.Common.{ℕ, zero, suc, ◌+◌, ◌*◌, ◌/◌, ◌^◌, ◌≤◌, ◌<◌, ◌≡◌, arith, ltb, true, false}
use native.Mathlib.Nat.{pow-suc}
use formats.Common.Base128.{group_count}
use formats.Der.Tag.{ilog2_rounds, ilog2, leading_zeros}

pow_pos : (k : ℕ) → 1 ≤ 2 ^ k
pow_pos zero = omega arith
pow_pos (suc k) = omega (arith, pow-suc 2 k, pow_pos k)

ilog2_rounds_ge : (k rounds n : ℕ) → 2 ^ k ≤ n → k ≤ rounds → k ≤ ilog2_rounds rounds n
unfolding ilog2_rounds
ilog2_rounds_ge zero rounds n h r = omega arith
ilog2_rounds_ge (suc k) zero n h r = absurd (omega arith)
ilog2_rounds_ge (suc k) (suc rounds) n h r =
    let double : 2 ^ suc k ≡ 2 ^ k * 2 = pow-suc 2 k in
    let half : 2 ^ k ≤ n / 2 = omega arith in
    let big : 2 ≤ n = omega (arith, pow_pos k) in
    ground (arith, big, ilog2_rounds_ge k rounds (n / 2) half)

ilog2_rounds_le : (k rounds n : ℕ) → n < 2 ^ suc k → ilog2_rounds rounds n ≤ k
unfolding ilog2_rounds
ilog2_rounds_le k zero n h = omega arith
ilog2_rounds_le zero (suc rounds) n h = ground arith
ilog2_rounds_le (suc k) (suc rounds) n h =
    let double : 2 ^ suc (suc k) ≡ 2 ^ suc k * 2 = pow-suc 2 (suc k) in
    let half : n / 2 < 2 ^ suc k = omega arith in
    ground (arith, ilog2_rounds_le k rounds (n / 2) half)

pub ilog2_ge : (k n : ℕ) → 2 ^ k ≤ n → k ≤ 31 → k ≤ ilog2 n
unfolding ilog2
ilog2_ge k n = ilog2_rounds_ge k 31 n

pub ilog2_le : (k n : ℕ) → n < 2 ^ suc k → ilog2 n ≤ k
unfolding ilog2
ilog2_le k n = ilog2_rounds_le k 31 n

-- A number has fewer than seven leading zeroes if it takes 26 bits or more, and else not.
pub leading_zeros_few : (n : ℕ) → 2 ^ 25 ≤ n → ltb (leading_zeros n) 7 ≡ true
unfolding leading_zeros
leading_zeros_few n h = ground (arith, ilog2_ge 25 n h (omega arith))

pub leading_zeros_many : (n : ℕ) → n < 2 ^ 25 → ltb (leading_zeros n) 7 ≡ false
unfolding leading_zeros
leading_zeros_many n h = ground (arith, ilog2_le 24 n h)

pub group_count-ilog2 : (n : ℕ) → n < 2 ^ 32 → ilog2 n / 7 + 1 ≡ group_count n
unfolding group_count
group_count-ilog2 n h = ground (
  arith,
  ilog2_le 6 n,
  ilog2_ge 7 n,
  ilog2_le 13 n,
  ilog2_ge 14 n,
  ilog2_le 20 n,
  ilog2_ge 21 n,
  ilog2_le 27 n,
  ilog2_ge 28 n,
  ilog2_le 31 n,
)
