-- ===== src/Common/Base128.antt =====
-- Numbers in groups of seven bits, the base 128 of the tag numbers of `der` and the arcs of `const-oid`.
use Prim.Native.Nat.{ℕ, zero, suc, ◌+◌, ◌*◌, ◌/◌, ◌%◌, ◌^◌, ◌≤◌, ◌<◌, bit_and, bit_or}
use mathlib.Core.Path.{◌≡◌, refl, sym, ap, ◌∙◌}
use mathlib.Core.List.{List, [], ◌∷◌}
use native.Mathlib.Omega.{arith}
use native.Mathlib.Decide.{dec_lt}
use native.Mathlib.Nat.{div-div-eq-div-mul, div-lt_iff_lt-mul, pow-suc}
use native.Mathlib.Numerals.{towards_suc}
use formats.Common.Tests.{ltb, if◌then◌else◌}
use formats.Common.Lists.{length}
use formats.Common.Bits.{agree_below, bit_and_0x7f}

-- How many groups of seven bits the number takes.
unfoldable pub group_count : ℕ → ℕ
group_count n =
    if ltb n 0x80
    then 1
    else if ltb n 0x4000
    then 2
    else if ltb n 0x20_0000
    then 3
    else if ltb n 0x1000_0000
    then 4
    else 5

-- The last `k` groups of seven bits, highest first, each but the last with the top bit set.
abbrev pub groups : ℕ → ℕ → List ℕ
groups zero n = []
groups (suc zero) n = n % 128 ∷ []
groups (suc (suc k)) n = (n / 128 ^ suc k % 128 + 128) ∷ groups (suc k) n

pub length-groups : (k n : ℕ) → length (groups k n) ≡ k
length-groups zero n = refl
length-groups (suc zero) n = refl
length-groups (suc (suc k)) n = ap suc (length-groups (suc k) n)

-- The shift by `7 * k` bits in base 128.
pub shift_groups : (k : ℕ) → 2 ^ (k * 7) ≡ 128 ^ k
shift_groups zero = omega arith
shift_groups (suc k) =
    let split : suc k * 7 ≡ k * 7 + 7 = omega arith in
    let bits : 2 ^ (k * 7 + 7) ≡ 128 * 2 ^ (k * 7) = simp towards_suc (omega arith) in
    ap (λ t. 2 ^ t) split ∙ bits ∙ omega (arith, shift_groups k, pow-suc 128 k)

pub low_group : (k n : ℕ) → bit_and (n / 2 ^ (k * 7)) 0x7f ≡ n / 128 ^ k % 128
low_group k n = ap (λ t. bit_and (n / t) 0x7f) (shift_groups k) ∙ bit_and_0x7f (n / 128 ^ k)

pub set_top : (x : ℕ) → x < 128 → bit_or x 0x80 ≡ x + 128
set_top x h = agree_below 128 (λ y. bit_or y 0x80) (λ y. y + 128) refl x h

pub top_bit : (b : ℕ) → b < 256 → bit_and b 0x80 ≡ b / 128 * 128
top_bit b h = agree_below 256 (λ y. bit_and y 0x80) (λ y. y / 128 * 128) refl b h

pub pow128_pos : (k : ℕ) → 1 ≤ 128 ^ k
pow128_pos zero = omega arith
pow128_pos (suc k) = omega (arith, pow-suc 128 k, pow128_pos k)

pub div_suc_groups : (j n : ℕ) → n / 128 ^ suc j ≡ n / 128 ^ j / 128
div_suc_groups j n = ap (λ t. n / t) (pow-suc 128 j) ∙ sym (div-div-eq-div-mul n (128 ^ j) 128)

-- One group more of the number.
pub next_group : (j n : ℕ) → n / 128 ^ suc j * 128 + n / 128 ^ j % 128 ≡ n / 128 ^ j
next_group j n = omega (arith, div_suc_groups j n)

-- The groups that a u32 takes are enough, and no fewer are.
pub record Groups (n : ℕ) : Type 0 where
  pub high : ℕ
  pub count : group_count n ≡ suc high
  pub few : high < 5
  pub top : 1 ≤ n → 128 ^ high ≤ n
  pub whole : n / 128 ^ suc high ≡ 0

pub group_count-Groups : (n : ℕ) → n < 2 ^ 32 → Groups n
unfolding group_count
group_count-Groups n hi = elim (dec_lt n 0x80) [
  | yes a ↦ record {
    high = 0;
    count = ground arith;
    few = omega arith;
    top = λ pos. pos;
    whole = omega arith;
  }
  | no a ↦ elim (dec_lt n 0x4000) [
    | yes b ↦ record {
      high = 1;
      count = ground arith;
      few = omega arith;
      top = λ _. omega arith;
      whole = omega arith;
    }
    | no b ↦ elim (dec_lt n 0x20_0000) [
      | yes c ↦ record {
        high = 2;
        count = ground arith;
        few = omega arith;
        top = λ _. omega arith;
        whole = omega arith;
      }
      | no c ↦ elim (dec_lt n 0x1000_0000) [
        | yes d ↦ record {
          high = 3;
          count = ground arith;
          few = omega arith;
          top = λ _. omega arith;
          whole = omega arith;
        }
        | no d ↦ record {
          high = 4;
          count = ground arith;
          few = omega arith;
          top = λ _. omega arith;
          whole = omega arith;
        }
      ]
    ]
  ]
]

pub group_count_le : (high n : ℕ) → n < 128 ^ suc high → group_count n ≤ suc high
unfolding group_count
group_count_le zero n h = ground arith
group_count_le (suc zero) n h = ground arith
group_count_le (suc (suc zero)) n h = ground arith
group_count_le (suc (suc (suc zero))) n h = ground arith
group_count_le (suc (suc (suc (suc k)))) n h = ground arith

pub below_of_div : (n high : ℕ) → n / 128 ^ suc high ≡ 0 → n < 128 ^ suc high
below_of_div n high h =
    let under : n < 1 * 128 ^ suc high =
      (div-lt_iff_lt-mul (pow128_pos (suc high))).0 (omega arith) in
    omega arith
