-- ===== src/Common/Int16.antt =====
-- An i16 as its two's complement in 16 bits, where the operations wrap around; the operands in the
-- code are small enough that no signed addition overflows.
use formats.Common.Tests.{ltb, if◌then◌else◌}
use formats.Common.Bits.{bit_or_shifted, bit_or_comm}
use mathlib.Core.Path.{◌≡◌, ap, ◌∙◌}
use native.Mathlib.Nat.{mod-eq_of_lt}
use native.Mathlib.Omega.{arith}
use Prim.Native.Nat.{ℕ, ◌+◌, ◌-◌, ◌*◌, ◌/◌, ◌%◌, ◌^◌, ◌<◌, bit_or}

abbrev pub add_i16 : ℕ → ℕ → ℕ
add_i16 a b = (a + b) % 2 ^ 16

abbrev pub sub_i16 : ℕ → ℕ → ℕ
sub_i16 a b = (a + (2 ^ 16 - b)) % 2 ^ 16

-- `x >> 8`, which copies the sign.
abbrev pub shift_i16 : ℕ → ℕ
shift_i16 x = if ltb x 0x8000 then x / 2 ^ 8 else x / 2 ^ 8 + 0xff00

-- `x >> k` for up to 16 places.
abbrev pub shift_right : ℕ → ℕ → ℕ
shift_right k x = if ltb x 0x8000 then x / 2 ^ k else x / 2 ^ k + (2 ^ 16 - 2 ^ (16 - k))

-- `x << k`
abbrev pub shift_left : ℕ → ℕ → ℕ
shift_left k x = x * 2 ^ k % 2 ^ 16

-- The starting value -1.
abbrev pub minus_one : ℕ
minus_one = 0xffff

pub shift_right_small : (k x : ℕ) → x < 0x8000 → shift_right k x ≡ x / 2 ^ k
shift_right_small k x h = ground arith

-- Bits above and below.
pub join : (k a b : ℕ) → a * 2 ^ k < 2 ^ 16 → b < 2 ^ k → bit_or (shift_left k a) b ≡ a * 2 ^ k + b
join k a b h below = ap (λ n. bit_or n b) (mod-eq_of_lt h) ∙ bit_or_shifted k a b below

pub join_under :
    (k a b : ℕ) → a * 2 ^ k < 2 ^ 16 → b < 2 ^ k → bit_or b (shift_left k a) ≡ a * 2 ^ k + b
join_under k a b h below = bit_or_comm b (shift_left k a) ∙ join k a b h below
