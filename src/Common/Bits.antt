-- ===== src/Common/Bits.antt =====
-- `&` and `|` on numbers of any width, one binary digit at a time, and tables over one byte.
use Prim.Native.Nat.{
  ℕ, zero, suc, ◌+◌, ◌-◌, ◌*◌, ◌/◌, ◌%◌, ◌^◌, ◌≤◌, ◌<◌, min, max, bit_and, bit_or, digits,
  bit_and-bitwise, bit_or-bitwise,
}
use mathlib.Core.Path.{◌≡◌, refl, sym, ap, ◌∙◌}
use mathlib.Core.Bool.{Bool, true, false}
use native.Mathlib.Omega.{arith}
use native.Mathlib.Nat.{pow-suc}
use formats.Common.Tests.{◌==◌, ==→eq, if◌then◌else◌}

-- A test of every number below a bound, which evaluation decides.
abbrev pub holds_below : (ℕ → Bool) → ℕ → Bool
holds_below test zero = true
holds_below test (suc n) = let rest = holds_below test n in if test n then rest else false

pub holds_below_at : (test : ℕ → Bool) (n x : ℕ) → x < n → holds_below test n ≡ true → test x ≡ true
holds_below_at test zero x lt all = absurd (omega arith)
holds_below_at test (suc n) x lt all = ground (arith, holds_below_at test n x)

-- Two functions that agree below a bound by evaluation agree at every number below it.
pub agree_below :
    (n : ℕ) (f g : ℕ → ℕ) → holds_below (λ x. f x == g x) n ≡ true → (x : ℕ) → x < n → f x ≡ g x
agree_below n f g all x lt = ==→eq (f x) (g x) (holds_below_at (λ y. f y == g y) n x lt all)

-- The native operations stand for a recursion on digits that is cut off at the first number; more
-- rounds than that change nothing.
module _ (past : ℕ → ℕ) (one : ℕ → ℕ → ℕ) where
  round_more : (n a b : ℕ) → a ≤ n → digits past one (suc n) a b ≡ digits past one n a b
  round_more zero zero b h = refl
  round_more (suc n) zero b h = refl
  round_more zero (suc a) b h = absurd (omega arith)
  round_more (suc n) (suc a) b h =
      ap (λ k. k * 2 + one (suc a % 2) (b % 2)) (round_more n (suc a / 2) (b / 2) (omega arith))

  rounds_more : (d n m a b : ℕ) → a ≤ n → m ≡ n + d → digits past one m a b ≡ digits past one n a b
  rounds_more zero n m a b h e =
      let same : m ≡ n = omega arith in ap (λ k. digits past one k a b) same
  rounds_more (suc d) n zero a b h e = absurd (omega arith)
  rounds_more (suc d) n (suc m) a b h e =
      round_more m a b (omega arith) ∙ rounds_more d n m a b h (omega arith)

  halved :
      (a b : ℕ)
      → digits past one a (suc a / 2) (b / 2) ≡ digits past one (suc a / 2) (suc a / 2) (b / 2)
  halved a b = let k = suc a / 2 in rounds_more (a - k) k a k (b / 2) (omega arith) (omega arith)

zero_and : (b : ℕ) → bit_and 0 b ≡ 0
zero_and = bit_and-bitwise 0

pub zero_or : (b : ℕ) → bit_or 0 b ≡ b
zero_or = bit_or-bitwise 0

-- The lowest digit of both, apart from the others.
and_low : (a b : ℕ) → bit_and a b ≡ bit_and (a / 2) (b / 2) * 2 + min (a % 2) (b % 2)
and_low zero b = omega (arith, zero_and b, zero_and (b / 2))
and_low (suc a) b =
    bit_and-bitwise (suc a) b
    ∙ ap (λ k. k * 2 + min (suc a % 2) (b % 2))
        (halved (λ _. zero) min a b ∙ sym (bit_and-bitwise (suc a / 2) (b / 2)))

or_low : (a b : ℕ) → bit_or a b ≡ bit_or (a / 2) (b / 2) * 2 + max (a % 2) (b % 2)
or_low zero b = omega (arith, zero_or b, zero_or (b / 2))
or_low (suc a) b =
    bit_or-bitwise (suc a) b
    ∙ ap (λ k. k * 2 + max (suc a % 2) (b % 2))
        (halved (λ x. x) max a b ∙ sym (bit_or-bitwise (suc a / 2) (b / 2)))

or_zero_below : (n a : ℕ) → a < n → bit_or a 0 ≡ a
or_zero_below zero a h = absurd (omega arith)
or_zero_below (suc n) zero h = zero_or 0
or_zero_below (suc n) (suc a) h = omega (arith, or_low (suc a) 0, or_zero_below n (suc a / 2))

and_zero_below : (n a : ℕ) → a < n → bit_and a 0 ≡ 0
and_zero_below zero a h = absurd (omega arith)
and_zero_below (suc n) zero h = zero_and 0
and_zero_below (suc n) (suc a) h = omega (arith, and_low (suc a) 0, and_zero_below n (suc a / 2))

pub or_zero : (a : ℕ) → bit_or a 0 ≡ a
or_zero a = or_zero_below (suc a) a (omega arith)

pub and_zero : (a : ℕ) → bit_and a 0 ≡ 0
and_zero a = and_zero_below (suc a) a (omega arith)

-- No digit of either gets lost.
or_ge_below : (n a b : ℕ) → a + b < n → (a ≤ bit_or a b) × (b ≤ bit_or a b)
or_ge_below zero a b h = absurd (omega arith)
or_ge_below (suc n) zero zero h = (omega arith, omega arith)
or_ge_below (suc n) zero (suc b) h = (omega arith, omega (arith, zero_or (suc b)))
or_ge_below (suc n) (suc a) b h =
    let (l, r) = or_ge_below n (suc a / 2) (b / 2) (omega arith) in
    (omega (arith, or_low (suc a) b, l), omega (arith, or_low (suc a) b, r))

pub bit_or_ge : (a b : ℕ) → (a ≤ bit_or a b) × (b ≤ bit_or a b)
bit_or_ge a b = or_ge_below (suc (a + b)) a b (omega arith)

or_comm_below : (n a b : ℕ) → a + b < n → bit_or a b ≡ bit_or b a
or_comm_below zero a b h = absurd (omega arith)
or_comm_below (suc n) zero zero h = refl
or_comm_below (suc n) (suc a) b h =
    omega (arith, or_low (suc a) b, or_low b (suc a), or_comm_below n (suc a / 2) (b / 2))
or_comm_below (suc n) zero (suc b) h =
    omega (arith, or_low 0 (suc b), or_low (suc b) 0, or_comm_below n 0 (suc b / 2))

pub bit_or_comm : (a b : ℕ) → bit_or a b ≡ bit_or b a
bit_or_comm a b = or_comm_below (suc (a + b)) a b (omega arith)

-- No digit appears that neither has.
pub bit_or_lt : (k a b : ℕ) → a < 2 ^ k → b < 2 ^ k → bit_or a b < 2 ^ k
bit_or_lt zero a b h l = let none : a ≡ 0 = omega arith in rw none (omega (arith, zero_or b))
bit_or_lt (suc k) a b h l =
    let double : 2 ^ suc k ≡ 2 ^ k * 2 = pow-suc 2 k in
    omega (arith, or_low a b, bit_or_lt k (a / 2) (b / 2) (omega arith) (omega arith))

-- `(a << k) | b` with `b` below `2 ^ k` is a sum.
pub bit_or_shifted : (k a b : ℕ) → b < 2 ^ k → bit_or (a * 2 ^ k) b ≡ a * 2 ^ k + b
bit_or_shifted zero a b h =
    let e : b ≡ 0 = omega arith in
    rw e (or_zero_below (suc (a * 1)) (a * 1) (omega arith) ∙ omega arith)
bit_or_shifted (suc k) a b h =
    let double : 2 ^ suc k ≡ 2 ^ k * 2 = pow-suc 2 k in
    let whole : a * 2 ^ suc k ≡ (a * 2 ^ k) * 2 = omega (arith, ap (λ (t : ℕ). a * t) double) in
    let ih : bit_or (a * 2 ^ k) (b / 2) ≡ a * 2 ^ k + b / 2 =
      bit_or_shifted k a (b / 2) (omega arith) in
    let half : (a * 2 ^ suc k) / 2 ≡ a * 2 ^ k = omega arith in
    or_low (a * 2 ^ suc k) b ∙ rw half (rw ih (omega arith))

-- Masks of ones, each from the one before.
mask_suc : (a m : ℕ) → bit_and a (m * 2 + 1) ≡ bit_and (a / 2) m * 2 + a % 2
mask_suc a m =
    let half : (m * 2 + 1) / 2 ≡ m = omega arith in and_low a (m * 2 + 1) ∙ rw half (omega arith)

pub bit_and_0x1 : (a : ℕ) → bit_and a 0x1 ≡ a % 2
bit_and_0x1 a = omega (arith, mask_suc a 0, and_zero_below (suc (a / 2)) (a / 2))

mask_0x7 : (a : ℕ) → bit_and a 0x7 ≡ a % 8
mask_0x7 a = omega (arith, mask_suc a 3, mask_suc (a / 2) 1, bit_and_0x1 (a / 2 / 2))

pub bit_and_0x1f : (a : ℕ) → bit_and a 0x1f ≡ a % 32
bit_and_0x1f a = omega (arith, mask_suc a 15, mask_suc (a / 2) 7, mask_0x7 (a / 2 / 2))

pub bit_and_0x7f : (a : ℕ) → bit_and a 0x7f ≡ a % 128
bit_and_0x7f a = omega (arith, mask_suc a 63, mask_suc (a / 2) 31, bit_and_0x1f (a / 2 / 2))

pub bit_and_0x3 : (a : ℕ) → bit_and a 0x3 ≡ a % 4
bit_and_0x3 a = omega (arith, mask_suc a 1, bit_and_0x1 (a / 2))

pub bit_and_0xf : (a : ℕ) → bit_and a 0xf ≡ a % 16
bit_and_0xf a = omega (arith, mask_suc a 7, mask_0x7 (a / 2))

pub bit_and_0x3f : (a : ℕ) → bit_and a 0x3f ≡ a % 64
bit_and_0x3f a = omega (arith, mask_suc a 31, bit_and_0x1f (a / 2))

pub bit_and_0xff : (a : ℕ) → bit_and a 0xff ≡ a % 256
bit_and_0xff a = omega (arith, mask_suc a 127, bit_and_0x7f (a / 2))
