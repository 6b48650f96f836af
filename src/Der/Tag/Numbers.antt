-- ===== src/Der/Tag/Numbers.antt =====
-- The long form of a tag number: what the loop of `parse_parts` reads.
use formats.Common.{
  ℕ, zero, suc, ◌+◌, ◌*◌, ◌/◌, ◌%◌, ◌^◌, ◌≤◌, ◌<◌, ◌≡◌, sym, ap, ◌∙◌, arith, [], ◌∷◌, bit_and,
  bit_or,
}
use formats.Common.Bits.{bit_or_shifted, bit_and_0x7f}
use native.Mathlib.Nat.{div-div-eq-div-mul, pow-suc, pow-succ', div-le_self, le-div_iff_mul-le}
use mathlib.Core.Path.{subst}
use formats.Common.Base128.{groups, top_bit, pow128_pos, next_group}
use formats.Der.Data.{TagNumber}
use formats.Der.Reader
use formats.Der.Reader.{Decoder, read_byte}
use formats.Der.Reader.Ready.{Reads, Reads-bind, Reads-end, Reads-eq, return-Reads}
use formats.Der.Reader.Slices.{read_byte-Reads}
use formats.Der.Tag.{number_byte, number_loop}
use formats.Der.Tag.Log.{leading_zeros_many}

-- `multi_byte_tag_number |= byte & 0x7F` behind a shift by seven.
pub push_group : (q byte : ℕ) → bit_or (q * 2 ^ 7) (bit_and byte 0x7f) ≡ q * 128 + byte % 128
push_group q byte = rw (bit_and_0x7f byte) (bit_or_shifted 7 q (byte % 128) (omega arith))

pub last_group :
    (more : ℕ → Decoder TagNumber) (i q byte : ℕ)
    → byte < 128
    → 31 ≤ q * 128 + byte
    → number_byte more i (q * 2 ^ 7) byte ≡ Reader.return (q * 128 + byte)
last_group more i q byte h lo = ground (arith, push_group q byte, top_bit byte)

pub inner_group :
    (more : ℕ → Decoder TagNumber) (i q byte : ℕ)
    → 128 ≤ byte
    → byte < 256
    → 1 ≤ q * 128 + byte % 128
    → q * 128 + byte % 128 < 2 ^ 25
    → number_byte more i (q * 2 ^ 7) byte ≡ more ((q * 128 + byte % 128) * 2 ^ 7)
inner_group more i q byte lo hi some few =
    ground (arith, push_group q byte, top_bit byte, leading_zeros_many (q * 128 + byte % 128))

-- Read from the first group on, the groups of a number give that number.
pub number_loop-Reads :
    (j rounds i n : ℕ)
    → j < rounds
    → 31 ≤ n
    → n < 2 ^ 32
    → 128 ^ j ≤ n
    → Reads (number_loop rounds i (n / 128 ^ suc j * 2 ^ 7)) (groups (suc j) n) n
unfolding number_loop
number_loop-Reads j zero i n few lo hi top = absurd (omega arith)
number_loop-Reads zero (suc rounds) i n few lo hi top =
    let byte : ℕ = n % 128 in
    let whole : n / 128 ^ 1 * 128 + byte ≡ n = omega arith in
    Reads-end read_byte (number_byte (number_loop rounds (i + 1)) i (n / 128 ^ 1 * 2 ^ 7))
      (byte ∷ []) byte n (read_byte-Reads byte)
      (Reads-eq [] n
        (last_group (number_loop rounds (i + 1)) i (n / 128 ^ 1) byte (omega arith) (omega arith)
          ∙ ap Reader.return whole)
        (return-Reads n))
number_loop-Reads (suc j) (suc rounds) i n few lo hi top =
    let byte : ℕ = n / 128 ^ suc j % 128 + 128 in
    let q : ℕ = n / 128 ^ suc (suc j) in
    let low : byte % 128 ≡ n / 128 ^ suc j % 128 = omega arith in
    let value : q * 128 + byte % 128 ≡ n / 128 ^ suc j =
      ap (λ t. q * 128 + t) low ∙ next_group (suc j) n in
    let shrink : n / 128 ^ suc j ≤ n / 128 =
      subst (λ t. t ≤ n / 128)
        (div-div-eq-div-mul n 128 (128 ^ j) ∙ ap (λ t. n / t) (sym (pow-succ' 128 j)))
        (div-le_self (n / 128) (128 ^ j)) in
    let some : 1 ≤ n / 128 ^ suc j = (le-div_iff_mul-le (pow128_pos (suc j))).1 (omega arith) in
    let inner : number_byte (number_loop rounds (i + 1)) i (q * 2 ^ 7) byte
        ≡ number_loop rounds (i + 1) (n / 128 ^ suc j * 2 ^ 7) =
      inner_group (number_loop rounds (i + 1)) i q byte (omega arith) (omega arith) (omega arith)
        (omega arith)
      ∙ ap (λ t. number_loop rounds (i + 1) (t * 2 ^ 7)) value in
    Reads-bind read_byte (number_byte (number_loop rounds (i + 1)) i (q * 2 ^ 7)) (byte ∷ [])
      (groups (suc j) n) byte n (read_byte-Reads byte)
      (Reads-eq (groups (suc j) n) n inner
        (number_loop-Reads j rounds (i + 1) n (omega arith) lo hi (omega (arith, pow-suc 128 j))))
