-- ===== src/Base16/Digits.antt =====
-- One hexadecimal digit in base16ct/src/lower.rs, upper.rs and mixed.rs, against ranges of characters.
use formats.Common.{
  ℕ, ◌+◌, ◌-◌, ◌<◌, ◌≡◌, refl, arith, ◌⊎◌, Bool, true, ◌&&◌, leb, ◌==◌, if◌then◌else◌, IsByte,
  ==→eq,
}
use formats.Common.Bits.{agree_below, holds_below, holds_below_at}
use formats.Base16.Nibbles.{
  lower_decode_nibble, upper_decode_nibble, mixed_decode_nibble, lower_encode_nibble,
  upper_encode_nibble,
}

abbrev pub within : ℕ → ℕ → ℕ → Bool
within low high c = leb low c && leb c high

-- `0xffff`, the -1 of the code, marks what is no digit.
abbrev pub lower_value : ℕ → ℕ
lower_value c =
    if within 0x30 0x39 c then c - 0x30 else if within 0x61 0x66 c then c - 0x61 + 10 else 0xffff

abbrev pub upper_value : ℕ → ℕ
upper_value c =
    if within 0x30 0x39 c then c - 0x30 else if within 0x41 0x46 c then c - 0x41 + 10 else 0xffff

abbrev pub mixed_value : ℕ → ℕ
mixed_value c =
    if within 0x30 0x39 c
    then c - 0x30
    else if within 0x41 0x46 c
    then c - 0x41 + 10
    else if within 0x61 0x66 c
    then c - 0x61 + 10
    else 0xffff

-- On every byte the three decoders give the value of the hexadecimal digit, in lower case, upper case
-- or either, and 0xffff where it is none.
pub decode_nibble-value :
    (c : ℕ)
    → IsByte c
    → (lower_decode_nibble c ≡ lower_value c)
      × (upper_decode_nibble c ≡ upper_value c)
      × (mixed_decode_nibble c ≡ mixed_value c)
unfolding lower_decode_nibble upper_decode_nibble mixed_decode_nibble
decode_nibble-value c h = (
  agree_below 256 lower_decode_nibble lower_value refl c h,
  agree_below 256 upper_decode_nibble upper_value refl c h,
  agree_below 256 mixed_decode_nibble mixed_value refl c h,
)

-- What the round trips need of a decoder and an encoder of digits.
pub record IsDigits (decode_nibble encode_nibble : ℕ → ℕ) : Type 0 where
  pub inverse : (n : ℕ) → n < 16 → decode_nibble (encode_nibble n) ≡ n
  pub byte : (n : ℕ) → n < 16 → IsByte (encode_nibble n)

abbrev pub IsNibbles : (ℕ → ℕ) → Type 0
IsNibbles decode_nibble = (c : ℕ) → IsByte c → (decode_nibble c < 16) ⊎ (decode_nibble c ≡ 0xffff)

-- Each value has one digit.
abbrev pub IsOnly : (ℕ → ℕ) → (ℕ → ℕ) → Type 0
IsOnly decode_nibble encode_nibble =
    (c : ℕ) → IsByte c → decode_nibble c < 16 → encode_nibble (decode_nibble c) ≡ c

inverse_table :
    (d e : ℕ → ℕ) → holds_below (λ n. d (e n) == n) 16 ≡ true → (n : ℕ) → n < 16 → d (e n) ≡ n
inverse_table d e all n h = ==→eq (d (e n)) n (holds_below_at (λ k. d (e k) == k) 16 n h all)

IsByte-table :
    (e : ℕ → ℕ) → holds_below (λ n. leb (e n) 255) 16 ≡ true → (n : ℕ) → n < 16 → IsByte (e n)
IsByte-table e all n h = let small = holds_below_at (λ k. leb (e k) 255) 16 n h all in ground arith

pub lower-IsDigits : IsDigits lower_decode_nibble lower_encode_nibble
unfolding lower_decode_nibble lower_encode_nibble
lower-IsDigits = record {
  inverse = inverse_table lower_decode_nibble lower_encode_nibble refl;
  byte = IsByte-table lower_encode_nibble refl;
}

pub upper-IsDigits : IsDigits upper_decode_nibble upper_encode_nibble
unfolding upper_decode_nibble upper_encode_nibble
upper-IsDigits = record {
  inverse = inverse_table upper_decode_nibble upper_encode_nibble refl;
  byte = IsByte-table upper_encode_nibble refl;
}

pub mixed_lower-IsDigits : IsDigits mixed_decode_nibble lower_encode_nibble
unfolding mixed_decode_nibble lower_encode_nibble
mixed_lower-IsDigits = record {
  inverse = inverse_table mixed_decode_nibble lower_encode_nibble refl;
  byte = IsByte-table lower_encode_nibble refl;
}

pub mixed_upper-IsDigits : IsDigits mixed_decode_nibble upper_encode_nibble
unfolding mixed_decode_nibble upper_encode_nibble
mixed_upper-IsDigits = record {
  inverse = inverse_table mixed_decode_nibble upper_encode_nibble refl;
  byte = IsByte-table upper_encode_nibble refl;
}

pub lower-IsNibbles : IsNibbles lower_decode_nibble
lower-IsNibbles c h = let same = (decode_nibble-value c h).0 in ground arith

pub upper-IsNibbles : IsNibbles upper_decode_nibble
upper-IsNibbles c h = let same = (decode_nibble-value c h).1 in ground arith

pub mixed-IsNibbles : IsNibbles mixed_decode_nibble
mixed-IsNibbles c h = let same = (decode_nibble-value c h).2 in ground arith

leb_digit : (n : ℕ) → n < 16 → leb n 15 ≡ true
leb_digit n h = ground arith

IsOnly-table :
    (d e : ℕ → ℕ)
    → holds_below (λ c. if leb (d c) 15 then e (d c) == c else true) 256 ≡ true
    → IsOnly d e
IsOnly-table d e all c h small =
    let digit = leb_digit (d c) small in
    let one = holds_below_at (λ k. if leb (d k) 15 then e (d k) == k else true) 256 c h all in
    ==→eq (e (d c)) c (rw digit at one)

pub lower-IsOnly : IsOnly lower_decode_nibble lower_encode_nibble
unfolding lower_decode_nibble lower_encode_nibble
lower-IsOnly = IsOnly-table lower_decode_nibble lower_encode_nibble refl

pub upper-IsOnly : IsOnly upper_decode_nibble upper_encode_nibble
unfolding upper_decode_nibble upper_encode_nibble
upper-IsOnly = IsOnly-table upper_decode_nibble upper_encode_nibble refl
