-- ===== src/Der/Length.antt =====
-- der/src/length.rs: the arithmetic of lengths and the shape of their encoding.
pub mod Arithmetic
pub mod Codec
use formats.Common.{
  ℕ, ◌+◌, ◌-◌, ◌^◌, ◌≤◌, ◌<◌, Bool, Option, none, some, ok, err, and_then, ltb, leb, ◌==◌,
  if◌then◌else◌,
}
use formats.Der.Data.{Length, DerResult, from_kind, overflow}

-- What a u32 holds.
abbrev pub IsLength : Length → Type 0
IsLength n = n < 2 ^ 32

-- `u32::MAX`
abbrev pub max_length : Length
max_length = 0xffff_ffff

unfoldable pub new_usize : ℕ → DerResult Length
new_usize len = if ltb max_length len then err (from_kind overflow) else ok len

-- `Add for Length` and `Sub for Length`: checked u32 arithmetic.
unfoldable pub add : Length → Length → DerResult Length
add a b = if leb (a + b) max_length then ok (a + b) else err (from_kind overflow)

unfoldable pub sub : Length → Length → DerResult Length
sub a b = if leb b a then ok (a - b) else err (from_kind overflow)

unfoldable pub saturating_add : Length → Length → Length
saturating_add a b = if leb (a + b) max_length then a + b else max_length

unfoldable pub saturating_sub : Length → Length → Length
saturating_sub a b = a - b

unfoldable pub initial_octet : Length → Option ℕ
initial_octet n =
    if leb n 0x7f
    then none
    else if leb n 0xff
    then some 0x81
    else if leb n 0xffff
    then some 0x82
    else if leb n 0xff_ffff
    then some 0x83
    else some 0x84

unfoldable pub encoded_len : Length → DerResult Length
encoded_len n =
    if leb n 0x7f
    then ok 1
    else if leb n 0xff
    then ok 2
    else if leb n 0xffff
    then ok 3
    else if leb n 0xff_ffff
    then ok 4
    else ok 5
