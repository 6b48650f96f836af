-- ===== src/Oid/Data.antt =====
-- const-oid/src/error.rs, arcs.rs, checked.rs and buffer.rs: the data that the parts share. An array of
-- `MAX_SIZE` bytes is a list of that length. The checks of the sums of positions are left out
-- but in Oid.Arcs.Checked.
use formats.Common.{
  ℕ, ◌+◌, ◌-◌, ◌*◌, ◌^◌, Option, none, some, List, Result, ok, err, ltb, if◌then◌else◌, take,
}
pub use formats.Common.{◌>>=◌, ok_inj, err_inj, >>=-ok, >>=-err, >>=_assoc, >>=_same}

-- A u32.
abbrev pub Arc : Type 0
Arc = ℕ

pub data OidError : Type 0 where
  arc_invalid : Arc → OidError
  arc_too_big base128 : OidError
  digit_expected : ℕ → OidError
  empty length_error overflow repeated_dot trailing_dot : OidError

abbrev pub OidResult : Type 0 → Type 0
OidResult A = Result A OidError

-- `u32::checked_add` and `u32::checked_mul`
abbrev pub checked_add : ℕ → ℕ → Option ℕ
checked_add a b = if ltb (a + b) (2 ^ 32) then some (a + b) else none

abbrev pub checked_mul : ℕ → ℕ → Option ℕ
checked_mul a b = if ltb (a * b) (2 ^ 32) then some (a * b) else none

-- The macros of checked.rs, which return from the function on an overflow.
abbrev pub or_overflow : Option ℕ → OidResult ℕ
or_overflow none = err overflow
or_overflow (some n) = ok n

abbrev pub checked_sub : ℕ → ℕ → OidResult ℕ
checked_sub a b = if ltb a b then err overflow else ok (a - b)

abbrev pub arc_max_first : Arc
arc_max_first = 2

abbrev pub arc_max_second : Arc
arc_max_second = 39

-- The length is a u8.
pub record Buffer : Type 0 where
  pub length : ℕ
  pub bytes : List ℕ

unfoldable pub buffer_as_bytes : Buffer → List ℕ
buffer_as_bytes b = take b.length b.bytes
