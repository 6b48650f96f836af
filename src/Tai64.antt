-- ===== src/Tai64.antt =====
-- The crate `tai64`: tai64/src/lib.rs. A u64 or u32 is a natural number below 2 ^ 64 or 2 ^ 32, an
-- i64 its two's complement. An operation that overflows is `none`: the panic of a build with overflow
-- checks. A `SystemTime` is its distance from `UNIX_EPOCH`; how far a platform lets it go is not
-- modelled, and neither is `now`.
pub mod Arithmetic
pub mod Bytes
use formats.Common.{
  ℕ, ◌+◌, ◌-◌, ◌*◌, ◌%◌, ◌^◌, ◌<◌, Bool, true, false, Option, none, some, List, ◌++◌, Result, ok,
  err, ltb, leb, ◌==◌, if◌then◌else◌, length, take, drop,
}
use formats.Common.BigEndian.{be_bytes, be_number}

-- `Tai64`: seconds.
abbrev pub Tai64 : Type 0
Tai64 = ℕ

pub record Tai64N : Type 0 where
  pub secs : Tai64
  pub nanos : ℕ

-- `core::time::Duration`
pub record Duration : Type 0 where
  pub as_secs : ℕ
  pub subsec_nanos : ℕ

pub data TaiError : Type 0 where
  length_invalid nanos_invalid : TaiError

abbrev pub nanos_per_second : ℕ
nanos_per_second = 1_000_000_000

-- `Tai64::UNIX_EPOCH`
abbrev pub unix_epoch : Tai64
unix_epoch = 37 + 2 ^ 62

abbrev checked_add : ℕ → ℕ → ℕ → Option ℕ
checked_add bound a b = if ltb (a + b) bound then some (a + b) else none

abbrev checked_sub : ℕ → ℕ → Option ℕ
checked_sub a b = if leb b a then some (a - b) else none

-- `secs + 10 + (1 << 62)` in i64: only a number that is not negative can overflow.
unfoldable pub from_unix : ℕ → Option Tai64
from_unix secs =
    if ltb secs (2 ^ 63)
    then (if ltb (secs + 10 + 2 ^ 62) (2 ^ 63) then some (secs + 10 + 2 ^ 62) else none)
    else some ((secs + 10 + 2 ^ 62) % 2 ^ 64)

-- `(self.0 as i64) - (10 + (1 << 62))`: only a negative number can overflow.
unfoldable pub to_unix : Tai64 → Option ℕ
to_unix t =
    if ltb t (2 ^ 63)
    then some ((t + (2 ^ 64 - (10 + 2 ^ 62))) % 2 ^ 64)
    else if ltb (t - (10 + 2 ^ 62)) (2 ^ 63)
    then none
    else some (t - (10 + 2 ^ 62))

unfoldable pub to_bytes : Tai64 → List ℕ
to_bytes t = be_bytes 8 t

unfoldable pub from_slice : List ℕ → Result Tai64 TaiError
from_slice slice = if length slice == 8 then ok (be_number 0 slice) else err length_invalid

-- `From<Tai64N> for [u8; 12]`
unfoldable pub to_bytes_nanos : Tai64N → List ℕ
unfolding to_bytes
to_bytes_nanos t = to_bytes t.secs ++ be_bytes 4 t.nanos

-- `TryFrom<[u8; 12]> for Tai64N`
abbrev from_parts : Result Tai64 TaiError → ℕ → Result Tai64N TaiError
from_parts (ok secs) nanos =
    if ltb nanos nanos_per_second
    then ok (record { secs = secs; nanos = nanos })
    else err nanos_invalid
from_parts (err e) nanos = err e

unfoldable pub from_slice_nanos : List ℕ → Result Tai64N TaiError
unfolding from_slice
from_slice_nanos slice =
    if length slice == 12
    then from_parts (from_slice (take 8 slice)) (be_number 0 (drop 8 slice))
    else err length_invalid

-- `Tai64N + Duration`
abbrev plus_secs : Option ℕ → ℕ → ℕ → Option Tai64N
plus_secs none carry n = none
plus_secs (some s) carry n = elim (checked_add (2 ^ 64) s carry) [
  | none ↦ none
  | some t ↦ some (record { secs = t; nanos = n })
]

abbrev plus_nanos : Option ℕ → Tai64N → Duration → Option Tai64N
plus_nanos none t d = none
plus_nanos (some n) t d =
    if leb nanos_per_second n
    then plus_secs (checked_add (2 ^ 64) t.secs d.as_secs) 1 (n - nanos_per_second)
    else plus_secs (checked_add (2 ^ 64) t.secs d.as_secs) 0 n

unfoldable pub add : Tai64N → Duration → Option Tai64N
add t d = plus_nanos (checked_add (2 ^ 32) t.nanos d.subsec_nanos) t d

-- `NANOS_PER_SECOND + a - b` in u32.
abbrev borrowed : ℕ → ℕ → Option ℕ
borrowed a b = elim (checked_add (2 ^ 32) nanos_per_second a) [
  | none ↦ none
  | some n ↦ checked_sub n b
]

-- `a - carry - b` in u64.
abbrev less_secs : ℕ → ℕ → ℕ → Option ℕ
less_secs a carry b = elim (checked_sub a carry) [ none ↦ none | some s ↦ checked_sub s b ]

abbrev minus_nanos : Option ℕ → ℕ → ℕ → ℕ → Option Tai64N
minus_nanos none a carry b = none
minus_nanos (some n) a carry b = elim (less_secs a carry b) [
  | none ↦ none
  | some s ↦ some (record { secs = s; nanos = n })
]

-- `Tai64N - Duration`
unfoldable pub sub : Tai64N → Duration → Option Tai64N
sub t d =
    if leb d.subsec_nanos t.nanos
    then minus_nanos (checked_sub t.nanos d.subsec_nanos) t.secs 0 d.as_secs
    else minus_nanos (borrowed t.nanos d.subsec_nanos) t.secs 1 d.as_secs

-- The derived order: seconds first.
unfoldable pub not_before : Tai64N → Tai64N → Bool
not_before t u =
    if ltb u.secs t.secs then true else if u.secs == t.secs then leb u.nanos t.nanos else false

abbrev as_duration : Option Tai64N → Option Duration
as_duration none = none
as_duration (some t) = some (record { as_secs = t.secs; subsec_nanos = t.nanos })

-- The first branch of `duration_since`: the same arithmetic on the two parts. (`Duration::new`
-- takes nanoseconds below a second as they are.)
abbrev pub elapsed : Tai64N → Tai64N → Option Duration
elapsed t u =
    if leb u.nanos t.nanos
    then as_duration (minus_nanos (checked_sub t.nanos u.nanos) t.secs 0 u.secs)
    else as_duration (minus_nanos (borrowed t.nanos u.nanos) t.secs 1 u.secs)

abbrev as_result : Bool → Option Duration → Option (Result Duration Duration)
as_result later none = none
as_result true (some d) = some (ok d)
as_result false (some d) = some (err d)

-- `duration_since`. In the second branch the recursive call takes the first one, and `unwrap` its
-- `Ok`.
unfoldable pub duration_since : Tai64N → Tai64N → Option (Result Duration Duration)
unfolding not_before
duration_since t u =
    if not_before t u then as_result true (elapsed t u) else as_result false (elapsed u t)

-- `SystemTime`, by what its `duration_since(UNIX_EPOCH)` gives: the time behind the epoch, or the
-- time in front of it. `UNIX_EPOCH + d` and `UNIX_EPOCH - d` are the ones with these distances.
abbrev pub SystemTime : Type 0
SystemTime = Result Duration Duration

-- `Tai64N::UNIX_EPOCH`
abbrev pub unix_epoch_nanos : Tai64N
unix_epoch_nanos = record { secs = unix_epoch; nanos = 0 }

unfoldable pub from_system_time : SystemTime → Option Tai64N
unfolding add sub
from_system_time (ok d) = add unix_epoch_nanos d
from_system_time (err d) = sub unix_epoch_nanos d

unfoldable pub to_system_time : Tai64N → Option SystemTime
unfolding duration_since
to_system_time t = duration_since t unix_epoch_nanos
