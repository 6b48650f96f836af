-- ===== src/Tai64/Arithmetic.antt =====
-- The arithmetic of labels in tai64/src/lib.rs: the Unix time, durations.
use native.Mathlib.Decide.{dec_le}
use formats.Common.{
  ℕ, ◌+◌, ◌-◌, ◌*◌, ◌%◌, ◌^◌, leb, if◌then◌else◌, ◌≤◌, ◌<◌, ◌≡◌, refl, arith, true, false, some, ok,
  err,
}
use formats.Tai64.{
  Tai64, Tai64N, Duration, unix_epoch, from_unix, to_unix, add, sub, not_before, duration_since,
  elapsed, SystemTime, unix_epoch_nanos, from_system_time, to_system_time,
}

-- A timestamp whose seconds a u64 holds and whose nanoseconds are less than a second.
pub record IsTimestamp (t : Tai64N) : Type 0 where
  pub secs_fit : t.secs < 2 ^ 64
  pub nanos_fit : t.nanos < 1_000_000_000

pub record IsDuration (d : Duration) : Type 0 where
  pub secs_fit : d.as_secs < 2 ^ 64
  pub nanos_fit : d.subsec_nanos < 1_000_000_000

-- Where `from_unix` of an i64 does not overflow, `to_unix` gives the i64 back.
pub to_unix-from_unix :
    (secs : ℕ) (t : Tai64) → secs < 2 ^ 64 → from_unix secs ≡ some t → to_unix t ≡ some secs
unfolding to_unix from_unix
to_unix-from_unix secs t h e = ground arith

-- The sum, with a second carried or not.
record Sum (t : Tai64N) (d : Duration) (carry : ℕ) (u : Tai64N) : Type 0 where
  secs_add : u.secs ≡ t.secs + d.as_secs + carry
  nanos_add : u.nanos + carry * 1_000_000_000 ≡ t.nanos + d.subsec_nanos
  secs_fit : u.secs < 2 ^ 64
  nanos_fit : u.nanos < 1_000_000_000

add_over :
    (t u : Tai64N) (d : Duration)
    → IsTimestamp t
    → IsDuration d
    → 1_000_000_000 ≤ t.nanos + d.subsec_nanos
    → add t d ≡ some u
    → Sum t d 1 u
unfolding add
add_over t u d ht hd over e = ground arith

add_under :
    (t u : Tai64N) (d : Duration)
    → IsTimestamp t
    → IsDuration d
    → t.nanos + d.subsec_nanos < 1_000_000_000
    → add t d ≡ some u
    → Sum t d 0 u
unfolding add
add_under t u d ht hd under e = ground arith

elapsed_over :
    (t u : Tai64N) (d : Duration)
    → IsTimestamp t
    → IsDuration d
    → Sum t d 1 u
    → elapsed u t ≡ some d
elapsed_over t u d ht hd s = ground (arith, s.secs_add, s.nanos_add)

elapsed_under : (t u : Tai64N) (d : Duration) → Sum t d 0 u → elapsed u t ≡ some d
elapsed_under t u d s = ground (arith, s.secs_add, s.nanos_add)

sub_over :
    (t u : Tai64N) (d : Duration) → IsTimestamp t → IsDuration d → Sum t d 1 u → sub u d ≡ some t
unfolding sub
sub_over t u d ht hd s = ground (arith, s.secs_add, s.nanos_add)

sub_under : (t u : Tai64N) (d : Duration) → Sum t d 0 u → sub u d ≡ some t
unfolding sub
sub_under t u d s = ground (arith, s.secs_add, s.nanos_add)

Sum-not_before :
    (t u : Tai64N) (d : Duration) (carry : ℕ)
    → Sum t d carry u
    → carry ≤ 1
    → IsTimestamp t
    → not_before u t ≡ true
unfolding not_before
Sum-not_before t u d carry s h ht = ground (arith, s.secs_add, s.nanos_add, s.nanos_fit)

since_elapsed :
    (t u : Tai64N) (d : Duration)
    → not_before u t ≡ true
    → elapsed u t ≡ some d
    → duration_since u t ≡ some (ok d)
unfolding duration_since
since_elapsed t u d before gone = rw (before, gone) refl

-- A timestamp plus a duration, where that does not overflow, is a timestamp, the duration has passed
-- since the first one, and taking the duration away again gives the first one back.
pub duration_since-add :
    (t u : Tai64N) (d : Duration)
    → IsTimestamp t
    → IsDuration d
    → add t d ≡ some u
    → IsTimestamp u × (duration_since u t ≡ some (ok d)) × (sub u d ≡ some t)
duration_since-add t u d ht hd e = elim (dec_le 1_000_000_000 (t.nanos + d.subsec_nanos)) [
  | yes over ↦
      let s = add_over t u d ht hd over e in
      (
        record { secs_fit = s.secs_fit; nanos_fit = s.nanos_fit },
        since_elapsed t u d (Sum-not_before t u d 1 s (omega arith) ht)
            (elapsed_over t u d ht hd s),
        sub_over t u d ht hd s,
      )
  | no not_over ↦
      let s = add_under t u d ht hd (omega arith) e in
      (
        record { secs_fit = s.secs_fit; nanos_fit = s.nanos_fit },
        since_elapsed t u d (Sum-not_before t u d 0 s (omega arith) ht) (elapsed_under t u d s),
        sub_under t u d s,
      )
]

-- Fewer than 2 ^ 62 - 37 seconds from the epoch; a distance in front of it is not zero.
abbrev pub IsSystemTime : SystemTime → Type 0
IsSystemTime (ok d) = IsDuration d × (d.as_secs + 37 < 2 ^ 62)
IsSystemTime (err d) = IsDuration d × (d.as_secs + 37 < 2 ^ 62) × (1 ≤ d.as_secs + d.subsec_nanos)

-- The Unix time, rounded down, in the two's complement of an i64.
abbrev pub unix_seconds : SystemTime → ℕ
unix_seconds (ok d) = d.as_secs
unix_seconds (err d) = 2 ^ 64 - d.as_secs - (if leb 1 d.subsec_nanos then 1 else 0)

-- What lies in front of the epoch, whole seconds or not.
before_over :
    (t : Tai64N) (d : Duration)
    → IsDuration d
    → 1 ≤ d.subsec_nanos
    → sub unix_epoch_nanos d ≡ some t
    → Sum t d 1 unix_epoch_nanos
unfolding sub
before_over t d hd part e = ground arith

before_under :
    (t : Tai64N) (d : Duration)
    → d.subsec_nanos < 1
    → sub unix_epoch_nanos d ≡ some t
    → Sum t d 0 unix_epoch_nanos
unfolding sub
before_under t d whole e = ground arith

Sum-before :
    (t u : Tai64N) (d : Duration) (carry : ℕ)
    → Sum t d carry u
    → t.nanos < 1_000_000_000
    → 1 ≤ d.as_secs + d.subsec_nanos
    → not_before t u ≡ false
unfolding not_before
Sum-before t u d carry s h some_time = ground (arith, s.secs_add, s.nanos_add, s.nanos_fit)

since_epoch :
    (d : Duration) (t : Tai64N)
    → IsDuration d
    → 1 ≤ d.as_secs + d.subsec_nanos
    → sub unix_epoch_nanos d ≡ some t
    → duration_since t unix_epoch_nanos ≡ some (err d)
unfolding duration_since
since_epoch d t hd some_time e = elim (dec_le 1 d.subsec_nanos) [
  | yes part ↦
      let s = before_over t d hd part e in
      let ht : IsTimestamp t = record {
        secs_fit = omega (arith, s.secs_add, s.secs_fit);
        nanos_fit = omega (arith, s.nanos_add, s.nanos_fit);
      } in
      rw
        (
          Sum-before t unix_epoch_nanos d 1 s ht.nanos_fit some_time,
          elapsed_over t unix_epoch_nanos d ht hd s,
        )
        refl
  | no whole ↦
      let s = before_under t d (omega arith) e in
      rw
        (
          Sum-before t unix_epoch_nanos d 0 s (omega (arith, s.nanos_add)) some_time,
          elapsed_under t unix_epoch_nanos d s,
        )
        refl
]

-- The label of a system time.
record Label (x : SystemTime) (t : Tai64N) : Type 0 where
  made : from_system_time x ≡ some t
  back : to_system_time t ≡ some x
  unix : to_unix t.secs ≡ some ((unix_seconds x + 27) % 2 ^ 64)

Label-behind :
    (d : Duration)
    → IsDuration d
    → d.as_secs + 37 < 2 ^ 62
    → Label (ok d) (record { secs = unix_epoch + d.as_secs; nanos = d.subsec_nanos })
unfolding from_system_time to_system_time to_unix
Label-behind d hd h =
    let t : Tai64N = record { secs = unix_epoch + d.as_secs; nanos = d.subsec_nanos } in
    let epoch : IsTimestamp unix_epoch_nanos = record {
      secs_fit = omega arith;
      nanos_fit = omega arith;
    } in
    let made : add unix_epoch_nanos d ≡ some t = ground arith in
    record {
      made = made;
      back = (duration_since-add unix_epoch_nanos t d epoch hd made).1;
      unix = ground arith;
    }

Label-part :
    (d : Duration)
    → IsDuration d
    → d.as_secs + 37 < 2 ^ 62
    → 1 ≤ d.subsec_nanos
    → Label
        (err d)
        (record { secs = unix_epoch - 1 - d.as_secs; nanos = 1_000_000_000 - d.subsec_nanos })
unfolding from_system_time to_system_time to_unix
Label-part d hd h part =
    let t : Tai64N = record {
      secs = unix_epoch - 1 - d.as_secs;
      nanos = 1_000_000_000 - d.subsec_nanos;
    } in
    let made : sub unix_epoch_nanos d ≡ some t = ground arith in
    record { made = made; back = since_epoch d t hd (omega arith) made; unix = ground arith }

Label-whole :
    (d : Duration)
    → IsDuration d
    → d.as_secs + 37 < 2 ^ 62
    → d.subsec_nanos < 1
    → 1 ≤ d.as_secs + d.subsec_nanos
    → Label (err d) (record { secs = unix_epoch - d.as_secs; nanos = 0 })
unfolding from_system_time to_system_time to_unix
Label-whole d hd h whole some_time =
    let t : Tai64N = record { secs = unix_epoch - d.as_secs; nanos = 0 } in
    let made : sub unix_epoch_nanos d ≡ some t = ground arith in
    record { made = made; back = since_epoch d t hd some_time made; unix = ground arith }

-- A system time that is fewer than 2 ^ 62 - 37 seconds from the Unix epoch, in front of it or behind
-- it, is given back by `to_system_time` from the label that `from_system_time` makes of it, and
-- `to_unix` of the label's seconds is 27 more than its Unix time, rounded down.
pub to_system_time-from_system_time :
    (x : SystemTime)
    → IsSystemTime x
    → (t : Tai64N) × (from_system_time x ≡ some t)
      × (to_system_time t ≡ some x)
      × (to_unix t.secs ≡ some ((unix_seconds x + 27) % 2 ^ 64))
to_system_time-from_system_time (ok d) (hd, few) =
    let label = Label-behind d hd few in
    (
      record { secs = unix_epoch + d.as_secs; nanos = d.subsec_nanos },
      label.made,
      label.back,
      label.unix,
    )
to_system_time-from_system_time (err d) (hd, few, some_time) = elim (dec_le 1 d.subsec_nanos) [
  | yes part ↦
      let label = Label-part d hd few part in
      (
        record { secs = unix_epoch - 1 - d.as_secs; nanos = 1_000_000_000 - d.subsec_nanos },
        label.made,
        label.back,
        label.unix,
      )
  | no not_part ↦
      let label = Label-whole d hd few (omega arith) some_time in
      (record { secs = unix_epoch - d.as_secs; nanos = 0 }, label.made, label.back, label.unix)
]
