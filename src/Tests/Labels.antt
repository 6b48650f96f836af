-- ===== src/Tests/Labels.antt =====
-- Labels of a few moments.
use formats.Common.{ℕ, ◌+◌, ◌-◌, ◌^◌, ◌≡◌, refl, arith, some, ok, err, replicate}
use formats.Common.BigEndian.{be_number}
use formats.Tai64.{
  Tai64N, Duration, SystemTime, from_unix, to_unix, from_system_time, to_system_time, from_slice,
  from_slice_nanos, add, sub, duration_since, length_invalid,
}
use formats.Tai64.Arithmetic.{
  IsTimestamp, IsDuration, IsSystemTime, to_system_time-from_system_time, duration_since-add,
}

abbrev late_nanos : Tai64N
late_nanos = record { secs = 100; nanos = 900_000_000 }

abbrev half_second : Duration
half_second = record { as_secs = 2; subsec_nanos = 500_000_000 }

abbrev later : Tai64N
later = record { secs = 103; nanos = 400_000_000 }

late_nanos-IsTimestamp : IsTimestamp late_nanos
late_nanos-IsTimestamp = record { secs_fit = omega arith; nanos_fit = omega arith }

half_second-IsDuration : IsDuration half_second
half_second-IsDuration = record { secs_fit = omega arith; nanos_fit = omega arith }

carried : add late_nanos half_second ≡ some later
unfolding add
carried = refl

duration_since-add_example :
    IsTimestamp later
    × (duration_since later late_nanos ≡ some (ok half_second))
    × (sub later half_second ≡ some late_nanos)
duration_since-add_example =
    duration_since-add late_nanos later half_second late_nanos-IsTimestamp half_second-IsDuration
      carried

-- A second before 1970, in two's complement.
abbrev minus_one : ℕ
minus_one = 2 ^ 64 - 1

unix_minus_one : from_unix minus_one ≡ some (9 + 2 ^ 62)
unfolding from_unix
unix_minus_one = refl

unix_zero : from_unix 0 ≡ some (10 + 2 ^ 62)
unfolding from_unix
unix_zero = refl

-- Half a second in front of the epoch.
abbrev half_before : SystemTime
half_before = err (record { as_secs = 0; subsec_nanos = 500_000_000 })

half_before-IsSystemTime : IsSystemTime half_before
half_before-IsSystemTime =
    (record { secs_fit = omega arith; nanos_fit = omega arith }, omega arith, omega arith)

to_system_time-from_system_time_example :
    (t : Tai64N) × (from_system_time half_before ≡ some t)
    × (to_system_time t ≡ some half_before)
    × (to_unix t.secs ≡ some 26)
to_system_time-from_system_time_example =
    to_system_time-from_system_time half_before half_before-IsSystemTime

read_zeroes : from_slice_nanos (replicate 12 0) ≡ ok (record { secs = 0; nanos = 0 })
unfolding from_slice_nanos be_number
read_zeroes = refl

read_short : from_slice (replicate 7 0) ≡ err length_invalid
unfolding from_slice
read_short = refl
