-- ===== src/Tai64/Bytes.antt =====
-- The external representation of timestamps in tai64/src/lib.rs.
use mathlib.Core.Path.{ap₂}
use formats.Common.{
  ℕ, ◌<◌, ◌≡◌, refl, sym, ap, ◌∙◌, arith, true, List, ◌++◌, ok, ltb, ◌==◌, ==→eq, length, take,
  drop, length-append, length-drop, take_append, drop_append, take-append-drop, All, All-take,
  All-drop, IsByte, Bool-cases, inl, inr,
}
use formats.Common.BigEndian.{
  be_bytes, be_number, length-be_bytes, be_number-be_bytes, be_bytes-be_number, be_number_lt,
}
use formats.Tai64.{Tai64N, from_slice, to_bytes_nanos, from_slice_nanos, from_parts}
use formats.Tai64.Arithmetic.{IsTimestamp}

-- The twelve bytes of a timestamp are read as that timestamp.
pub from_slice_nanos-to_bytes_nanos :
    (t : Tai64N) → IsTimestamp t → from_slice_nanos (to_bytes_nanos t) ≡ ok t
unfolding from_slice_nanos from_slice to_bytes_nanos
from_slice_nanos-to_bytes_nanos t h =
    let front = be_bytes 8 t.secs in
    let back = be_bytes 4 t.nanos in
    let eight : length front ≡ 8 = length-be_bytes 8 t.secs in
    let four : length back ≡ 4 = length-be_bytes 4 t.nanos in
    let all : length (front ++ back) ≡ 12 = omega (arith, length-append front back, eight, four) in
    let head : take 8 (front ++ back) ≡ front =
      ap (λ n. take n (front ++ back)) (sym eight) ∙ take_append front back in
    let tail : drop 8 (front ++ back) ≡ back =
      ap (λ n. drop n (front ++ back)) (sym eight) ∙ drop_append front back in
    let secs = be_number-be_bytes 8 t.secs (omega (arith, h.secs_fit)) in
    let nanos = be_number-be_bytes 4 t.nanos (omega (arith, h.nanos_fit)) in
    let small : ltb t.nanos 1_000_000_000 ≡ true = ground (arith, h.nanos_fit) in
    rw (all, head, tail, eight, secs, nanos, small) refl

parts_ok :
    (front : List ℕ) (n : ℕ) (t : Tai64N)
    → from_parts (from_slice front) n ≡ ok t
    → (length front ≡ 8) × (t.secs ≡ be_number 0 front) × (t.nanos ≡ n) × (n < 1_000_000_000)
unfolding from_slice
parts_ok front n t e = ground arith

slice_parts :
    (slice : List ℕ) (t : Tai64N)
    → from_slice_nanos slice ≡ ok t
    → (length slice ≡ 12)
      × (from_parts (from_slice (take 8 slice)) (be_number 0 (drop 8 slice)) ≡ ok t)
unfolding from_slice_nanos
slice_parts slice t e = elim (Bool-cases (length slice == 12)) [
  | inl twelve ↦ (==→eq (length slice) 12 twelve, rw twelve at e)
  | inr other ↦ absurd (cc (rw other at e))
]

-- Bytes that are read as a timestamp are the twelve bytes of it, and its nanoseconds are less than
-- a second.
pub to_bytes_nanos-from_slice_nanos :
    (slice : List ℕ) (t : Tai64N)
    → All IsByte slice
    → from_slice_nanos slice ≡ ok t
    → IsTimestamp t × (to_bytes_nanos t ≡ slice)
unfolding to_bytes_nanos
to_bytes_nanos-from_slice_nanos slice t bytes e =
    let front = take 8 slice in
    let back = drop 8 slice in
    let (twelve, parts) = slice_parts slice t e in
    let (eight, secs, nanos, small) = parts_ok front (be_number 0 back) t parts in
    let four : length back ≡ 4 = length-drop 8 slice ∙ omega arith in
    let front_bytes = All-take IsByte 8 slice bytes in
    let back_bytes = All-drop IsByte 8 slice bytes in
    let head : be_bytes 8 t.secs ≡ front =
      ap (be_bytes 8) secs
      ∙ ap (λ k. be_bytes k (be_number 0 front)) (sym eight)
      ∙ be_bytes-be_number front front_bytes in
    let tail : be_bytes 4 t.nanos ≡ back =
      ap (be_bytes 4) nanos
      ∙ ap (λ k. be_bytes k (be_number 0 back)) (sym four)
      ∙ be_bytes-be_number back back_bytes in
    (
      record {
        secs_fit = omega (arith, be_number_lt 8 front front_bytes eight, secs);
        nanos_fit = omega (arith, nanos, small);
      },
      ap₂ (λ xs ys. xs ++ ys) head tail ∙ take-append-drop 8 slice,
    )
