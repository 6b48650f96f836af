-- ===== src/Oid/Encoder.antt =====
-- const-oid/src/encoder.rs: arcs written into an array of `MAX_SIZE` bytes, one by one.
pub mod Writing
use formats.Common.{
  ℕ, zero, suc, ◌+◌, ◌-◌, ◌*◌, ◌/◌, ◌%◌, ◌^◌, List, [], ◌∷◌, ok, err, bit_and, bit_or, ltb, leb,
  ◌==◌, if◌then◌else◌, length, replicate,
}
use formats.Oid.Data.{
  Arc, OidResult, ◌>>=◌, arc_invalid, empty, length_error, checked_add, checked_mul, checked_sub,
  or_overflow, arc_max_first, arc_max_second, Buffer,
}

pub data State : Type 0 where
  initial : State
  first_arc : Arc → State
  body : State

pub record Encoder : Type 0 where
  pub state : State
  pub bytes : List ℕ
  pub cursor : ℕ

unfoldable pub encoder_new : ℕ → Encoder
encoder_new max_size = record { state = initial; bytes = replicate max_size 0; cursor = 0 }

unfoldable pub extend : Buffer → Encoder
extend ber = record { state = body; bytes = ber.bytes; cursor = ber.length }

-- A write into an array, at a place that it has.
abbrev pub set : List ℕ → ℕ → ℕ → List ℕ
set [] i v = []
set (x ∷ xs) zero v = v ∷ xs
set (x ∷ xs) (suc i) v = x ∷ set xs i v

unfoldable pub base128_len : Arc → ℕ
base128_len arc =
    if leb arc 0x7f
    then 1
    else if leb arc 0x3fff
    then 2
    else if leb arc 0x1f_ffff
    then 3
    else if leb arc 0x0fff_ffff
    then 4
    else 5

unfoldable pub base128_byte : Arc → ℕ → ℕ → OidResult ℕ
base128_byte arc pos total = do
  let mask = if pos + 1 == total then 0 else 0b1000_0000
  left ← checked_sub total pos
  last ← checked_sub left 1
  ok (bit_or (bit_and (arc / 2 ^ (last * 7)) 0b111_1111) mask)

-- `while i < nbytes`, with the rounds left.
pub encode_bytes : ℕ → ℕ → ℕ → Arc → Encoder → OidResult Encoder
encode_bytes zero i nbytes arc e = ok e
encode_bytes (suc rounds) i nbytes arc e = base128_byte arc i nbytes >>= λ byte.
    encode_bytes rounds (i + 1) nbytes arc
      (record e { bytes = set e.bytes e.cursor byte; cursor = e.cursor + 1 })

unfoldable pub encode_base128 : Encoder → Arc → OidResult Encoder
unfolding encode_bytes
encode_base128 e arc =
    let nbytes = base128_len arc in
    if ltb (length e.bytes) (e.cursor + nbytes)
    then err length_error
    else encode_bytes nbytes 0 nbytes arc e

-- The match of `arc` on the state.
abbrev arc_at : State → Encoder → Arc → OidResult Encoder
arc_at initial e arc =
    if ltb arc_max_first arc then err (arc_invalid arc) else ok (record e { state = first_arc arc })
arc_at (first_arc first) e arc = if ltb arc_max_second arc then err (arc_invalid arc) else (do
  tens ← or_overflow (checked_add arc_max_second 1)
  high ← or_overflow (checked_mul tens first)
  root ← or_overflow (checked_add high arc)
  ok (record { state = body; bytes = set e.bytes 0 (root % 2 ^ 8); cursor = 1 }))
arc_at body e arc = encode_base128 e arc

unfoldable pub push : Encoder → Arc → OidResult Encoder
unfolding encode_base128
push e arc = arc_at e.state e arc

unfoldable pub encoder_finish : Encoder → OidResult Buffer
encoder_finish e =
    if e.cursor == 0 then err empty else ok (record { length = e.cursor % 2 ^ 8; bytes = e.bytes })
