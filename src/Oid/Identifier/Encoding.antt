-- ===== src/Oid/Identifier/Encoding.antt =====
-- const-oid/src/lib.rs: `from_arcs`, against the encoding of X.690 (8.19).
use formats.Common.{
  ℕ, zero, suc, ◌+◌, ◌-◌, ◌*◌, ◌%◌, ◌^◌, ◌≤◌, ◌<◌, ◌≡◌, refl, ◌∙◌, arith, List, [], ◌∷◌, ◌++◌,
  append_assoc, append-nil, ok, err, ltb, if◌then◌else◌, length, length-append, replicate,
}
use native.Mathlib.Decide.{dec_lt}
use formats.Common.Base128.{group_count, length-groups}
use formats.Oid.Data.{Arc, OidResult, ◌>>=◌, arc_invalid, empty, length_error, Buffer}
use formats.Oid.Encoder.{Encoder, State, encoder_new, push, encoder_finish}
use formats.Oid.Encoder.Writing.{arc_octets, holding, push-holding}
use formats.Oid.Identifier.{push_all, encode_arcs}

abbrev pub body_octets : List Arc → List ℕ
body_octets [] = []
body_octets (n ∷ arcs) = arc_octets n ++ body_octets arcs

-- The array of a whole identifier: its octets and then zeroes, of `max_size` bytes.
unfoldable pub buffer_of : ℕ → List ℕ → Buffer
buffer_of max_size octets = record {
  length = length octets % 2 ^ 8;
  bytes = octets ++ replicate (max_size - length octets) 0;
}

-- The first arc is up to 2 and the second up to 39, there are two arcs at least, and the octets fit.
unfoldable pub encoding : ℕ → List Arc → OidResult Buffer
encoding max_size [] = err empty
encoding max_size (a ∷ []) = if ltb 2 a then err (arc_invalid a) else err empty
encoding max_size (a ∷ b ∷ arcs) =
    if ltb 2 a
    then err (arc_invalid a)
    else if ltb 39 b
    then err (arc_invalid b)
    else if ltb max_size (length (body_octets arcs) + 1)
    then err length_error
    else ok (buffer_of max_size ((a * 40 + b) ∷ body_octets arcs))

push_all_cons :
    (arc : Arc) (arcs : List Arc) (e : Encoder) (r : OidResult Encoder)
    → push e arc ≡ r
    → push_all (arc ∷ arcs) e ≡ (r >>= push_all arcs)
unfolding push_all
push_all_cons arc arcs e r is = rw is

pub push_all-holding :
    (arcs : List Arc) (bytes : List ℕ) (room : ℕ)
    → push_all arcs (holding bytes room) ≡ (
        if ltb room (length (body_octets arcs))
        then err length_error
        else ok (holding (bytes ++ body_octets arcs) (room - length (body_octets arcs))))
unfolding push_all
push_all-holding [] bytes room = ground (arith, append-nil bytes)
push_all-holding (n ∷ arcs) bytes room =
    let count = group_count n in
    let more = length (body_octets arcs) in
    let whole : length (arc_octets n ++ body_octets arcs) ≡ count + more =
      omega (arith, length-append (arc_octets n) (body_octets arcs), length-groups count n) in
    push_all_cons n arcs (holding bytes room) _ (push-holding bytes room n)
    ∙ ground (
      arith,
      whole,
      push_all-holding arcs (bytes ++ arc_octets n) (room - count),
      append_assoc bytes (arc_octets n) (body_octets arcs),
    )

-- The encoder behind its first arc.
unfoldable one_arc : ℕ → Arc → Encoder
one_arc max_size a = record { state = State.first_arc a; bytes = replicate max_size 0; cursor = 0 }

push_first :
    (max_size : ℕ) (a : Arc)
    → push (encoder_new max_size) a
      ≡ (if ltb 2 a then err (arc_invalid a) else ok (one_arc max_size a))
unfolding push encoder_new one_arc
push_first max_size a = refl

push_second :
    (room : ℕ) (a b : Arc)
    → a ≤ 2
    → push (one_arc (suc room) a) b
      ≡ (if ltb 39 b then err (arc_invalid b) else ok (holding ((a * 40 + b) ∷ []) room))
unfolding push one_arc holding
push_second room a b h = ground arith

finish-one_arc : (max_size : ℕ) (a : Arc) → encoder_finish (one_arc max_size a) ≡ err empty
unfolding encoder_finish one_arc
finish-one_arc max_size a = refl

finish-holding :
    (byte : ℕ) (bytes : List ℕ) (room max_size : ℕ)
    → room ≡ max_size - length (byte ∷ bytes)
    → encoder_finish (holding (byte ∷ bytes) room) ≡ ok (buffer_of max_size (byte ∷ bytes))
unfolding encoder_finish holding buffer_of
finish-holding byte bytes room max_size e = rw e (ground arith)

pub encode_two :
    (room : ℕ) (a b : Arc) (arcs : List Arc)
    → a ≤ 2
    → b ≤ 39
    → encode_arcs (suc room) (a ∷ b ∷ arcs)
      ≡ (push_all arcs (holding ((a * 40 + b) ∷ []) room) >>= encoder_finish)
unfolding encode_arcs push_all
encode_two room a b arcs h k = ground (arith, push_first (suc room) a, push_second room a b h)

finish-new : (max_size : ℕ) → encoder_finish (encoder_new max_size) ≡ err empty
unfolding encoder_finish encoder_new
finish-new max_size = refl

encode_none : (max_size : ℕ) → encode_arcs max_size [] ≡ err empty
unfolding encode_arcs push_all
encode_none max_size = finish-new max_size

encode_bad_first :
    (max_size : ℕ) (a : Arc) (arcs : List Arc)
    → 2 < a
    → encode_arcs max_size (a ∷ arcs) ≡ err (arc_invalid a)
unfolding encode_arcs push_all
encode_bad_first max_size a arcs h = ground (arith, push_first max_size a)

encode_bad_second :
    (room : ℕ) (a b : Arc) (arcs : List Arc)
    → a ≤ 2
    → 39 < b
    → encode_arcs (suc room) (a ∷ b ∷ arcs) ≡ err (arc_invalid b)
unfolding encode_arcs push_all
encode_bad_second room a b arcs h k =
    ground (arith, push_first (suc room) a, push_second room a b h)

encode_one : (max_size : ℕ) (a : Arc) → a ≤ 2 → encode_arcs max_size (a ∷ []) ≡ err empty
unfolding encode_arcs push_all
encode_one max_size a h = ground (arith, push_first max_size a, finish-one_arc max_size a)

-- `from_arcs` encodes a list of arcs as X.690 says, with the error of the first arc that stands in
-- the way, into an array of at least one byte.
pub encode_arcs-encoding :
    (max_size : ℕ) (arcs : List Arc)
    → 1 ≤ max_size
    → encode_arcs max_size arcs ≡ encoding max_size arcs
unfolding encoding
encode_arcs-encoding zero arcs h = absurd (omega arith)
encode_arcs-encoding (suc room) [] h = encode_none (suc room)
encode_arcs-encoding (suc room) (a ∷ []) h = elim (dec_lt 2 a) [
  | yes big ↦ ground (arith, encode_bad_first (suc room) a [])
  | no small ↦ ground (arith, encode_one (suc room) a)
]
encode_arcs-encoding (suc room) (a ∷ b ∷ arcs) h = elim (dec_lt 2 a) [
  | yes big ↦ ground (arith, encode_bad_first (suc room) a (b ∷ arcs))
  | no first ↦ elim (dec_lt 39 b) [
    | yes big ↦ ground (arith, encode_bad_second room a b arcs)
    | no second ↦
        let root : ℕ = a * 40 + b in
        ground (
          arith,
          encode_two room a b arcs,
          push_all-holding arcs (root ∷ []) room,
          finish-holding root (body_octets arcs) (room - length (body_octets arcs)) (suc room)
              (omega arith),
        )
  ]
]
