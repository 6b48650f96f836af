-- ===== src/Oid/Encoder/Writing.antt =====
-- const-oid/src/encoder.rs: the bytes of an encoder behind its first two arcs.
use formats.Common.{
  ℕ, zero, suc, ◌+◌, ◌-◌, ◌*◌, ◌/◌, ◌%◌, ◌^◌, ◌<◌, ◌≡◌, refl, sym, ap, ◌∙◌, arith, List, [], ◌∷◌,
  ◌++◌, append_assoc, append-nil, ok, err, bit_and, bit_or, ltb, if◌then◌else◌, length,
  length-append, length-replicate, replicate,
}
use native.Mathlib.Decide.{dec_lt}
use formats.Common.Bits.{agree_below}
use formats.Common.Base128.{group_count, groups, low_group, set_top}
use formats.Oid.Data.{Arc, OidResult, length_error}
use formats.Oid.Encoder.{
  Encoder, body, set, base128_len, base128_byte, encode_bytes, encode_base128, push,
}

-- The shortest groups of seven bits for one arc (X.690, 8.19.2).
abbrev pub arc_octets : Arc → List ℕ
arc_octets n = groups (group_count n) n

-- An encoder that has written `bytes` and has room for `room` bytes more.
unfoldable pub holding : List ℕ → ℕ → Encoder
holding bytes room = record {
  state = body;
  bytes = bytes ++ replicate room 0;
  cursor = length bytes;
}

clear_mask : (x : ℕ) → x < 128 → bit_or x 0 ≡ x
clear_mask x h = agree_below 128 (λ y. bit_or y 0) (λ y. y) refl x h

last_byte : (arc i n : ℕ) → n ≡ i + 1 → base128_byte arc i n ≡ ok (arc % 128)
unfolding base128_byte
last_byte arc i n e =
    let whole : arc / 128 ^ 0 % 128 ≡ arc % 128 = omega arith in
    let only : n - i - 1 ≡ 0 = omega arith in
    let low : bit_and (arc / 2 ^ ((n - i - 1) * 7)) 0x7f ≡ arc % 128 =
      ap (λ k. bit_and (arc / 2 ^ (k * 7)) 0x7f) only ∙ low_group 0 arc ∙ whole in
    ground (arith, low, clear_mask (arc % 128) (omega arith))

inner_byte :
    (arc i n r : ℕ)
    → n ≡ i + suc (suc r)
    → base128_byte arc i n ≡ ok (arc / 128 ^ suc r % 128 + 128)
unfolding base128_byte
inner_byte arc i n r e =
    let left : n - i - 1 ≡ suc r = omega arith in
    let low : bit_and (arc / 2 ^ ((n - i - 1) * 7)) 0x7f ≡ arc / 128 ^ suc r % 128 =
      ap (λ k. bit_and (arc / 2 ^ (k * 7)) 0x7f) left ∙ low_group (suc r) arc in
    ground (arith, low, set_top (arc / 128 ^ suc r % 128) (omega arith))

set_behind :
    (bytes : List ℕ) (x : ℕ) (rest : List ℕ) (v : ℕ)
    → set (bytes ++ (x ∷ rest)) (length bytes) v ≡ bytes ++ (v ∷ rest)
set_behind [] x rest v = refl
set_behind (b ∷ bytes) x rest v = ap (◌∷◌ b) (set_behind bytes x rest v)

-- One byte written into the array.
written :
    (bytes : List ℕ) (room v : ℕ)
    → (let e = holding bytes (suc room) in
        record e { bytes = set e.bytes e.cursor v; cursor = e.cursor + 1 })
      ≡ holding (bytes ++ (v ∷ [])) room
unfolding holding
written bytes room v =
    let all : set (bytes ++ (0 ∷ replicate room 0)) (length bytes) v
        ≡ (bytes ++ (v ∷ [])) ++ replicate room 0 =
      set_behind bytes 0 (replicate room 0) v
      ∙ sym (append_assoc bytes (v ∷ []) (replicate room 0)) in
    let count : length bytes + 1 ≡ length (bytes ++ (v ∷ [])) =
      omega (arith, length-append bytes (v ∷ [])) in
    ap (λ l. record { state = body; bytes = l; cursor = length bytes + 1 }) all
    ∙ ap (λ c. record { state = body; bytes = (bytes ++ (v ∷ [])) ++ replicate room 0; cursor = c })
        count

encode_byte :
    (rounds i n arc : ℕ) (bytes : List ℕ) (room v : ℕ) {r : OidResult Encoder}
    → base128_byte arc i n ≡ ok v
    → encode_bytes rounds (i + 1) n arc (holding (bytes ++ (v ∷ [])) room) ≡ r
    → encode_bytes (suc rounds) i n arc (holding bytes (suc room)) ≡ r
unfolding encode_bytes
encode_byte rounds i n arc bytes room v byte rest =
    rw byte (ap (encode_bytes rounds (i + 1) n arc) (written bytes room v) ∙ rest)

-- The loop writes the groups that are left.
encode_bytes-groups :
    (rounds i n arc : ℕ) (bytes : List ℕ) (room left : ℕ)
    → n ≡ i + rounds
    → room ≡ left + rounds
    → encode_bytes rounds i n arc (holding bytes room)
      ≡ ok (holding (bytes ++ groups rounds arc) left)
unfolding encode_bytes
encode_bytes-groups zero i n arc bytes room left e enough =
    ap (λ l. ok (holding l room)) (sym (append-nil bytes))
    ∙ ap (λ k. ok (holding (bytes ++ []) k)) (omega arith)
encode_bytes-groups (suc rounds) i n arc bytes zero left e enough = absurd (omega arith)
encode_bytes-groups (suc zero) i n arc bytes (suc room) left e enough =
    encode_byte 0 i n arc bytes room (arc % 128) (last_byte arc i n (omega arith))
      (ap (λ k. ok (holding (bytes ++ (arc % 128 ∷ [])) k)) (omega arith))
encode_bytes-groups (suc (suc rounds)) i n arc bytes (suc room) left e enough =
    let v : ℕ = arc / 128 ^ suc rounds % 128 + 128 in
    encode_byte (suc rounds) i n arc bytes room v (inner_byte arc i n rounds (omega arith)) (
      encode_bytes-groups (suc rounds) (i + 1) n arc (bytes ++ (v ∷ [])) room left (omega arith)
        (omega arith)
      ∙ ap (λ l. ok (holding l left)) (append_assoc bytes (v ∷ []) (groups (suc rounds) arc)))

base128_len-group_count : (arc : ℕ) → base128_len arc ≡ group_count arc
unfolding base128_len group_count
base128_len-group_count arc = ground arith

length-holding :
    (bytes : List ℕ) (room : ℕ) → length ((holding bytes room).bytes) ≡ length bytes + room
unfolding holding
length-holding bytes room =
    omega (arith, length-append bytes (replicate room 0), length-replicate room (zero))

cursor-holding : (bytes : List ℕ) (room : ℕ) → (holding bytes room).cursor ≡ length bytes
unfolding holding
cursor-holding bytes room = refl

push-encode_base128 :
    (bytes : List ℕ) (room arc : ℕ)
    → push (holding bytes room) arc ≡ encode_base128 (holding bytes room) arc
unfolding push holding
push-encode_base128 bytes room arc = refl

-- The encoder with room for an arc writes its octets, and one without refuses it.
pub push-holding :
    (bytes : List ℕ) (room arc : ℕ)
    → push (holding bytes room) arc ≡ (
        if ltb room (group_count arc)
        then err length_error
        else ok (holding (bytes ++ arc_octets arc) (room - group_count arc)))
unfolding encode_base128
push-holding bytes room arc =
    let count = group_count arc in
    push-encode_base128 bytes room arc ∙ elim (dec_lt room count) [
      | yes short ↦
          ground (
            arith,
            length-holding bytes room,
            base128_len-group_count arc,
            cursor-holding bytes room,
          )
      | no enough ↦ ground (
        arith,
        length-holding bytes room,
        base128_len-group_count arc,
        cursor-holding bytes room,
        encode_bytes-groups count 0 count arc bytes room (room - count) (omega arith) (omega arith),
      )
    ]
