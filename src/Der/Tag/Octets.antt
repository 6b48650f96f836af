-- ===== src/Der/Tag/Octets.antt =====
-- The identifier octets of X.690 (8.1.2), and the encoder against them.
use formats.Common.{
  ℕ, zero, suc, ◌+◌, ◌*◌, ◌/◌, ◌%◌, ◌^◌, ◌≤◌, ◌<◌, ◌≡◌, ◌∙◌, arith, Bool, true, false, List, [],
  ◌∷◌, ok, bit_and, bit_or, ltb, ◌==◌, if◌then◌else◌, length,
}
use formats.Common.Bits.{bit_or_shifted, bit_and_0x1f}
use native.Mathlib.Decide.{dec_lt}
use formats.Der.Data.{
  TagNumber, Tag, Class, universal, application, context_specific, private, class, number,
  is_constructed, bits,
}
use formats.Der.Tag.{encoded_len, encode_groups, encode}
use formats.Common.Base128.{group_count, groups, length-groups, low_group, set_top}
use formats.Der.Tag.Log.{group_count-ilog2}
use formats.Der.Writer
use formats.Der.Writer.{write_byte, Encoder}
use formats.Der.Writer.{SliceWriter}
use formats.Der.Writer.Room.{HasRoom, put, Writes, Writes-then, write_byte-Writes, return-Writes}

-- What the tag number's u32 holds.
abbrev pub IsTag : Tag → Type 0
IsTag t = number t < 2 ^ 32

-- The leading bits: two for the class, one for the constructed form.
abbrev pub leading : Class → Bool → ℕ
leading k c = bits k + (if c then 32 else 0)

abbrev pub identifier : Class → Bool → TagNumber → List ℕ
identifier k c n =
    if ltb n 31 then (leading k c + n) ∷ [] else (leading k c + 31) ∷ groups (group_count n) n

unfoldable pub tag_octets : Tag → List ℕ
tag_octets t = identifier (class t) (is_constructed t) (number t)

-- The five leading bits and the number's bits do not overlap.
join_leading :
    (k : Class) (c : Bool) (n : ℕ)
    → n < 32
    → bit_or (bit_or (bits k) ((if c then 1 else 0) * 2 ^ 5)) n ≡ leading k c + n
unfolding bits
join_leading universal false n h = bit_or_shifted 5 0 n h
join_leading universal true n h = bit_or_shifted 5 1 n h
join_leading application false n h = bit_or_shifted 5 2 n h
join_leading application true n h = bit_or_shifted 5 3 n h
join_leading context_specific false n h = bit_or_shifted 5 4 n h
join_leading context_specific true n h = bit_or_shifted 5 5 n h
join_leading private false n h = bit_or_shifted 5 6 n h
join_leading private true n h = bit_or_shifted 5 7 n h

last_byte :
    (n : ℕ)
    → (if 0 == 0
        then bit_and (n / 2 ^ (0 * 7)) 0x7f
        else bit_or (bit_and (n / 2 ^ (0 * 7)) 0x7f) 0x80)
      ≡ n % 128
last_byte n = low_group 0 n ∙ omega arith

inner_byte :
    (k n : ℕ)
    → (if suc k == 0
        then bit_and (n / 2 ^ (suc k * 7)) 0x7f
        else bit_or (bit_and (n / 2 ^ (suc k * 7)) 0x7f) 0x80)
      ≡ n / 128 ^ suc k % 128 + 128
inner_byte k n = ground (arith, low_group (suc k) n, set_top (n / 128 ^ suc k % 128) (omega arith))

encode_groups-Writes : (k n : ℕ) → Writes (encode_groups k n) (groups k n)
unfolding encode_groups
encode_groups-Writes zero n = return-Writes
encode_groups-Writes (suc zero) n = rw (last_byte n) (
    Writes-then (write_byte (n % 128)) (Writer.return tt) (n % 128 ∷ []) []
      (write_byte-Writes (n % 128)) return-Writes)
encode_groups-Writes (suc (suc k)) n =
    let byte : ℕ = n / 128 ^ suc k % 128 + 128 in
    rw (inner_byte k n) (
      Writes-then (write_byte byte) (encode_groups (suc k) n) (byte ∷ []) (groups (suc k) n)
        (write_byte-Writes byte) (encode_groups-Writes (suc k) n))

pub tag_octets_short :
    (t : Tag)
    → number t < 31
    → tag_octets t ≡ (leading (class t) (is_constructed t) + number t) ∷ []
unfolding tag_octets
tag_octets_short t h = ground arith

pub tag_octets_long :
    (t : Tag)
    → 31 ≤ number t
    → tag_octets t
      ≡ (leading (class t) (is_constructed t) + 31) ∷ groups (group_count (number t)) (number t)
unfolding tag_octets
tag_octets_long t h = ground arith

encode_short :
    (t : Tag)
    → number t < 31
    → encode t ≡ write_byte (leading (class t) (is_constructed t) + number t)
unfolding encode
encode_short t h =
    let low : bit_and (number t) 0x1f ≡ number t = bit_and_0x1f (number t) ∙ omega arith in
    ground (arith, low, join_leading (class t) (is_constructed t) (number t))

encode_long :
    (t : Tag)
    → 31 ≤ number t
    → IsTag t
    → encode t
      ≡ Writer.◌>>◌
          (write_byte (leading (class t) (is_constructed t) + 31))
          (encode_groups (group_count (number t)) (number t))
unfolding encode
encode_long t h u32 =
    ground (arith, group_count-ilog2 (number t) u32, join_leading (class t) (is_constructed t) 31)

-- A writer with room for them gets the identifier octets of a tag whose number is a u32 behind
-- what it has written, and nothing else.
pub tag_encode-Writes :
    (t : Tag)
    → IsTag t
    → (w : SliceWriter) → HasRoom w (length (tag_octets t))
    → encode t w ≡ (ok tt, put w (tag_octets t))
tag_encode-Writes t h = elim (dec_lt (number t) 31) [
  | yes short ↦ rw (tag_octets_short t short, encode_short t short) (write_byte-Writes _)
  | no long ↦
      let hi : 31 ≤ number t = omega arith in
      let first = leading (class t) (is_constructed t) + 31 in
      rw (tag_octets_long t hi, encode_long t hi h)
        (Writes-then (write_byte first) (encode_groups (group_count (number t)) (number t))
          (first ∷ []) (groups (group_count (number t)) (number t)) (write_byte-Writes first)
          (encode_groups-Writes (group_count (number t)) (number t)))
]

-- The announced length of a tag whose number is a u32 is the number of its identifier octets.
pub encoded_len-tag_octets : (t : Tag) → IsTag t → encoded_len t ≡ ok (length (tag_octets t))
unfolding encoded_len tag_octets
encoded_len-tag_octets t h =
    ground
      (arith, group_count-ilog2 (number t) h, length-groups (group_count (number t)) (number t))

-- One to six octets.
pub length-tag_octets : (t : Tag) → (1 ≤ length (tag_octets t)) × (length (tag_octets t) ≤ 6)
unfolding tag_octets group_count
length-tag_octets t = ground (arith, length-groups (group_count (number t)) (number t))
