-- ===== src/Oid/Identifier/RoundTrip.antt =====
-- const-oid/src/lib.rs: identifiers between arcs and bytes.
use formats.Common.{
  ℕ, suc, ◌+◌, ◌-◌, ◌*◌, ◌%◌, ◌^◌, ◌≤◌, ◌<◌, ◌≡◌, refl, sym, ap, ◌∙◌, arith, some, List, [], ◌∷◌,
  ◌++◌, ok, length, length-append, take_append, replicate, All,
}
use mathlib.Core.Path.{subst}
use formats.Common.Base128.{
  group_count, groups, length-groups, group_count-Groups, group_count_le, below_of_div,
}
use formats.Oid.Data.{Arc, Buffer, buffer_as_bytes}
use formats.Oid.Arcs.Spelling.{AreGroups, IsSpelling, arcs_of-IsSpelling}
use formats.Oid.Encoder.Writing.{arc_octets}
use formats.Oid.Identifier.{encode_arcs, oid_arcs, ref_from_bytes, oid_from_ref, from_bytes_sized}
use formats.Oid.Identifier.Encoding.{body_octets, buffer_of, encoding, encode_arcs-encoding}

-- What a u32 holds.
abbrev pub IsArc : Arc → Type 0
IsArc n = n < 2 ^ 32

pub AreGroups-body_octets : (arcs : List Arc) → All IsArc arcs → AreGroups arcs (body_octets arcs)
AreGroups-body_octets [] all = refl
AreGroups-body_octets (n ∷ arcs) all =
    let g = group_count-Groups n all.0 in
    (
      g.high,
      body_octets arcs,
      ap (λ k. groups k n ++ body_octets arcs) g.count,
      all.0,
      below_of_div n g.high g.whole,
      AreGroups-body_octets arcs all.1,
    )

-- No spelling of arcs is shorter than their octets, and no other one is as short.
pub body_octets_least :
    (arcs : List Arc) (bs : List ℕ)
    → AreGroups arcs bs
    → (length (body_octets arcs) ≤ length bs)
      × (length bs ≡ length (body_octets arcs) → bs ≡ body_octets arcs)
body_octets_least [] bs h = (omega arith, λ _. h)
body_octets_least (n ∷ arcs) bs (high, rest, is, fits, below, more) =
    let (least, only) = body_octets_least arcs rest more in
    let long : length bs ≡ suc high + length rest =
      omega (
        arith,
        ap length is,
        length-append (groups (suc high) n) rest,
        length-groups (suc high) n,
      ) in
    let short : length (body_octets (n ∷ arcs)) ≡ group_count n + length (body_octets arcs) =
      omega
        (arith, length-append (arc_octets n) (body_octets arcs), length-groups (group_count n) n) in
    let few = group_count_le high n below in
    (
      omega arith,
      λ e.
          let count : suc high ≡ group_count n = omega arith in
          is
          ∙ ap (λ k. groups k n ++ rest) count
          ∙ ap (λ t. arc_octets n ++ t) (only (omega arith)),
    )

-- The array holds these octets where they fit and a u8 counts them.
pub buffer_as_bytes-buffer_of :
    (max_size : ℕ) (octets : List ℕ)
    → length octets < 256
    → buffer_as_bytes (buffer_of max_size octets) ≡ octets
unfolding buffer_as_bytes buffer_of
buffer_as_bytes-buffer_of max_size octets h =
    let count : length octets % 2 ^ 8 ≡ length octets = omega arith in
    rw count (take_append octets (replicate (max_size - length octets) 0))

pub record Encoded (max_size : ℕ) (a b : Arc) (arcs : List Arc) (oid : Buffer) : Type 0 where
  pub first : a ≤ 2
  pub second : b ≤ 39
  pub room : length (body_octets arcs) + 1 ≤ max_size
  pub is : oid ≡ buffer_of max_size ((a * 40 + b) ∷ body_octets arcs)

encoding_ok :
    (max_size : ℕ) (arcs : List Arc) (oid : Buffer)
    → encoding max_size arcs ≡ ok oid
    → (a b : Arc) × (rest : List Arc) × (arcs ≡ a ∷ b ∷ rest) × Encoded max_size a b rest oid
unfolding encoding
encoding_ok max_size [] oid e = cc
encoding_ok max_size (a ∷ []) oid e = absurd (ground arith)
encoding_ok max_size (a ∷ b ∷ rest) oid e = (
  a,
  b,
  rest,
  refl,
  record { first = ground arith; second = ground arith; room = ground arith; is = ground arith },
)

pub encode_arcs_ok :
    (max_size : ℕ) (arcs : List Arc) (oid : Buffer)
    → 1 ≤ max_size
    → encode_arcs max_size arcs ≡ ok oid
    → (a b : Arc) × (rest : List Arc) × (arcs ≡ a ∷ b ∷ rest) × Encoded max_size a b rest oid
encode_arcs_ok max_size arcs oid h e =
    encoding_ok max_size arcs oid (sym (encode_arcs-encoding max_size arcs h) ∙ e)

pub oid_from_ref-buffer_of :
    (max_size : ℕ) (bytes : List ℕ)
    → length bytes ≤ max_size
    → oid_from_ref max_size bytes ≡ ok (buffer_of max_size bytes)
unfolding oid_from_ref buffer_of
oid_from_ref-buffer_of max_size bytes h = ground arith

pub IsSpelling-octets :
    (a b : Arc) (arcs : List Arc)
    → a ≤ 2
    → b ≤ 39
    → All IsArc arcs
    → IsSpelling ((a * 40 + b) ∷ body_octets arcs) (a ∷ b ∷ arcs)
IsSpelling-octets a b arcs h k all = (h, k, refl, AreGroups-body_octets arcs all)

pub oid_arcs-IsSpelling :
    (oid : Buffer) (bytes : List ℕ) (arcs : List Arc)
    → buffer_as_bytes oid ≡ bytes
    → IsSpelling bytes arcs
    → oid_arcs oid ≡ some arcs
unfolding oid_arcs
oid_arcs-IsSpelling oid bytes arcs is h = rw (is, arcs_of-IsSpelling bytes arcs h)

pub from_bytes_sized-IsSpelling :
    (max_size : ℕ) (bytes : List ℕ) (arcs : List Arc)
    → IsSpelling bytes arcs
    → from_bytes_sized max_size bytes ≡ oid_from_ref max_size bytes
unfolding from_bytes_sized ref_from_bytes
from_bytes_sized-IsSpelling max_size bytes arcs h = rw (arcs_of-IsSpelling bytes arcs h)

-- An identifier that `from_arcs` makes of u32 arcs, in an array of 1 to 255 bytes, has those arcs,
-- and its bytes are read as the same identifier.
pub from_bytes-encode_arcs :
    (max_size : ℕ) (arcs : List Arc) (oid : Buffer)
    → 1 ≤ max_size
    → max_size < 256
    → All IsArc arcs
    → encode_arcs max_size arcs ≡ ok oid
    → (oid_arcs oid ≡ some arcs) × (from_bytes_sized max_size (buffer_as_bytes oid) ≡ ok oid)
from_bytes-encode_arcs max_size arcs oid h small all e =
    let (a, b, rest, list, made) = encode_arcs_ok max_size arcs oid h e in
    let octets = (a * 40 + b) ∷ body_octets rest in
    let few : length octets ≤ max_size = omega (arith, made.room) in
    let bytes : buffer_as_bytes oid ≡ octets =
      ap buffer_as_bytes made.is ∙ buffer_as_bytes-buffer_of max_size octets (omega arith) in
    let words : All IsArc (a ∷ b ∷ rest) = subst (All IsArc) list all in
    let spelled : IsSpelling octets (a ∷ b ∷ rest) =
      IsSpelling-octets a b rest made.first made.second words.1.1 in
    (
      oid_arcs-IsSpelling oid octets (a ∷ b ∷ rest) bytes spelled ∙ ap some (sym list),
      ap (from_bytes_sized max_size) bytes
          ∙ from_bytes_sized-IsSpelling max_size octets (a ∷ b ∷ rest) spelled
          ∙ oid_from_ref-buffer_of max_size octets few
          ∙ ap ok (sym made.is),
    )
