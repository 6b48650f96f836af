-- ===== src/Oid/Identifier/Bytes.antt =====
-- const-oid/src/lib.rs: identifiers from bytes.
use formats.Common.{
  ℕ, zero, suc, ◌+◌, ◌-◌, ◌*◌, ◌/◌, ◌%◌, ◌^◌, ◌≤◌, ◌<◌, ◌≡◌, ◌≢◌, ◌⊎◌, ◌↔◌, inl, inr, refl, sym, ap,
  ◌∙◌, arith, some, List, [], ◌∷◌, ◌++◌, ok, length, length-take, take, take_all, replicate, All,
  IsByte,
}
use native.Mathlib.Decide.{dec_lt}
use native.Mathlib.Nat.{div-eq_of_lt, pow-suc}
use formats.Common.Base128.{groups}
use formats.Oid.Data.{Arc, >>=-ok, ok_inj, Buffer, buffer_as_bytes}
use formats.Oid.Arcs.{arcs_of}
use formats.Oid.Arcs.Spelling.{IsSpelling, arcs_of-IsSpelling}
use formats.Oid.Arcs.Accepted.{arcs_of_iff}
use formats.Oid.Identifier.{encode_arcs, oid_arcs, ref_from_bytes, oid_from_ref, from_bytes_sized}
use formats.Oid.Identifier.Encoding.{body_octets, buffer_of, encoding, encode_arcs-encoding}
use formats.Oid.Identifier.RoundTrip.{
  body_octets_least, oid_arcs-IsSpelling, from_bytes_sized-IsSpelling, oid_from_ref-buffer_of,
}

ref_from_bytes_ok :
    (ber ber' : List ℕ)
    → ref_from_bytes ber ≡ ok ber'
    → (ber' ≡ ber) × (arcs : List Arc) × (arcs_of ber ≡ ok arcs)
unfolding ref_from_bytes
ref_from_bytes_ok ber ber' e =
    let (arcs, is, same) = >>=-ok (arcs_of ber) (λ _. ok ber) e in (sym (ok_inj same), arcs, is)

oid_from_ref_ok :
    (max_size : ℕ) (ber : List ℕ) (oid : Buffer)
    → oid_from_ref max_size ber ≡ ok oid
    → (length ber ≤ max_size) × (oid ≡ buffer_of max_size ber)
unfolding oid_from_ref buffer_of
oid_from_ref_ok max_size ber oid e = (ground arith, ground arith)

take-append_le : (n : ℕ) (xs ys : List ℕ) → n ≤ length xs → take n (xs ++ ys) ≡ take n xs
take-append_le zero xs ys h = refl
take-append_le (suc n) [] ys h = absurd (omega arith)
take-append_le (suc n) (x ∷ xs) ys h = ap (◌∷◌ x) (take-append_le n xs ys (omega arith))

buffer_of_cut :
    (max_size : ℕ) (ber : List ℕ)
    → buffer_as_bytes (buffer_of max_size ber) ≡ take (length ber % 256) ber
unfolding buffer_as_bytes buffer_of
buffer_of_cut max_size ber =
    take-append_le (length ber % 256) ber (replicate (max_size - length ber) 0) (omega arith)

accepted :
    (max_size : ℕ) (ber : List ℕ) (oid : Buffer)
    → All IsByte ber
    → from_bytes_sized max_size ber ≡ ok oid
    → (arcs : List Arc) × IsSpelling ber arcs
      × (length ber ≤ max_size)
      × (oid ≡ buffer_of max_size ber)
unfolding from_bytes_sized
accepted max_size ber oid all e =
    let (ber', is, made) = >>=-ok (ref_from_bytes ber) (oid_from_ref max_size) e in
    let (same, arcs, read) = ref_from_bytes_ok ber ber' is in
    let (few, whole) =
      oid_from_ref_ok max_size ber oid (ap (oid_from_ref max_size) (sym same) ∙ made) in
    (arcs, (arcs_of_iff ber arcs all).0 read, few, whole)

-- The length is kept in a u8.
kept_bytes :
    (max_size : ℕ) (ber : List ℕ) (oid : Buffer)
    → All IsByte ber
    → from_bytes_sized max_size ber ≡ ok oid
    → buffer_as_bytes oid ≡ take (length ber % 256) ber
kept_bytes max_size ber oid all e =
    let (arcs, spelled, few, is) = accepted max_size ber oid all e in
    ap buffer_as_bytes is ∙ buffer_of_cut max_size ber

-- Of 256 bytes or more, `from_bytes_sized` makes an identifier exactly where they spell out arcs and
-- fit in the array, and the bytes of that identifier are never the bytes that were given, but only
-- the first ones, as many as the remainder of their number by 256.
pub from_bytes_sized_cut :
    (max_size : ℕ) (ber : List ℕ)
    → All IsByte ber
    → 256 ≤ length ber
    → ((oid : Buffer) × (from_bytes_sized max_size ber ≡ ok oid)
        × (buffer_as_bytes oid ≡ take (length ber % 256) ber)
        × (buffer_as_bytes oid ≢ ber))
      ↔ ((arcs : List Arc) × IsSpelling ber arcs × (length ber ≤ max_size))
from_bytes_sized_cut max_size ber all long = (
  λ (oid, made, cut, other).
      let (arcs, spelled, few, is) = accepted max_size ber oid all made in (arcs, spelled, few),
  λ (arcs, spelled, few).
      let oid = buffer_of max_size ber in
      let cut = buffer_of_cut max_size ber in
      (
        oid,
        from_bytes_sized-IsSpelling max_size ber arcs spelled
            ∙ oid_from_ref-buffer_of max_size ber few,
        cut,
        λ same.
            absurd
              (omega (arith, long, ap length (sym cut ∙ same), length-take (length ber % 256) ber)),
      ),
)

encoding_fits :
    (max_size : ℕ) (a b : Arc) (arcs : List Arc)
    → a ≤ 2
    → b ≤ 39
    → length (body_octets arcs) + 1 ≤ max_size
    → encode_arcs max_size (a ∷ b ∷ arcs)
      ≡ ok (buffer_of max_size ((a * 40 + b) ∷ body_octets arcs))
unfolding encoding
encoding_fits max_size a b arcs h k room =
    encode_arcs-encoding max_size (a ∷ b ∷ arcs) (omega arith) ∙ ground arith

length-buffer_of :
    (max_size : ℕ) (octets : List ℕ)
    → length octets < 256
    → (buffer_of max_size octets).length ≡ length octets
unfolding buffer_of
length-buffer_of max_size octets h = omega arith

shortest :
    (max_size : ℕ) (ber : List ℕ) (arcs : List Arc)
    → length ber ≤ max_size
    → max_size < 256
    → IsSpelling ber arcs
    → (s : Buffer) × (encode_arcs max_size arcs ≡ ok s)
      × (s.length ≤ (buffer_of max_size ber).length)
      × (s.length ≡ (buffer_of max_size ber).length → s ≡ buffer_of max_size ber)
shortest max_size [] arcs few small h = absurd h
shortest max_size (root ∷ bs) [] few small h = absurd h
shortest max_size (root ∷ bs) (a ∷ []) few small h = absurd h
shortest max_size (root ∷ bs) (a ∷ b ∷ arcs) few small (first, second, is, more) =
    let (least, only) = body_octets_least arcs bs more in
    let octets = (a * 40 + b) ∷ body_octets arcs in
    let long = length-buffer_of max_size (root ∷ bs) (omega arith) in
    let short = length-buffer_of max_size octets (omega arith) in
    (
      buffer_of max_size octets,
      encoding_fits max_size a b arcs first second (omega arith),
      omega arith,
      λ e.
          ap (λ t. buffer_of max_size ((a * 40 + b) ∷ t)) (sym (only (omega arith)))
          ∙ ap (λ r. buffer_of max_size (r ∷ bs)) (sym is),
    )

-- From an array of up to 255 bytes, `from_bytes_sized` accepts only bytes that spell out two arcs or
-- more in the ranges of X.660, and keeps them; encoding their arcs gives the same identifier or a
-- shorter one.
pub from_bytes_sized_ok :
    (max_size : ℕ) (ber : List ℕ) (oid : Buffer)
    → All IsByte ber
    → max_size < 256
    → from_bytes_sized max_size ber ≡ ok oid
    → (buffer_as_bytes oid ≡ ber)
      × (arcs : List Arc) × IsSpelling ber arcs
      × (oid_arcs oid ≡ some arcs)
      × (shortest : Buffer) × (encode_arcs max_size arcs ≡ ok shortest)
      × ((shortest ≡ oid) ⊎ (shortest.length < oid.length))
from_bytes_sized_ok max_size ber oid all small e =
    let (arcs, spelled, few, is) = accepted max_size ber oid all e in
    let whole : take (length ber % 256) ber ≡ ber =
      ap (λ k. take k ber) {x = length ber % 256} {y = length ber} (omega arith)
      ∙ take_all (length ber) ber (omega arith) in
    let bytes = kept_bytes max_size ber oid all e ∙ whole in
    let (s, encoded, least, only) = shortest max_size ber arcs few small spelled in
    (
      bytes,
      arcs,
      spelled,
      oid_arcs-IsSpelling oid ber arcs bytes spelled,
      s,
      encoded,
      elim (dec_lt s.length oid.length) [
        | yes less ↦ inr less
        | no same ↦ inl (only (omega (arith, least, ap (λ o. o.length) is)) ∙ sym is)
      ],
    )

wider : (n high : ℕ) → n < 128 ^ suc high → n < 128 ^ suc (suc high)
wider n high h = omega (arith, pow-suc 128 (suc high))

-- A leading zero group, 0x80, in front of the third arc changes the bytes and not the arcs, so that
-- identifiers with the same arcs may differ.
pub arcs_of_padded :
    (root : ℕ) (bs : List ℕ) (a b n : Arc) (arcs : List Arc)
    → IsSpelling (root ∷ bs) (a ∷ b ∷ n ∷ arcs)
    → (arcs_of (root ∷ bs) ≡ ok (a ∷ b ∷ n ∷ arcs))
      × (arcs_of (root ∷ 0x80 ∷ bs) ≡ ok (a ∷ b ∷ n ∷ arcs))
      × (root ∷ 0x80 ∷ bs ≢ root ∷ bs)
arcs_of_padded root bs a b n arcs (first, second, is, (high, rest, here, fits, below, more)) =
    let zero_group : n / 128 ^ suc high % 128 + 128 ≡ 0x80 = omega (arith, div-eq_of_lt below) in
    let padded : IsSpelling (root ∷ 0x80 ∷ bs) (a ∷ b ∷ n ∷ arcs) = (
      first,
      second,
      is,
      (
        suc high,
        rest,
        ap (λ t. 0x80 ∷ t) here ∙ ap (λ g. g ∷ (groups (suc high) n ++ rest)) (sym zero_group),
        fits,
        wider n high below,
        more,
      ),
    ) in
    (
      arcs_of-IsSpelling (root ∷ bs) (a ∷ b ∷ n ∷ arcs)
          (first, second, is, (high, rest, here, fits, below, more)),
      arcs_of-IsSpelling (root ∷ 0x80 ∷ bs) (a ∷ b ∷ n ∷ arcs) padded,
      λ e. absurd (omega (arith, ap length e)),
    )
