-- ===== src/Tls/Codec/Bytes.antt =====
-- tls_codec/src/quic_vec.rs and tls_vec.rs: content behind its length, and vectors of bytes.
use formats.Common.{
  ℕ, zero, suc, ◌+◌, ◌^◌, ◌≤◌, ◌<◌, ◌≡◌, ◌↔◌, refl, sym, ap, ◌∙◌, arith, Bool, true, false, List,
  [], ◌∷◌, ◌++◌, append_assoc, ok, length, length-append, length-take, take, take_append, drop,
  drop_append, take-append-drop, All, IsByte,
}
use mathlib.Core.Path.{subst}
use native.Mathlib.Decide.{dec_le}
use formats.Tls.Data.{◌>>=◌, >>=-ok, ok_inj}
use formats.Tls.VarInt
use formats.Tls.VarInt.{max_varint, try_new}
use formats.Tls.VarInt.Octets.{varint_octets, serialize-varint_octets, bytes_len_small}
use formats.Tls.VarInt.Laws.{deserialize-varint_octets, deserialize_ok}
use formats.Tls.Codec.{
  max_mls_len, content_length, content_length_from_usize, deserialize_content_length, with_length,
  len_with_length, vl_content, deserialize_vl_bytes, vl_bytes,
}
use formats.Tls.Codec.Lawful.{Lawful, Canonical}
use formats.Tls.Codec.Options.{checked_alloc_len_ok}

-- A length that the writer accepts, by the feature `mls`.
abbrev pub IsContentLength : Bool → ℕ → Type 0
IsContentLength true n = n ≤ max_mls_len
IsContentLength false n = n ≤ max_varint

pub content_length_range : (mls : Bool) (n : ℕ) → IsContentLength mls n → n ≤ max_varint
content_length_range true n h = omega arith
content_length_range false n h = h

content_length_lem :
    (mls : Bool) (n : ℕ) → IsContentLength mls n → content_length_from_usize mls n ≡ ok n
unfolding content_length_from_usize content_length try_new
content_length_lem true n h = ground arith
content_length_lem false n h = ground arith

module _ (mls : Bool) (n : ℕ) (h : IsContentLength mls n) where
  pub with_length_lem :
      (content : List ℕ) → with_length mls n (ok content) ≡ ok (varint_octets n ++ content)
  unfolding with_length
  with_length_lem content =
      let range = content_length_range mls n h in
      let small : n + VarInt.bytes_len n < 2 ^ 63 = omega (arith, bytes_len_small n) in
      rw
        (
          content_length_lem mls n h,
          checked_alloc_len_ok n (VarInt.bytes_len n) small,
          (serialize-varint_octets n range).0,
        )
        refl

  pub len_with_length_lem :
      (content : List ℕ)
      → length content ≡ n
      → len_with_length mls n ≡ length (varint_octets n ++ content)
  unfolding len_with_length
  len_with_length_lem content e =
      let range = content_length_range mls n h in
      rw (content_length_lem mls n h) (
        omega (arith, length-append (varint_octets n) content, (serialize-varint_octets n range).1))

vl_content_lem : (vec rest : List ℕ) → vl_content (length vec, vec ++ rest) ≡ ok (vec, rest)
vl_content_lem [] rest = refl
vl_content_lem (b ∷ vec) rest =
    rw (take_append vec rest, drop_append vec rest) (ground (arith, length-append (b ∷ vec) rest))

pub vl_octets : List ℕ → List ℕ
vl_octets vec = varint_octets (length vec) ++ vec

vl_reads :
    (mls : Bool) (vec rest : List ℕ)
    → length vec ≤ max_varint
    → deserialize_vl_bytes mls (vl_octets vec ++ rest) ≡ ok (vec, rest)
unfolding deserialize_vl_bytes vl_octets
vl_reads mls vec rest h =
    ap (deserialize_vl_bytes mls) (append_assoc (varint_octets (length vec)) vec rest)
    ∙ ap (λ r. r >>= vl_content) (deserialize-varint_octets mls (length vec) (vec ++ rest) h)
    ∙ vl_content_lem vec rest

-- Nothing longer is written.
with_length-IsContentLength :
    (mls : Bool) (content out : List ℕ)
    → length content ≤ max_varint
    → with_length mls (length content) (ok content) ≡ ok out
    → IsContentLength mls (length content)
unfolding with_length content_length_from_usize content_length try_new
with_length-IsContentLength false content out h e = h
with_length-IsContentLength true content out h e = elim (dec_le (length content) max_mls_len) [
  | yes few ↦ few
  | no more ↦ absurd (ground arith)
]

-- Up to 2 ^ 62 - 1 bytes of content, the reader of `VLBytes` gives every content back from its
-- octets, with and without the feature `mls`; the writer makes these octets of exactly the contents
-- of up to 2 ^ 30 - 1 bytes in that feature, and of all of them without it.
pub vl_bytes_limits :
    (mls : Bool) (vec rest : List ℕ)
    → length vec ≤ max_varint
    → (deserialize_vl_bytes mls (vl_octets vec ++ rest) ≡ ok (vec, rest))
      × (((vl_bytes mls).tls_serialize_bytes vec ≡ ok (vl_octets vec))
          ↔ IsContentLength mls (length vec))
unfolding vl_octets
vl_bytes_limits mls vec rest h = (
  vl_reads mls vec rest h,
  (
    with_length-IsContentLength mls vec (vl_octets vec) h,
    λ range. with_length_lem mls (length vec) range vec,
  ),
)

pub vl_bytes-Lawful :
    (mls : Bool) → Lawful (vl_bytes mls) (λ vec. IsContentLength mls (length vec)) vl_octets
unfolding vl_octets
vl_bytes-Lawful mls = record {
  written = λ vec h. with_length_lem mls (length vec) h vec;
  announced = λ vec h. len_with_length_lem mls (length vec) h vec refl;
  reads = λ vec rest h. vl_reads mls vec rest (content_length_range mls (length vec) h);
}

pub cut_ok :
    (n : ℕ) (bytes vec rest : List ℕ)
    → n ≤ length bytes
    → take n bytes ≡ vec
    → drop n bytes ≡ rest
    → (length vec ≡ n) × (bytes ≡ vec ++ rest)
cut_ok n bytes vec rest h front back = (
  omega (arith, ap length front, length-take n bytes),
  sym (take-append-drop n bytes) ∙ rw (front, back) refl,
)

vl_content_ok :
    (n : ℕ) (bytes vec rest : List ℕ)
    → vl_content (n, bytes) ≡ ok (vec, rest)
    → (length vec ≡ n) × (bytes ≡ vec ++ rest)
vl_content_ok zero bytes vec rest e =
    subst (λ q. (length q.0 ≡ 0) × (bytes ≡ q.0 ++ q.1)) (ok_inj e) (refl, refl)
vl_content_ok (suc n) bytes vec rest e =
    cut_ok (suc n) bytes vec rest (ground arith) (ground arith) (ground arith)

-- With the feature `mls`, `VLBytes` are read only from their own octets, the length in the fewest
-- bytes and then as many bytes as it says.
pub deserialize_vl_bytes_ok :
    (bytes vec rest : List ℕ)
    → All IsByte bytes
    → deserialize_vl_bytes true bytes ≡ ok (vec, rest)
    → (length vec ≤ max_varint) × (bytes ≡ vl_octets vec ++ rest)
unfolding deserialize_vl_bytes vl_octets
deserialize_vl_bytes_ok bytes vec rest all e =
    let ((n, tail), read, content) = >>=-ok (deserialize_content_length true bytes) vl_content e in
    let (range, is) = deserialize_ok bytes n tail all read in
    let (count, whole) = vl_content_ok n tail vec rest content in
    (
      omega arith,
      is ∙ rw (whole, ← count) (sym (append_assoc (varint_octets (length vec)) vec rest)),
    )

pub vl_bytes-Canonical : Canonical (vl_bytes true) (λ vec. length vec ≤ max_varint) vl_octets
vl_bytes-Canonical = record { only = deserialize_vl_bytes_ok }
