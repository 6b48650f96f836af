-- ===== src/Tls/Codec/Whole.antt =====
-- tls_codec/src/quic_vec.rs and tls_vec.rs: whole vectors behind their length.
use formats.Common.{
  ℕ, zero, suc, ◌+◌, ◌-◌, ◌^◌, ◌≤◌, ◌<◌, ◌≡◌, refl, sym, ap, ◌∙◌, arith, Bool, true, List, [], ◌∷◌,
  ◌++◌, append_assoc, ok, ltb, leb, if◌then◌else◌, Result-cases, inl, inr, length, length-append,
  All, All-back, IsByte,
}
use mathlib.Core.Path.{subst}
use native.Mathlib.Decide.{dec_lt}
use formats.Common.BigEndian.{be_bytes}
use formats.Tls.Data.{Codec, TlsResult, ◌>>=◌, >>=-ok, ok_inj}
use formats.Tls.VarInt.{max_varint}
use formats.Tls.VarInt.Octets.{varint_octets}
use formats.Tls.VarInt.Laws.{deserialize-varint_octets, deserialize_ok}
use formats.Tls.Codec.{
  deserialize_unsigned, with_length, len_with_length, deserialize_content_length, serialize_all,
  end_vec, vec_element, vec_loop, vec_content, deserialize_vec, vec, tls_vec_content,
  deserialize_tls_vec,
}
use formats.Tls.Codec.Lawful.{Lawful, Canonical}
use formats.Tls.Codec.Primitives.{unsigned_only}
use formats.Tls.Codec.Bytes.{
  IsContentLength, content_length_range, with_length_lem, len_with_length_lem,
}
use formats.Tls.Codec.Vector.{
  elements_octets, IsElement, Elements, serialize_all_lem, vec_loop-elements, vec_loop_ok,
}

module _ {A : Type 0} (c : Codec A) where
  vec_element_same :
      (f g : ℕ → List ℕ → List A → TlsResult (List A × List ℕ)) (read : ℕ) (bytes : List ℕ)
      (result : List A) (p : A × List ℕ)
      → ((more : ℕ) (next : List ℕ) (whole : List A)
          → read < more
          → f more next whole ≡ g more next whole)
      → length p.1 ≤ length bytes
      → vec_element c f read bytes result p ≡ vec_element c g read bytes result p
  vec_element_same f g read bytes result (a, next) h shrinks =
      let shorter : leb (length next) (length bytes) ≡ true = ground arith in
      let consumed : ℕ = length bytes - length next in
      elim (dec_lt 0 consumed) [
        | yes some ↦
            rw shorter (ground (arith, h (read + consumed) next (result ++ (a ∷ [])) (omega arith)))
        | no nothing ↦ rw shorter (ground arith)
      ]

  -- Where no element leaves more bytes than it was read from, the loop over the elements of a vector
  -- ends within as many rounds as there are bytes to read: more rounds change nothing.
  pub vec_loop-rounds :
      ((bytes : List ℕ) (a : A) (next : List ℕ)
        → c.tls_deserialize_bytes bytes ≡ ok (a, next)
        → length next ≤ length bytes)
      → (rounds more len read : ℕ) (bytes : List ℕ) (result : List A) → len ≤ read + rounds
      → rounds ≤ more
      → vec_loop c more len read bytes result ≡ vec_loop c rounds len read bytes result
  unfolding vec_loop
  vec_loop-rounds shrinks zero zero len read bytes result h k = refl
  vec_loop-rounds shrinks zero (suc more) len read bytes result h k = ground arith
  vec_loop-rounds shrinks (suc rounds) zero len read bytes result h k = absurd (omega arith)
  vec_loop-rounds shrinks (suc rounds) (suc more) len read bytes result h k =
      elim (Result-cases (c.tls_deserialize_bytes bytes)) [
        | inl (p, is) ↦ rw is (
            ap (λ r. if ltb read len then r else end_vec c len read bytes result)
              (vec_element_same (vec_loop c more len) (vec_loop c rounds len) read bytes result p
                (λ more' next whole lt.
                  vec_loop-rounds shrinks rounds more len more' next whole (omega arith)
                    (omega arith))
                (shrinks bytes p.0 p.1 is)))
        | inr (e, is) ↦ rw is
      ]

module _ {A : Type 0} (c : Codec A) (InRange : A → Type 0) (octets : A → List ℕ) where
  abbrev content : List A → List ℕ
  content elements = elements_octets c InRange octets elements

  vec_content_some :
      (n : ℕ) (bytes : List ℕ) → 1 ≤ n → vec_content c (n, bytes) ≡ vec_loop c n n 0 bytes []
  vec_content_some n bytes h = ground arith

  vec_content_lem :
      (elements : List A) (rest : List ℕ)
      → Lawful c InRange octets
      → All (IsElement c InRange octets) elements
      → vec_content c (length (content elements), content elements ++ rest) ≡ ok (elements, rest)
  vec_content_lem [] rest l all = refl
  vec_content_lem (a ∷ elements) rest l all =
      let bytes = content (a ∷ elements) in
      vec_content_some (length bytes) (bytes ++ rest)
        (omega (arith, all.0.1, length-append (octets a) (content elements)))
      ∙ vec_loop-elements c InRange octets (a ∷ elements) (length bytes) (length bytes) 0 rest [] l
          all (omega arith) (omega arith)

  vec_content_ok :
      (n : ℕ) (bytes : List ℕ) (elements : List A) (rest : List ℕ)
      → Canonical c InRange octets
      → All IsByte bytes
      → vec_content c (n, bytes) ≡ ok (elements, rest)
      → Elements c InRange octets n 0 bytes [] elements rest
  vec_content_ok zero bytes elements rest k all e = record {
    elements = [];
    all = tt;
    whole_is = sym (ap (λ p. p.0) (ok_inj e));
    bytes_are = ap (λ p. p.1) (ok_inj e);
    count = omega arith;
  }
  vec_content_ok (suc n) bytes elements rest k all e =
      vec_loop_ok c InRange octets (suc n) (suc n) 0 bytes [] elements rest k all
        (sym (vec_content_some (suc n) bytes (omega arith)) ∙ e)

  -- The elements that were read are all of them, and make up the bytes behind the length.
  whole_vector :
      (n : ℕ) (bytes : List ℕ) (elements : List A) (rest : List ℕ)
      → Elements c InRange octets n 0 bytes [] elements rest
      → All (IsElement c InRange octets) elements
        × (length (content elements) ≡ n)
        × (bytes ≡ content elements ++ rest)
  whole_vector n bytes elements rest t = (
    subst (All (IsElement c InRange octets)) (sym t.whole_is) t.all,
    ap (λ l. length (content l)) t.whole_is ∙ omega (arith, t.count),
    t.bytes_are ∙ ap (λ l. content l ++ rest) (sym t.whole_is),
  )

  deserialize_vec_frame :
      (mls : Bool) (n : ℕ) (elements : List A) (rest : List ℕ)
      → Lawful c InRange octets
      → All (IsElement c InRange octets) elements
      → n ≤ max_varint
      → n ≡ length (content elements)
      → deserialize_vec c mls (varint_octets n ++ (content elements ++ rest)) ≡ ok (elements, rest)
  unfolding deserialize_vec
  deserialize_vec_frame mls n elements rest l all h e =
      ap (λ r. r >>= vec_content c) (deserialize-varint_octets mls n (content elements ++ rest) h)
      ∙ ap (λ m. vec_content c (m, content elements ++ rest)) e
      ∙ vec_content_lem elements rest l all

  -- A vector of elements of a lawful type, each in range and of one byte or more, whose bytes are as
  -- many as a length may say, is written in as many bytes as announced, its length and then its
  -- elements, and comes back, whatever follows it.
  pub vec_back :
      (mls : Bool) (elements : List A) (rest : List ℕ)
      → Lawful c InRange octets
      → All (IsElement c InRange octets) elements
      → IsContentLength mls (length (content elements))
      → (let out = varint_octets (length (content elements)) ++ content elements in
          ((vec c mls).tls_serialize_bytes elements ≡ ok out)
          × ((vec c mls).tls_serialized_len elements ≡ length out)
          × (deserialize_vec c mls (out ++ rest) ≡ ok (elements, rest)))
  vec_back mls elements rest l all h =
      let n = length (content elements) in
      let (written, count) = serialize_all_lem c InRange octets elements l all in
      (
        ap (λ len. with_length mls len (serialize_all c elements)) count
            ∙ ap (with_length mls n) written
            ∙ with_length_lem mls n h (content elements),
        ap (len_with_length mls) count ∙ len_with_length_lem mls n h (content elements) refl,
        ap (deserialize_vec c mls) (append_assoc (varint_octets n) (content elements) rest)
            ∙ deserialize_vec_frame mls n elements rest l all (content_length_range mls n h) refl,
      )

  -- With the feature `mls`, a vector of elements of a canonical type is read only from its length in
  -- the fewest bytes and then the octets of its elements, each of one byte or more.
  pub deserialize_vec_ok :
      (bytes : List ℕ) (elements : List A) (rest : List ℕ)
      → Canonical c InRange octets
      → All IsByte bytes
      → deserialize_vec c true bytes ≡ ok (elements, rest)
      → All (IsElement c InRange octets) elements
        × (length (content elements) ≤ max_varint)
        × (bytes ≡ varint_octets (length (content elements)) ++ (content elements ++ rest))
  unfolding deserialize_vec
  deserialize_vec_ok bytes elements rest k all e =
      let ((n, tail), read, loop) =
        >>=-ok (deserialize_content_length true bytes) (vec_content c) e in
      let (range, is) = deserialize_ok bytes n tail all read in
      let behind = All-back IsByte (varint_octets n) tail (subst (All IsByte) is all) in
      let (every, count, whole) =
        whole_vector n tail elements rest (vec_content_ok n tail elements rest k behind loop) in
      (
        every,
        omega arith,
        is ∙ rw whole (ap (λ m. varint_octets m ++ (content elements ++ rest)) (sym count)),
      )

  -- The same for `TlsVecU8` to `TlsVecU32`, whose length has a fixed number of bytes.
  pub deserialize_tls_vec_ok :
      (len_len : ℕ) (bytes : List ℕ) (elements : List A) (rest : List ℕ)
      → Canonical c InRange octets
      → All IsByte bytes
      → deserialize_tls_vec c len_len bytes ≡ ok (elements, rest)
      → All (IsElement c InRange octets) elements
        × (length (content elements) < 256 ^ len_len)
        × (bytes ≡ be_bytes len_len (length (content elements)) ++ (content elements ++ rest))
  unfolding deserialize_tls_vec
  deserialize_tls_vec_ok len_len bytes elements rest k all e =
      let ((n, tail), read, loop) =
        >>=-ok (deserialize_unsigned len_len bytes) (tls_vec_content c) e in
      let (range, is) = unsigned_only len_len bytes n tail all read in
      let behind = All-back IsByte (be_bytes len_len n) tail (subst (All IsByte) is all) in
      let (every, count, whole) =
        whole_vector n tail elements rest
          (vec_loop_ok c InRange octets n n 0 tail [] elements rest k behind loop) in
      (
        every,
        omega arith,
        is ∙ rw whole (ap (λ m. be_bytes len_len m ++ (content elements ++ rest)) (sym count)),
      )
