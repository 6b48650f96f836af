-- ===== src/Tls/Codec/Vector.antt =====
-- tls_codec/src/quic_vec.rs and tls_vec.rs: vectors of any elements.
use formats.Common.{
  ℕ, zero, suc, ◌+◌, ◌-◌, ◌≤◌, ◌<◌, ◌≡◌, refl, sym, ap, ◌∙◌, arith, true, List, [], ◌∷◌, ◌++◌,
  append_assoc, append-nil, ok, ltb, leb, Bool-cases, inl, inr, length, length-append, All,
  All-back, IsByte,
}
use mathlib.Core.Path.{subst}
use native.Mathlib.Decide.{dec_lt}
use formats.Tls.Data.{Codec, TlsResult, >>=-ok}
use formats.Tls.Codec.{lens, serialize_all, end_vec, vec_element, vec_loop}
use formats.Tls.Codec.Lawful.{Lawful, Canonical}

module _ {A : Type 0} (c : Codec A) (InRange : A → Type 0) (octets : A → List ℕ) where
  -- The octets of the elements, one after the other.
  abbrev pub elements_octets : List A → List ℕ
  elements_octets [] = []
  elements_octets (a ∷ elements) = octets a ++ elements_octets elements

  -- An element in range that takes a byte at least.
  abbrev pub IsElement : A → Type 0
  IsElement a = InRange a × (1 ≤ length (octets a))

  pub serialize_all_lem :
      (elements : List A)
      → Lawful c InRange octets
      → All IsElement elements
      → (serialize_all c elements ≡ ok (elements_octets elements))
        × (lens c elements ≡ length (elements_octets elements))
  unfolding serialize_all lens
  serialize_all_lem [] l all = (refl, refl)
  serialize_all_lem (a ∷ rest) l all =
      let (written, count) = serialize_all_lem rest l all.1 in
      (
        rw (l.written a all.0.0, written) refl,
        omega
            (arith, l.announced a all.0.0, count, length-append (octets a) (elements_octets rest)),
      )

  taken : (a : A) (next : List ℕ) → length (octets a ++ next) - length next ≡ length (octets a)
  taken a next = omega (arith, length-append (octets a) next)

  not_longer : (a : A) (next : List ℕ) → leb (length next) (length (octets a ++ next)) ≡ true
  not_longer a next = ground (arith, length-append (octets a) next)

  vec_element_lem :
      (more : ℕ → List ℕ → List A → TlsResult (List A × List ℕ)) (read : ℕ) (a : A) (next : List ℕ)
      (result : List A)
      → 1 ≤ length (octets a)
      → vec_element c more read (octets a ++ next) result (a, next)
        ≡ more (read + length (octets a)) next (result ++ (a ∷ []))
  vec_element_lem more read a next result h = rw (not_longer a next, taken a next) (ground arith)

  -- One round of the loop, on an element and what follows it.
  vec_round :
      (rounds len read : ℕ) (a : A) (next : List ℕ) (result : List A)
      → Lawful c InRange octets
      → IsElement a
      → read < len
      → vec_loop c (suc rounds) len read (octets a ++ next) result
        ≡ vec_loop c rounds len (read + length (octets a)) next (result ++ (a ∷ []))
  unfolding vec_loop
  vec_round rounds len read a next result l h more =
      let open_loop : ltb read len ≡ true = ground arith in
      rw (open_loop, l.reads a next h.0)
        (vec_element_lem (vec_loop c rounds len) read a next result h.1)

  vec_end :
      (rounds len : ℕ) (bytes : List ℕ) (result : List A)
      → vec_loop c rounds len len bytes result ≡ ok (result, bytes)
  unfolding vec_loop
  vec_end zero len bytes result = ground arith
  vec_end (suc rounds) len bytes result = ground arith

  pub vec_loop-elements :
      (elements : List A) (rounds len read : ℕ) (rest : List ℕ) (result : List A)
      → Lawful c InRange octets
      → All IsElement elements
      → length (elements_octets elements) ≤ rounds
      → len ≡ read + length (elements_octets elements)
      → vec_loop c rounds len read (elements_octets elements ++ rest) result
        ≡ ok (result ++ elements, rest)
  vec_loop-elements [] rounds len read rest result l all enough e =
      let same : read ≡ len = omega arith in
      rw same (vec_end rounds len rest result)
      ∙ ap (λ whole. ok (whole, rest)) (sym (append-nil result))
  vec_loop-elements (a ∷ elements) zero len read rest result l all enough e =
      absurd (omega (arith, all.0.1, length-append (octets a) (elements_octets elements)))
  vec_loop-elements (a ∷ elements) (suc rounds) len read rest result l all enough e =
      let next = elements_octets elements ++ rest in
      let size = length-append (octets a) (elements_octets elements) in
      ap (λ bytes. vec_loop c (suc rounds) len read bytes result)
        (append_assoc (octets a) (elements_octets elements) rest)
      ∙ vec_round rounds len read a next result l all.0 (omega (arith, all.0.1, size))
      ∙ vec_loop-elements elements rounds len (read + length (octets a)) rest (result ++ (a ∷ [])) l
          all.1 (omega (arith, all.0.1, size)) (omega (arith, size))
      ∙ ap (λ whole. ok (whole, rest)) (append_assoc result (a ∷ []) elements)

  -- What the loop read: elements, whose bytes make up the length.
  pub record Elements (len read : ℕ) (bytes : List ℕ) (result whole : List A) (rest : List ℕ)
      : Type 0 where
    pub elements : List A
    pub all : All IsElement elements
    pub whole_is : whole ≡ result ++ elements
    pub bytes_are : bytes ≡ elements_octets elements ++ rest
    pub count : len ≡ read + length (elements_octets elements)

  no_Elements :
      (len read : ℕ) (bytes : List ℕ) (result whole : List A) (rest : List ℕ)
      → end_vec c len read bytes result ≡ ok (whole, rest)
      → Elements len read bytes result whole rest
  no_Elements len read bytes result whole rest e =
      let same : result ≡ whole = ground arith in
      record {
        elements = [];
        all = tt;
        whole_is = sym same ∙ sym (append-nil result);
        bytes_are = ground arith;
        count = ground arith;
      }

  more_Elements :
      (len read : ℕ) (a : A) (next : List ℕ) (result whole : List A) (rest : List ℕ)
      → IsElement a
      → Elements len (read + length (octets a)) next (result ++ (a ∷ [])) whole rest
      → Elements len read (octets a ++ next) result whole rest
  more_Elements len read a next result whole rest h t = record {
    elements = a ∷ t.elements;
    all = (h, t.all);
    whole_is = t.whole_is ∙ append_assoc result (a ∷ []) t.elements;
    bytes_are =
        ap (λ l. octets a ++ l) t.bytes_are
        ∙ sym (append_assoc (octets a) (elements_octets t.elements) rest);
    count = omega (arith, t.count, length-append (octets a) (elements_octets t.elements));
  }

  vec_element_ok :
      (more : ℕ → List ℕ → List A → TlsResult (List A × List ℕ)) (read : ℕ) (a : A) (next : List ℕ)
      (result : List A) {q : List A × List ℕ}
      → vec_element c more read (octets a ++ next) result (a, next) ≡ ok q
      → (1 ≤ length (octets a)) × (more (read + length (octets a)) next (result ++ (a ∷ [])) ≡ ok q)
  vec_element_ok more read a next result e = elim (dec_lt 0 (length (octets a))) [
    | yes some ↦ (omega arith, sym (vec_element_lem more read a next result (omega arith)) ∙ e)
    | no nothing ↦ absurd (ground (arith, taken a next, not_longer a next))
  ]

  pub vec_loop_ok :
      (rounds len read : ℕ) (bytes : List ℕ) (result whole : List A) (rest : List ℕ)
      → Canonical c InRange octets
      → All IsByte bytes
      → vec_loop c rounds len read bytes result ≡ ok (whole, rest)
      → Elements len read bytes result whole rest
  unfolding vec_loop
  vec_loop_ok zero len read bytes result whole rest k all e =
      no_Elements len read bytes result whole rest e
  vec_loop_ok (suc rounds) len read bytes result whole rest k all e =
      elim (Bool-cases (ltb read len)) [
        | inr done ↦ no_Elements len read bytes result whole rest (rw done at e)
        | inl more ↦
            let ((a, next), read_one, later) =
              >>=-ok (c.tls_deserialize_bytes bytes)
                (vec_element c (vec_loop c rounds len) read bytes result) (rw more at e) in
            let (range, is) = k.only bytes a next all read_one in
            let later' : vec_element c (vec_loop c rounds len) read (octets a ++ next) result
                  (a, next)
                ≡ ok (whole, rest) =
              ap (λ b. vec_element c (vec_loop c rounds len) read b result (a, next)) (sym is)
              ∙ later in
            let (some, loop) = vec_element_ok (vec_loop c rounds len) read a next result later' in
            let behind = All-back IsByte (octets a) next (subst (All IsByte) is all) in
            rw is (
              more_Elements len read a next result whole rest (range, some)
                (vec_loop_ok rounds len (read + length (octets a)) next (result ++ (a ∷ [])) whole
                  rest k behind loop))
      ]
