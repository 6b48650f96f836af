-- ===== src/Der/Value/Laws/Decoding.antt =====
-- der/src/decode.rs: decoding a value, on the laws of its operations.
use formats.Common.{
  ℕ, ◌+◌, ◌<◌, ◌≡◌, refl, sym, ap, ◌∙◌, arith, ok, List, ◌++◌, length, length-append, All, IsByte,
  append_assoc, All-take, append-nil, take, drop, take-append-drop, drop-take_add, length-take,
  false, [], ◌∷◌,
}
use mathlib.Core.Path.{subst, ap₂}
use mathlib.Core.Logic.{if_pos, if_neg}
use formats.Der.Data.{Tag, Tag-discrete}
use formats.Der.Header
use formats.Der.Header.{Header}
use formats.Der.Header.Canonical.{header_decode_ok}
use formats.Der.Header.Keeping.{header_decode-Safe as header_Safe}
use formats.Der.Header.Octets.{header_octets}
use formats.Der.Header.RoundTrip.{header_decode-Reads as header_Reads}
use formats.Der.Length.{IsLength}
use formats.Der.Reader
use formats.Der.Reader.{SliceReader, Decoder, ◌>>=◌}
use formats.Der.Reader.Keeps.{Keeps, >>=-Safe, lift-Safe}
use formats.Der.Reader.Nested.{window, window-IsValid, read_nested-Keeps}
use formats.Der.Reader.Nesting.{read_nested-Reads, read_nested_ok, read_nested_fits}
use formats.Der.Reader.Ready.{
  IsValid, Ready, ahead, Ready-skip, Ready-extend, skip, skip-skip, >>=-ok,
}
use formats.Der.Value.{Value, read_value, decode}
use formats.Der.Value.Laws.{IsValue, tlv_octets}

pub assert_eq_self : (t : Tag) → Header.assert_eq t t ≡ ok t
unfolding Header.assert_eq
assert_eq_self t = rw (if_pos _ refl)

assert_eq_ok : (t expected : Tag) {u : Tag} → Header.assert_eq t expected ≡ ok u → t ≡ expected
unfolding Header.assert_eq
assert_eq_ok t expected e = elim (Tag-discrete t expected) [
  | yes same ↦ same
  | no other ↦ cc (rw (if_neg _ other) at e)
]

pub length_nil : (xs : List ℕ) → length xs ≡ 0 → xs ≡ []
length_nil [] h = refl
length_nil (x ∷ xs) h = absurd (omega arith)

module _ {A : Type 0} {v : Value A} {Fits : A → Type 0} {octets : A → List ℕ}
    (law : IsValue v Fits octets) where
  -- In front of a value's octets, whatever follows, the value is read, where the nesting allows it.
  pub decode_reads :
      (a : A) (r : SliceReader) (rest : List ℕ)
      → Fits a
      → IsLength (length (octets a))
      → Ready r (tlv_octets v.fixed_tag (octets a) ++ rest)
      → r.position.depth < 64
      → decode v r ≡ (ok a, skip r (length (tlv_octets v.fixed_tag (octets a))))
  unfolding decode Header.new
  decode_reads a r rest fits small ready room =
      let n = length (octets a) in
      let t = v.fixed_tag in
      let front : Ready r (header_octets t n ++ (octets a ++ rest)) =
        rw (append_assoc (header_octets t n) (octets a) rest) at ready in
      let next = Ready-skip r (header_octets t n) (octets a ++ rest) front in
      let contents =
        read_nested-Reads (v.decode_value (Header.new t n)) (octets a) a (law.reads a fits small)
          (skip r (length (header_octets t n))) rest next room in
      rw (header_Reads t n law.tag_fits small r (octets a ++ rest) front, assert_eq_self t)
        (contents
          ∙ ap (λ q. (ok a, q))
              (skip-skip r (length (header_octets t n)) n
                ∙ ap (skip r) (sym (length-append (header_octets t n) (octets a)))))

  -- Whether decoding a value succeeds or fails, a valid reader stays valid, with the same window and
  -- nesting depth, does not move back, and does not recover from a failure.
  pub value_decode-Safe : (r : SliceReader) → IsValid r → Keeps r (decode v r).1
  unfolding decode
  value_decode-Safe =
      >>=-Safe Header.decode
        (λ h. Reader.lift (Header.assert_eq h.tag v.fixed_tag) >>= λ _. read_value v h) header_Safe
        (λ h.
          >>=-Safe (Reader.lift (Header.assert_eq h.tag v.fixed_tag)) (λ _. read_value v h)
            (lift-Safe (Header.assert_eq h.tag v.fixed_tag))
            (λ _ r valid. read_nested-Keeps (v.decode_value h) r h.length valid (law.safe h)))

  -- The contents fill the window of the nested read.
  contents_parse :
      (h : Header) (s : SliceReader) (a : A) (r' : SliceReader)
      → h.tag ≡ v.fixed_tag
      → s.failed ≡ false
      → IsValid s
      → All IsByte s.bytes
      → read_value v h s ≡ (ok a, r')
      → Fits a
        × (length (octets a) ≡ h.length)
        × (rest : List ℕ) × Ready s (octets a ++ rest)
        × (r'.position.position ≡ s.position.position + h.length)
        × (r'.bytes ≡ s.bytes)
  contents_parse h s a r' same live valid bytes e =
      let n = h.length in
      let f = v.decode_value h in
      let (fit, room) = read_nested_fits f s n valid e in
      let (result, ended, moved, restored) = read_nested_ok f s n valid (law.safe h) e in
      let w = window s n in
      let whole : f w ≡ (ok a, (f w).1) = λ i. (result i, (f w).1) in
      let (fits, rest, ready, skipped) =
        law.parses h w a (f w).1 same live (window-IsValid s n valid fit room)
          (All-take IsByte (s.position.position + n) s.bytes bytes) whole in
      let count : length (octets a) ≡ n =
        omega (arith, ended, ap (λ q. q.position.position) skipped) in
      let cut : take n (ahead s) ≡ octets a ++ rest =
        sym (drop-take_add s.position.position n s.bytes) ∙ ready.next in
      let nothing : rest ≡ [] =
        length_nil rest
          (omega (arith, ap length cut, length-append (octets a) rest, length-take n (ahead s))) in
      let front : take n (ahead s) ≡ octets a =
        cut ∙ ap (λ xs. octets a ++ xs) nothing ∙ append-nil (octets a) in
      (
        fits,
        count,
        drop n (ahead s),
        record {
          live = live;
          next = sym (take-append-drop n (ahead s)) ∙ ap (λ xs. xs ++ drop n (ahead s)) front;
          valid = valid;
        },
        moved,
        restored,
      )

  -- A value is decoded only from its own octets.
  pub decode_parses :
      (r : SliceReader) (a : A) (r' : SliceReader)
      → IsValid r
      → All IsByte r.bytes
      → decode v r ≡ (ok a, r')
      → Fits a
        × (rest : List ℕ) × Ready r (tlv_octets v.fixed_tag (octets a) ++ rest)
        × (r'.position.position ≡ r.position.position + length (tlv_octets v.fixed_tag (octets a)))
        × (r'.bytes ≡ r.bytes)
  unfolding decode
  decode_parses r a r' valid bytes e =
      let (h, s, header, later) =
        >>=-ok Header.decode
          (λ h. Reader.lift (Header.assert_eq h.tag v.fixed_tag) >>= λ _. read_value v h) r e in
      let (u, q, checked, body) =
        >>=-ok (Reader.lift (Header.assert_eq h.tag v.fixed_tag)) (λ _. read_value v h) s later in
      let d = header_decode_ok r h s valid bytes header in
      let same : h.tag ≡ v.fixed_tag = assert_eq_ok h.tag v.fixed_tag (ap (λ p. p.0) checked) in
      let hs = header_octets h.tag h.length in
      let next = Ready-skip r hs d.rest d.ready in
      let here : read_value v h (skip r (length hs)) ≡ (ok a, r') =
        subst (λ x. read_value v h x ≡ (ok a, r')) (sym (ap (λ p. p.1) checked) ∙ d.moved) body in
      let (fits, count, rest, ready, moved, restored) =
        contents_parse h (skip r (length hs)) a r' same next.live next.valid bytes here in
      let octets_are : hs ++ octets a ≡ tlv_octets v.fixed_tag (octets a) =
        ap₂ (λ t n. header_octets t n ++ octets a) same (sym count) in
      (
        fits,
        rest,
        subst (λ xs. Ready r (xs ++ rest)) octets_are
            (Ready-extend r hs (octets a) rest d.rest d.ready ready),
        omega (arith, moved, count, length-append hs (octets a), ap length octets_are),
        restored,
      )
