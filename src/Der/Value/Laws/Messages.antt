-- ===== src/Der/Value/Laws/Messages.antt =====
-- der/src/decode.rs and der/src/encode.rs: whole messages by `from_der` and `to_der`.
use formats.Common.{
  ℕ, ◌≡◌, refl, sym, ap, ◌∙◌, arith, ok, err, and_then, List, [], ◌++◌, length, length-append, All,
  IsByte, append-nil, Result-cases, inl, inr,
}
use mathlib.Core.Path.{subst}
use formats.Der.Data.{DerResult}
use formats.Der.Length.{IsLength}
use formats.Der.Reader
use formats.Der.Reader.{SliceReader}
use formats.Der.Reader.Ready.{Ready, Ready-fits, skip}
use formats.Der.Reader.Whole.{start, new-eq_start, start-Ready, new_ok, finish_ok, finish_end}
use formats.Der.Value.{Value, decode, from_der, to_der, finish_decoding}
use formats.Der.Value.Laws.{IsValue, tlv_octets}
use formats.Der.Value.Laws.Decoding.{decode_reads, decode_parses, value_decode-Safe, length_nil}
use formats.Der.Value.Laws.Encoding.{to_der-tlv_octets}

finish_decoding_ok :
    {A : Type 0} (p : DerResult A × SliceReader) {a : A}
    → finish_decoding p ≡ ok a
    → (p.0 ≡ ok a) × (Reader.finish p.1 ≡ ok tt)
finish_decoding_ok (err x, q) e = cc
finish_decoding_ok (ok b, q) e = elim (Result-cases (Reader.finish q)) [
  | inl (u, done) ↦ (rw done at e, done)
  | inr (x, failed) ↦ cc (rw failed at e)
]

and_then_ok :
    {A B : Type 0} (p : DerResult A) (f : A → DerResult B) {b : B}
    → and_then p f ≡ ok b
    → (a : A) × (p ≡ ok a) × (f a ≡ ok b)
and_then_ok (ok a) f e = (a, refl, e)
and_then_ok (err x) f e = absurd (cc)

module _ {A : Type 0} {v : Value A} {Fits : A → Type 0} {octets : A → List ℕ}
    (law : IsValue v Fits octets) where
  pub from_der-tlv_octets :
      (a : A)
      → Fits a
      → IsLength (length (tlv_octets v.fixed_tag (octets a)))
      → from_der v (tlv_octets v.fixed_tag (octets a)) ≡ ok a
  unfolding from_der
  from_der-tlv_octets a fits small =
      let bs = tlv_octets v.fixed_tag (octets a) in
      let whole : Ready (start bs) (bs ++ []) = rw (append-nil bs) (start-Ready bs small) in
      let content : IsLength (length (octets a)) = omega (arith, length-append _ (octets a)) in
      let read = decode_reads law a (start bs) [] fits content whole (omega arith) in
      rw (new-eq_start bs small, read)
        (ap (λ f. and_then f (λ _. ok a))
          (finish_end (skip (start bs) (length bs)) refl (omega arith)))

  -- For a type whose operations obey the laws, `to_der` followed by `from_der` gives back a value that
  -- fits and whose whole encoding is within u32::MAX.
  pub from_der-to_der :
      (a : A)
      → Fits a
      → IsLength (length (tlv_octets v.fixed_tag (octets a)))
      → and_then (to_der v a) (from_der v) ≡ ok a
  from_der-to_der a fits small =
      rw (to_der-tlv_octets law a fits small) (from_der-tlv_octets a fits small)

  whole_message :
      (bs : List ℕ) (a : A)
      → All IsByte bs
      → IsLength (length bs)
      → (decode v (start bs)).0 ≡ ok a
      → Reader.finish (decode v (start bs)).1 ≡ ok tt
      → Fits a × (bs ≡ tlv_octets v.fixed_tag (octets a)) × (to_der v a ≡ ok bs)
  whole_message bs a bytes small result finished =
      let r = start bs in
      let octs = tlv_octets v.fixed_tag (octets a) in
      let ready = start-Ready bs small in
      let kept = value_decode-Safe law r ready.valid in
      let (live, ended) = finish_ok (decode v r).1 kept.valid finished in
      let whole : decode v r ≡ (ok a, (decode v r).1) = λ i. (result i, (decode v r).1) in
      let (fits, rest, front, moved, restored) =
        decode_parses law r a (decode v r).1 ready.valid bytes whole in
      let nothing : rest ≡ [] =
        length_nil rest
          (omega (arith, Ready-fits r octs rest front, moved, ended, kept.same_len)) in
      let same : bs ≡ octs = front.next ∙ ap (λ xs. octs ++ xs) nothing ∙ append-nil octs in
      let fitting : IsLength (length octs) = subst (λ xs. IsLength (length xs)) same small in
      (fits, same, to_der-tlv_octets law a fits fitting ∙ ap ok (sym same))

  -- For a type whose operations obey the laws, a message of bytes that `from_der` accepts is tag,
  -- length and contents of the value that it returns, which fits, and `to_der` gives the message back.
  pub from_der_ok :
      (bs : List ℕ) (a : A)
      → All IsByte bs
      → from_der v bs ≡ ok a
      → Fits a × (bs ≡ tlv_octets v.fixed_tag (octets a)) × (to_der v a ≡ ok bs)
  unfolding from_der
  from_der_ok bs a bytes e =
      let (r, made, decoded) = and_then_ok (Reader.new bs) (λ r. finish_decoding (decode v r)) e in
      let (same, small) = new_ok bs made in
      let run : finish_decoding (decode v (start bs)) ≡ ok a =
        subst (λ q. finish_decoding (decode v q) ≡ ok a) same decoded in
      let (result, finished) = finish_decoding_ok (decode v (start bs)) run in
      whole_message bs a bytes small result finished
