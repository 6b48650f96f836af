-- ===== src/Der/Header/Canonical.antt =====
-- der/src/header.rs: which octets `Decode for Header` accepts.
use formats.Common.{
  ℕ, ◌≡◌, sym, ap, ◌∙◌, arith, Bool-cases, inl, inr, ok, err, List, ◌++◌, length, length-append,
  All, IsByte,
}
use mathlib.Core.Path.{subst, subst₂}
use formats.Der.Data.{Length, Tag, DerResult, is_constructed}
use formats.Der.Header.{Header, is_overlength, blame_tag, decode_length, decode}
use formats.Der.Header.Octets.{header_octets}
use formats.Der.Length.{IsLength}
use formats.Der.Length.Codec
use formats.Der.Length.Codec.Octets.{length_octets}
use formats.Der.Length.Codec.Canonical.{length_decode_ok, decode-IsLength}
use formats.Der.Reader
use formats.Der.Reader.{SliceReader}
use formats.Der.Reader.Ready.{IsValid, Ready, Ready-skip, Ready-extend, skip, skip-skip, >>=-ok}
use formats.Der.Tag
use formats.Der.Tag.Octets.{IsTag, tag_octets}
use formats.Der.Tag.Canonical.{decode_with_constructed_bit_ok}

blame_tag_ok :
    (t : Tag) (p : DerResult Length × SliceReader) (n : Length) (r' : SliceReader)
    → blame_tag t p ≡ (ok n, r')
    → p ≡ (ok n, r')
blame_tag_ok t (ok m, r) n r' e = e
blame_tag_ok t (err x, r) n r' e = elim (Bool-cases (is_overlength x.kind)) [
  | inl long ↦ cc (rw long at e)
  | inr other ↦ cc (rw other at e)
]

-- What a successful decoding of a header tells of the reader it started from. The constructed bit
-- is the tag's own.
pub record Decoded (r : SliceReader) (h : Header) (r' : SliceReader) : Type 0 where
  pub rest : List ℕ
  pub ready : Ready r (header_octets h.tag h.length ++ rest)
  pub moved : r' ≡ skip r (length (header_octets h.tag h.length))
  pub tag_fits : IsTag h.tag
  pub length_fits : IsLength h.length
  pub form : h.constructed ≡ is_constructed h.tag

-- Where a valid reader over bytes decodes a header, it stood in front of that header's own octets,
-- tag and length are u32 numbers in their shortest form, the constructed bit is the tag's own, and
-- the reader stands behind the octets.
pub header_decode_ok :
    (r : SliceReader) (h : Header) (r' : SliceReader)
    → IsValid r
    → All IsByte r.bytes
    → decode r ≡ (ok h, r')
    → Decoded r h r'
unfolding decode
header_decode_ok r h r' valid bytes e =
    let (p, s, tag, later) =
      >>=-ok Tag.decode_with_constructed_bit
        (λ p.
          Reader.◌>>=◌ (decode_length p.0)
            (λ m. Reader.return (record { tag = p.0; length = m; constructed = p.1 })))
        r e in
    let (n, q, len, closed) =
      >>=-ok (decode_length p.0)
        (λ m. Reader.return (record { tag = p.0; length = m; constructed = p.1 })) s later in
    let t = decode_with_constructed_bit_ok r p.0 p.1 s valid bytes tag in
    let next = Ready-skip r (tag_octets p.0) t.rest t.ready in
    let here : decode_length p.0 (skip r (length (tag_octets p.0))) ≡ (ok n, q) =
      subst (λ v. decode_length p.0 v ≡ (ok n, q)) t.moved len in
    let plain = blame_tag_ok p.0 (Codec.decode (skip r (length (tag_octets p.0)))) n q here in
    let (rest, ready, moved) =
      length_decode_ok (skip r (length (tag_octets p.0))) n q next.valid bytes plain in
    let made : Decoded r (record { tag = p.0; length = n; constructed = p.1 }) q = record {
      rest = rest;
      ready = Ready-extend r (tag_octets p.0) (length_octets n) rest t.rest t.ready ready;
      moved =
          moved
          ∙ skip-skip r (length (tag_octets p.0)) (length (length_octets n))
          ∙ ap (skip r) (sym (length-append (tag_octets p.0) (length_octets n)));
      tag_fits = t.fits;
      length_fits = decode-IsLength (skip r (length (tag_octets p.0))) n q next.valid bytes plain;
      form = t.form;
    } in
    let header_is : record { tag = p.0; length = n; constructed = p.1 } ≡ h = ground arith in
    subst₂ (λ x v. Decoded r x v) header_is (ap (λ x. x.1) closed) made
