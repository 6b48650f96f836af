-- ===== src/Der/Asn1/Uint/Laws.antt =====
-- Messages of unsigned INTEGERs: the laws of a value.
use formats.Common.{
  ℕ, suc, ◌≡◌, refl, sym, ap, ◌∙◌, arith, true, false, not, List, [], ◌∷◌, ◌++◌, ok, err, ltb, ◌==◌,
  if◌then◌else◌, length, All, IsByte, Bool-cases, inl, inr, ==_refl,
}
use formats.Der.Asn1.OctetString.{
  decode_bytes_ref, decode_bytes_ref-Reads, decode_bytes_ref_ok, decode_bytes_ref-Safe, new-eq_ok,
  new_same, slice_len-length,
}
use formats.Der.Asn1.Uint.{
  decode_to_slice, strip_leading_zeroes, needs_leading_zero, encoded_len, new, report, length_error,
  check_canonical, from_contents, decode_uint, encode_uint, uint_value,
}
use formats.Der.Asn1.Uint.Octets.{
  uint_octets, IsUint, decode_to_slice_ok, decode_to_slice-uint_octets,
}
use formats.Der.Data.{Length, DerResult, integer, noncanonical, number}
use formats.Der.Header
use formats.Der.Header.{Header}
use formats.Der.Length.{IsLength, new_usize, add}
use formats.Der.Reader
use formats.Der.Reader.{SliceReader, Decoder, ◌>>=◌}
use formats.Der.Reader.Keeps.{Safe, >>=-Safe, lift-Safe, if-Safe, error-Safe, return-Safe}
use formats.Der.Reader.Ready.{IsValid, Ready, Reads, skip, >>=-ok}
use formats.Der.Tag.Octets.{IsTag}
use formats.Der.Value.Laws.{IsValue}
use formats.Der.Writer.{write, write_byte}
use formats.Der.Writer.Room.{Writes, write-Writes, write_byte-Writes, Writes-then}

-- The length counts the leading zero.
pub encoded_len-uint_octets :
    (bytes : List ℕ) → IsUint bytes → encoded_len bytes ≡ ok (length (uint_octets bytes))
unfolding encoded_len uint_octets new_usize add
encoded_len-uint_octets bytes h = let small = h.small in rw (h.shortest) (ground arith)

bytes_fit : (bytes : List ℕ) → IsUint bytes → IsLength (length bytes)
unfolding uint_octets
bytes_fit bytes h = let small = h.small in ground arith

new-eq_shortest : (bytes : List ℕ) → IsUint bytes → new bytes ≡ ok bytes
unfolding new
new-eq_shortest bytes h = rw (h.shortest, new-eq_ok bytes (bytes_fit bytes h)) refl

length_error_ok :
    (res : DerResult (List ℕ)) {bytes : List ℕ} → length_error res ≡ ok bytes → res ≡ ok bytes
length_error_ok (ok a) e = e
length_error_ok (err x) e = absurd (cc)

new_stripped :
    (bytes : List ℕ) {result : List ℕ} → new bytes ≡ ok result → strip_leading_zeroes bytes ≡ result
unfolding new
new_stripped bytes e = new_same (strip_leading_zeroes bytes) (length_error_ok _ e)

-- The zero octet in front, and then the number.
prefix_octets : List ℕ → List ℕ
prefix_octets bytes = if needs_leading_zero bytes then 0 ∷ [] else []

encode_uint-Writes :
    (bytes : List ℕ) → IsUint bytes → Writes (encode_uint bytes) (uint_octets bytes)
unfolding encode_uint uint_octets
encode_uint-Writes bytes h w room =
    let fits = bytes_fit bytes h in
    let counted = encoded_len-uint_octets bytes h in
    elim (Bool-cases (needs_leading_zero bytes)) [
      | inl high ↦
          let room' = rw high at room in
          let test : ltb (length bytes) (suc (length bytes)) ≡ true = ground arith in
          rw (counted, slice_len-length bytes fits, high, test)
            (Writes-then (write_byte 0) (write bytes) (0 ∷ []) bytes (write_byte-Writes 0)
              (write-Writes bytes) w room')
      | inr low ↦
          let room' = rw low at room in
          let test : ltb (length bytes) (length bytes) ≡ false = ground arith in
          rw (counted, slice_len-length bytes fits, low, test) (write-Writes bytes w room')
    ]

from_contents_reads :
    (bytes : List ℕ) (h : Header) (r : SliceReader)
    → IsUint bytes
    → h.length ≡ length (uint_octets bytes)
    → from_contents h (uint_octets bytes) r ≡ (ok bytes, r)
from_contents_reads bytes h r fits counted =
    rw
      (
        decode_to_slice-uint_octets bytes fits.nonempty fits.shortest,
        new-eq_shortest bytes fits,
        encoded_len-uint_octets bytes fits,
        counted,
        ==_refl (length (uint_octets bytes)),
      )
      refl

decode_uint-Reads :
    (bytes : List ℕ) (h : Header)
    → IsUint bytes
    → h.length ≡ length (uint_octets bytes)
    → Reads (decode_uint h) (uint_octets bytes) bytes
unfolding decode_uint
decode_uint-Reads bytes h fits counted r rest ready =
    rw (decode_bytes_ref-Reads (uint_octets bytes) h counted fits.small r rest ready)
      (from_contents_reads bytes h _ fits counted)

pub report_ok :
    (res : DerResult (List ℕ)) (r : SliceReader) {a : List ℕ} {r' : SliceReader}
    → report res r ≡ (ok a, r')
    → (res ≡ ok a) × (r' ≡ r)
report_ok (ok b) r e = (ap (λ p. p.0) e, ap (λ p. p.1) (sym e))
report_ok (err x) r e = absurd (cc)

check_canonical_ok :
    (h : Header) (result : List ℕ) (n : Length) (r : SliceReader) {a : List ℕ} {r' : SliceReader}
    → check_canonical h result n r ≡ (ok a, r')
    → (result ≡ a) × (r' ≡ r)
check_canonical_ok h result n r e = ground arith

-- `decode_to_slice` decides: what it returns is already the shortest form, which `new` keeps.
from_contents_ok :
    (h : Header) (contents : List ℕ) (r : SliceReader) {bytes : List ℕ} {r' : SliceReader}
    → from_contents h contents r ≡ (ok bytes, r')
    → (decode_to_slice contents ≡ ok bytes) × (r' ≡ r)
from_contents_ok h contents r {bytes} {r'} e =
    let (slice, q, sliced, e') =
      >>=-ok (report (decode_to_slice contents))
        (λ slice. Reader.lift (new slice) >>= λ result.
          Reader.lift (encoded_len result) >>= check_canonical h result)
        r e in
    let (result, q', made, e'') =
      >>=-ok (Reader.lift (new slice))
        (λ result. Reader.lift (encoded_len result) >>= check_canonical h result) q e' in
    let (n, q'', measured, last) =
      >>=-ok (Reader.lift (encoded_len result)) (check_canonical h result) q' e'' in
    let (same, stay) = check_canonical_ok h result n q'' last in
    let (from, stay') = report_ok (decode_to_slice contents) r sliced in
    let shortest = (decode_to_slice_ok contents from).1 in
    let kept : slice ≡ bytes = sym shortest ∙ new_stripped slice (ap (λ p. p.0) made) ∙ same in
    (from ∙ ap ok kept, stay ∙ ap (λ p. p.1) (sym measured) ∙ ap (λ p. p.1) (sym made) ∙ stay')

pub report-Safe : (res : DerResult (List ℕ)) → Safe (report res)
report-Safe (ok a) = return-Safe a
report-Safe (err e) = error-Safe (List ℕ) e.kind

from_contents-Safe : (h : Header) (contents : List ℕ) → Safe (from_contents h contents)
from_contents-Safe h contents =
    >>=-Safe (report (decode_to_slice contents)) _ (report-Safe (decode_to_slice contents))
      (λ slice. >>=-Safe (Reader.lift (new slice)) _ (lift-Safe (new slice)) (λ result.
        >>=-Safe (Reader.lift (encoded_len result)) (check_canonical h result)
          (lift-Safe (encoded_len result))
          (λ n.
            if-Safe (not (n == h.length)) (Reader.error (noncanonical integer))
              (Reader.return result) (error-Safe (List ℕ) (noncanonical integer))
              (return-Safe result))))

decode_uint-Safe : (h : Header) → Safe (decode_uint h)
unfolding decode_uint
decode_uint-Safe h =
    >>=-Safe (decode_bytes_ref h) (from_contents h) (decode_bytes_ref-Safe h) (from_contents-Safe h)

pub octets_tail : (bytes : List ℕ) → All IsByte (uint_octets bytes) → All IsByte bytes
unfolding uint_octets
octets_tail bytes h = elim (Bool-cases (needs_leading_zero bytes)) [
  | inl high ↦ let tail = rw high at h in tail.1
  | inr low ↦ rw low at h
]

-- Only the contents of a number in its shortest form are accepted.
pub decode_uint_ok :
    (h : Header) (r : SliceReader) (bytes : List ℕ) (r' : SliceReader)
    → IsValid r
    → All IsByte r.bytes
    → decode_uint h r ≡ (ok bytes, r')
    → IsUint bytes
      × (rest : List ℕ) × Ready r (uint_octets bytes ++ rest)
      × (r' ≡ skip r (length (uint_octets bytes)))
unfolding decode_uint
decode_uint_ok h r bytes r' valid all e =
    let (contents, q, read, from) = >>=-ok (decode_bytes_ref h) (from_contents h) r e in
    let (fits, counted, rest, ready, moved) = decode_bytes_ref_ok h r contents q valid all read in
    let (slice, stay) = from_contents_ok h contents q from in
    let (octets, shortest, nonempty) = decode_to_slice_ok contents slice in
    (
      record {
        nonempty = nonempty;
        shortest = shortest;
        octets = octets_tail bytes (rw octets at fits.0);
        small = rw octets at fits.1;
      },
      rest,
      rw octets at ready,
      stay ∙ moved ∙ ap (λ xs. skip r (length xs)) octets,
    )

number_integer : IsTag integer
unfolding number
number_integer = omega arith

header_length : (n : Length) → (Header.new integer n).length ≡ n
unfolding Header.new
header_length n = refl

pub uint_value-IsValue : IsValue uint_value IsUint uint_octets
uint_value-IsValue = record {
  tag_fits = number_integer;
  announces = encoded_len-uint_octets;
  writes = encode_uint-Writes;
  reads =
      λ bytes fits _. decode_uint-Reads bytes _ fits (header_length (length (uint_octets bytes)));
  parses = λ h r bytes r' _ _ valid all e. decode_uint_ok h r bytes r' valid all e;
  safe = decode_uint-Safe;
}
