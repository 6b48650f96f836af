-- ===== src/Der/Asn1/Fixed/Values.antt =====
-- The value of a fixed size, and its whole messages.
use formats.Common.{
  ℕ, ◌+◌, ◌^◌, ◌≤◌, ◌<◌, ◌≡◌, refl, sym, ap, ◌∙◌, arith, not, List, ◌++◌, ok, ltb, ◌==◌, length,
  All, IsByte, Bool-cases, inl, inr,
}
use formats.Common.BigEndian.{be_number}
use formats.Der.Asn1.Fixed.{
  decode_to_array, fixed_len, check_same, from_array, from_bytes, decode_fixed, fixed_value,
}
use formats.Der.Asn1.Fixed.Laws.{
  fixed_octets, fixed_len-octets, encode_fixed-Writes, decode_fixed-Reads, from_bytes_ok,
}
use formats.Der.Asn1.Uint.{report}
use formats.Der.Asn1.Uint.Laws.{report-Safe}
use formats.Der.Data.{Length, ErrorKind, integer, noncanonical, number}
use formats.Der.Header
use formats.Der.Header.{Header}
use formats.Der.Reader
use formats.Der.Reader.{SliceReader, Decoder, ◌>>=◌, read_into}
use formats.Der.Reader.Keeps.{
  Safe, >>=-Safe, lift-Safe, if-Safe, error-Safe, return-Safe, read_into-Safe,
}
use formats.Der.Reader.Ready.{IsValid, Ready, skip, >>=-ok, Ready-IsByte}
use formats.Der.Reader.Slices.{read_into_ok}
use formats.Der.Tag.Octets.{IsTag}
use formats.Der.Value.{from_der, to_der}
use formats.Der.Value.Laws.{IsValue, tlv_octets}
use formats.Der.Value.Laws.Messages.{from_der_ok}

from_bytes-Safe : (size : ℕ) (h : Header) (contents : List ℕ) → Safe (from_bytes size h contents)
from_bytes-Safe size h contents =
    >>=-Safe (report (decode_to_array size contents)) (from_array size h)
      (report-Safe (decode_to_array size contents))
      (λ array.
        >>=-Safe (Reader.lift (fixed_len size (be_number 0 array)))
          (check_same h (be_number 0 array)) (lift-Safe (fixed_len size (be_number 0 array)))
          (λ n.
            if-Safe (not (h.length == n)) (Reader.error (noncanonical integer))
              (Reader.return (be_number 0 array)) (error-Safe ℕ (noncanonical integer))
              (return-Safe (be_number 0 array))))

decode_fixed-Safe : (size : ℕ) (h : Header) → Safe (decode_fixed size h)
unfolding decode_fixed
decode_fixed-Safe size h =
    if-Safe (h.length == 0) (Reader.error (ErrorKind.length integer)) _
      (error-Safe ℕ (ErrorKind.length integer))
      (if-Safe (ltb (size + 1) h.length) (Reader.error (noncanonical integer))
        (read_into h.length >>= from_bytes size h) (error-Safe ℕ (noncanonical integer))
        (>>=-Safe (read_into h.length) (from_bytes size h) (read_into-Safe h.length)
          (from_bytes-Safe size h)))

-- Past the checks of the length.
decode_fixed_body :
    (size : ℕ) (h : Header) (r : SliceReader) {n : ℕ} {r' : SliceReader}
    → decode_fixed size h r ≡ (ok n, r')
    → (read_into h.length >>= from_bytes size h) r ≡ (ok n, r')
unfolding decode_fixed
decode_fixed_body size h r e = elim (Bool-cases (h.length == 0)) [
  | inl empty ↦ absurd (cc (rw empty at e))
  | inr not_empty ↦
      let e' = rw not_empty at e in
      elim (Bool-cases (ltb (size + 1) h.length)) [
        | inl long ↦ absurd (cc (rw long at e'))
        | inr not_long ↦ rw not_long at e'
      ]
]

number_integer : IsTag integer
unfolding number
number_integer = omega arith

header_length : (n : Length) → (Header.new integer n).length ≡ n
unfolding Header.new
header_length n = refl

module _ (size : ℕ) (some_bytes : 0 < size) (few_bytes : size ≤ 16) where
  decode_fixed_ok :
      (h : Header) (r : SliceReader) (n : ℕ) (r' : SliceReader)
      → IsValid r
      → All IsByte r.bytes
      → decode_fixed size h r ≡ (ok n, r')
      → (n < 256 ^ size)
        × (rest : List ℕ) × Ready r (fixed_octets size n ++ rest)
        × (r' ≡ skip r (length (fixed_octets size n)))
  decode_fixed_ok h r n r' valid all e =
      let (contents, q, read, from) =
        >>=-ok (read_into h.length) (from_bytes size h) r (decode_fixed_body size h r e) in
      let (rest, ready, counted, moved) = read_into_ok h.length r valid read in
      let (fits, octets, stay) =
        from_bytes_ok size some_bytes few_bytes h contents q
          (Ready-IsByte r contents rest all ready) from in
      (
        fits,
        rest,
        rw octets at ready,
        stay ∙ moved ∙ ap (skip r) (sym counted) ∙ ap (λ xs. skip r (length xs)) octets,
      )

  pub fixed_value-IsValue : IsValue (fixed_value size) (λ n. n < 256 ^ size) (fixed_octets size)
  fixed_value-IsValue = record {
    tag_fits = number_integer;
    announces = λ n _. fixed_len-octets size some_bytes few_bytes n;
    writes = λ n _. encode_fixed-Writes size some_bytes few_bytes n;
    reads = λ n fits _.
        decode_fixed-Reads size some_bytes few_bytes n _ fits
          (header_length (length (fixed_octets size n)));
    parses = λ h r n r' _ _ valid all e. decode_fixed_ok h r n r' valid all e;
    safe = decode_fixed-Safe size;
  }

  -- For a size of 1 to 16 bytes, a message of bytes that `from_der` accepts is the one encoding of
  -- the number that it returns, which has that size, and `to_der` gives the message back.
  pub fixed_from_der_ok :
      (bs : List ℕ) (n : ℕ)
      → All IsByte bs
      → from_der (fixed_value size) bs ≡ ok n
      → (n < 256 ^ size)
        × (bs ≡ tlv_octets integer (fixed_octets size n))
        × (to_der (fixed_value size) n ≡ ok bs)
  fixed_from_der_ok = from_der_ok fixed_value-IsValue
