-- ===== src/Der/Asn1/Fixed/Laws.antt =====
-- Messages of unsigned INTEGERs of a fixed size: the laws of a value.
use formats.Common.{
  ℕ, zero, suc, ◌+◌, ◌-◌, ◌^◌, ◌≤◌, ◌<◌, ◌≡◌, refl, sym, ap, ◌∙◌, arith, true, false, List, [], ◌∷◌,
  ◌++◌, ok, err, and_then, ltb, leb, ◌==◌, ==_refl, length, length-append, length-replicate,
  replicate, All, All-append, IsByte, Bool-cases, inl, inr,
}
use mathlib.Core.Path.{subst}
use formats.Common.BigEndian.{
  be_bytes, be_number, length-be_bytes, be_number-be_bytes, be_bytes-be_number, be_number_lt,
}
use formats.Der.Asn1.Fixed.{
  padded, decode_to_array, fixed_len, check_same, from_array, from_bytes, decode_fixed,
  encode_bytes, encode_fixed,
}
use formats.Der.Asn1.Fixed.Padding.{strip_padded, strip_le, strip_nonempty, strip_twice, pad_strip}
use formats.Der.Asn1.Uint.{
  decode_to_slice, strip_leading_zeroes, needs_leading_zero, encoded_len, report,
}
use formats.Der.Asn1.Uint.Laws.{report_ok, octets_tail}
use formats.Der.Asn1.Uint.Octets.{uint_octets, decode_to_slice_ok, decode_to_slice-uint_octets}
use formats.Der.Data.{Length, DerResult}
use formats.Der.Header.{Header}
use formats.Der.Length.{new_usize, add}
use formats.Der.Reader
use formats.Der.Reader.{SliceReader, Decoder, ◌>>=◌, read_into}
use formats.Der.Reader.Ready.{Reads, skip, >>=-ok}
use formats.Der.Reader.Slices.{read_into-Reads}
use formats.Der.Writer
use formats.Der.Writer.{Encoder, write, write_byte}
use formats.Der.Writer.Room.{write-Writes, write_byte-Writes, Writes-then, HasRoom, put}

-- The contents: the shortest digits, with a zero octet in front where the first one is 0x80 or more.
abbrev pub fixed_octets : ℕ → ℕ → List ℕ
fixed_octets size n = uint_octets (strip_leading_zeroes (be_bytes size n))

length-uint_octets :
    (bytes : List ℕ)
    → (length bytes ≤ length (uint_octets bytes)) × (length (uint_octets bytes) ≤ length bytes + 1)
unfolding uint_octets
length-uint_octets bytes = ground arith

leb_le : (a b : ℕ) → a ≤ b → leb a b ≡ true
leb_le a b h = ground arith

padded_ok :
    (size : ℕ) (input : List ℕ) {array : List ℕ}
    → padded size input ≡ ok array
    → (length input ≤ size) × (replicate (size - length input) 0 ++ input ≡ array)
padded_ok size input e = ground arith

zeroes-IsByte : (k : ℕ) → All IsByte (replicate k 0)
zeroes-IsByte zero = tt
zeroes-IsByte (suc k) = (omega arith, zeroes-IsByte k)

check_same_ok :
    (h : Header) (result : ℕ) (n : Length) (r : SliceReader) {a : ℕ} {r' : SliceReader}
    → check_same h result n r ≡ (ok a, r')
    → (result ≡ a) × (r' ≡ r)
check_same_ok h result n r e = ground arith

sliced_ok :
    (p : DerResult (List ℕ)) (f : List ℕ → DerResult (List ℕ)) {b : List ℕ}
    → and_then p f ≡ ok b
    → (a : List ℕ) × (p ≡ ok a) × (f a ≡ ok b)
sliced_ok (ok a) f e = (a, refl, e)
sliced_ok (err x) f e = absurd (cc)

module _ (size : ℕ) (some_bytes : 0 < size) (few_bytes : size ≤ 16) where
  pub digits_nonempty : (n : ℕ) → 0 < length (strip_leading_zeroes (be_bytes size n))
  digits_nonempty n = strip_nonempty (be_bytes size n) (omega (arith, length-be_bytes size n))

  pub fixed_length :
      (n : ℕ) → (1 ≤ length (fixed_octets size n)) × (length (fixed_octets size n) ≤ size + 1)
  fixed_length n =
      let digits = strip_leading_zeroes (be_bytes size n) in
      let (lo, hi) = length-uint_octets digits in
      (
        omega (arith, digits_nonempty n),
        omega (arith, strip_le (be_bytes size n), length-be_bytes size n),
      )

  pub fixed_len-octets : (n : ℕ) → fixed_len size n ≡ ok (length (fixed_octets size n))
  unfolding fixed_len encoded_len uint_octets new_usize add
  fixed_len-octets n =
      let short = strip_le (be_bytes size n) in let total = length-be_bytes size n in ground arith

  decode_to_array-octets :
      (n : ℕ) → decode_to_array size (fixed_octets size n) ≡ ok (be_bytes size n)
  unfolding decode_to_array
  decode_to_array-octets n =
      let bytes = be_bytes size n in
      let digits = strip_leading_zeroes bytes in
      let total = length-be_bytes size n in
      let fits : leb (length digits) size ≡ true =
        leb_le (length digits) size (omega (arith, strip_le bytes, total)) in
      rw (decode_to_slice-uint_octets digits (digits_nonempty n) (strip_twice bytes), fits)
        (ap (λ k. ok (replicate (k - length digits) 0 ++ digits)) (sym total)
          ∙ ap ok (pad_strip bytes))

  pub encode_fixed-Writes :
      (n : ℕ) (w : Writer.SliceWriter)
      → HasRoom w (length (fixed_octets size n))
      → encode_fixed size n w ≡ (ok tt, put w (fixed_octets size n))
  unfolding encode_fixed encode_bytes uint_octets
  encode_fixed-Writes n w room =
      let digits = strip_leading_zeroes (be_bytes size n) in
      elim (Bool-cases (needs_leading_zero digits)) [
        | inl high ↦
            let room' = rw high at room in
            rw high (
              Writes-then (write_byte 0) (write digits) (0 ∷ []) digits (write_byte-Writes 0)
                (write-Writes digits) w room')
        | inr low ↦ let room' = rw low at room in rw low (write-Writes digits w room')
      ]

  from_bytes_reads :
      (n : ℕ) (h : Header) (r : SliceReader)
      → n < 256 ^ size
      → h.length ≡ length (fixed_octets size n)
      → from_bytes size h (fixed_octets size n) r ≡ (ok n, r)
  from_bytes_reads n h r fits counted =
      rw
        (
          decode_to_array-octets n,
          be_number-be_bytes size n fits,
          fixed_len-octets n,
          counted,
          ==_refl (length (fixed_octets size n)),
        )
        refl

  pub decode_fixed-Reads :
      (n : ℕ) (h : Header)
      → n < 256 ^ size
      → h.length ≡ length (fixed_octets size n)
      → Reads (decode_fixed size h) (fixed_octets size n) n
  unfolding decode_fixed
  decode_fixed-Reads n h fits counted r rest ready =
      let octets = fixed_octets size n in
      let (lo, hi) = fixed_length n in
      let not_empty : (h.length == 0) ≡ false = ground arith in
      let not_long : ltb (size + 1) h.length ≡ false = ground arith in
      let read : read_into h.length r ≡ (ok octets, skip r (length octets)) =
        subst (λ k. read_into k r ≡ (ok octets, skip r (length octets))) (sym counted)
          (read_into-Reads octets (omega arith) r rest ready) in
      rw (not_empty, not_long, read) (from_bytes_reads n h (skip r (length octets)) fits counted)

  -- The array behind the digits, and the number that they are.
  decode_to_array_ok :
      (contents : List ℕ) {array : List ℕ}
      → All IsByte contents
      → decode_to_array size contents ≡ ok array
      → (be_number 0 array < 256 ^ size) × (contents ≡ fixed_octets size (be_number 0 array))
  unfolding decode_to_array
  decode_to_array_ok contents {array} all e =
      let (input, sliced, pad) = sliced_ok (decode_to_slice contents) (padded size) e in
      let (octets, shortest, nonempty) = decode_to_slice_ok contents sliced in
      let (short, made) = padded_ok size input pad in
      let zeroes = replicate {A = ℕ} (size - length input) 0 in
      let bytes : All IsByte array = subst (All IsByte) made (
        All-append IsByte zeroes input (zeroes-IsByte (size - length input))
          (octets_tail input (rw octets at all))) in
      let total : length array ≡ size =
        ap length (sym made)
        ∙ omega
            (arith, length-append zeroes input, length-replicate {A = ℕ} (size - length input) 0) in
      let same : be_bytes size (be_number 0 array) ≡ array =
        ap (λ k. be_bytes k (be_number 0 array)) (sym total) ∙ be_bytes-be_number array bytes in
      let digits : strip_leading_zeroes (be_bytes size (be_number 0 array)) ≡ input =
        ap strip_leading_zeroes (same ∙ sym made)
        ∙ strip_padded (size - length input) input nonempty
        ∙ shortest in
      (be_number_lt size array bytes total, octets ∙ ap uint_octets (sym digits))

  pub from_bytes_ok :
      (h : Header) (contents : List ℕ) (r : SliceReader) {n : ℕ} {r' : SliceReader}
      → All IsByte contents
      → from_bytes size h contents r ≡ (ok n, r')
      → (n < 256 ^ size) × (contents ≡ fixed_octets size n) × (r' ≡ r)
  from_bytes_ok h contents r {n} {r'} all e =
      let (array, q, made, e') =
        >>=-ok (report (decode_to_array size contents)) (from_array size h) r e in
      let (m, q', measured, last) =
        >>=-ok (Reader.lift (fixed_len size (be_number 0 array))) (check_same h (be_number 0 array))
          q e' in
      let (same, stay) = check_same_ok h (be_number 0 array) m q' last in
      let (from, stay') = report_ok (decode_to_array size contents) r made in
      let (fits, octets) = decode_to_array_ok contents all from in
      (rw same at fits, rw same at octets, stay ∙ ap (λ p. p.1) (sym measured) ∙ stay')
