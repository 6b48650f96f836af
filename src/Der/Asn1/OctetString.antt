-- ===== src/Der/Asn1/OctetString.antt =====
-- der/src/asn1/octet_string.rs over der/src/bytes.rs: OCTET STRING, any bytes that a `Length` counts.
use formats.Common.{ℕ, ◌≡◌, refl, sym, ap, ◌∙◌, arith, List, ◌++◌, ok, length, All, IsByte}
use formats.Der.Bytes
use formats.Der.Data.{Length, octet_string, number}
use formats.Der.Header
use formats.Der.Header.{Header}
use formats.Der.Length.{IsLength, new_usize}
use formats.Der.Length.Arithmetic.{new_usize-eq_ok}
use formats.Der.Reader
use formats.Der.Reader.{SliceReader, Decoder, ◌>>=◌, read_slice}
use formats.Der.Reader.Keeps.{Safe, >>=-Safe, lift-Safe, read_slice-Safe}
use formats.Der.Reader.Ready.{IsValid, Ready, Ready-fits, Ready-IsByte, Reads, skip, >>=-ok}
use formats.Der.Reader.Slices.{read_slice-Reads, read_slice_ok}
use formats.Der.Tag.Octets.{IsTag}
use formats.Der.Value.{Value}
use formats.Der.Value.Laws.{IsValue}
use formats.Der.Writer.{write}
use formats.Der.Writer.Room.{write-Writes}

unfoldable pub decode_bytes_ref : Header → Decoder (List ℕ)
decode_bytes_ref h = read_slice h.length >>= λ slice. Reader.lift (Bytes.new slice)

abbrev pub octet_string_value : Value (List ℕ)
octet_string_value = record {
  fixed_tag = octet_string;
  decode_value = decode_bytes_ref;
  value_len = λ bytes. ok (Bytes.slice_len bytes);
  encode_value = write;
}

-- The bytes whose number a `Length` holds.
abbrev pub IsBytes : List ℕ → Type 0
IsBytes bs = All IsByte bs × IsLength (length bs)

pub new-eq_ok : (bs : List ℕ) → IsLength (length bs) → Bytes.new bs ≡ ok bs
unfolding Bytes.new
new-eq_ok bs small = rw (new_usize-eq_ok (length bs) small) refl

pub new_same : (bs : List ℕ) {cs : List ℕ} → Bytes.new bs ≡ ok cs → bs ≡ cs
unfolding Bytes.new new_usize
new_same bs e = ground arith

pub slice_len-length : (bs : List ℕ) → IsLength (length bs) → Bytes.slice_len bs ≡ length bs
unfolding Bytes.slice_len
slice_len-length bs small = omega arith

pub decode_bytes_ref-Reads :
    (bs : List ℕ) (h : Header)
    → h.length ≡ length bs
    → IsLength (length bs)
    → Reads (decode_bytes_ref h) bs bs
unfolding decode_bytes_ref
decode_bytes_ref-Reads bs h all small r rest ready =
    rw (all, read_slice-Reads bs r rest ready)
      (ap (λ x. (x, skip r (length bs))) (new-eq_ok bs small))

pub decode_bytes_ref_ok :
    (h : Header) (r : SliceReader) (bs : List ℕ) (r' : SliceReader)
    → IsValid r
    → All IsByte r.bytes
    → decode_bytes_ref h r ≡ (ok bs, r')
    → IsBytes bs
      × (length bs ≡ h.length)
      × (rest : List ℕ) × Ready r (bs ++ rest)
      × (r' ≡ skip r (length bs))
unfolding decode_bytes_ref
decode_bytes_ref_ok h r bs r' valid bytes e =
    let (cs, q, read, made) =
      >>=-ok (read_slice h.length) (λ slice. Reader.lift (Bytes.new slice)) r e in
    let (rest, ready, count, moved) = read_slice_ok h.length r valid read in
    let same : cs ≡ bs = new_same cs (ap (λ p. p.0) made) in
    let front : Ready r (bs ++ rest) = rw same at ready in
    let counted : length bs ≡ h.length = ap length (sym same) ∙ count in
    (
      (
        Ready-IsByte r bs rest bytes front,
        omega (arith, Ready-fits r bs rest front, valid.window, valid.small),
      ),
      counted,
      rest,
      front,
      ap (λ p. p.1) (sym made) ∙ moved ∙ ap (skip r) (sym counted),
    )

pub decode_bytes_ref-Safe : (h : Header) → Safe (decode_bytes_ref h)
unfolding decode_bytes_ref
decode_bytes_ref-Safe h =
    >>=-Safe (read_slice h.length) (λ slice. Reader.lift (Bytes.new slice))
      (read_slice-Safe h.length) (λ slice. lift-Safe (Bytes.new slice))

number_octet_string : IsTag octet_string
unfolding number
number_octet_string = omega arith

header_length : (n : Length) → (Header.new octet_string n).length ≡ n
unfolding Header.new
header_length n = refl

pub octet_string_value-IsValue : IsValue octet_string_value IsBytes (λ bs. bs)
octet_string_value-IsValue = record {
  tag_fits = number_octet_string;
  announces = λ bs fits. ap ok (slice_len-length bs fits.1);
  writes = λ bs _. write-Writes bs;
  reads = λ bs fits small. decode_bytes_ref-Reads bs _ (header_length (length bs)) small;
  parses = λ h r bs r' _ _ valid bytes e.
      let (fits, _, rest, ready, moved) = decode_bytes_ref_ok h r bs r' valid bytes e in
      (fits, rest, ready, moved);
  safe = decode_bytes_ref-Safe;
}
