-- ===== src/Der/Asn1/Boolean.antt =====
-- der/src/asn1/boolean.rs: BOOLEAN.
use formats.Common.{
  ℕ, ◌≡◌, refl, ◌∙◌, arith, Bool, true, false, not, List, [], ◌∷◌, ok, ◌==◌, if◌then◌else◌,
  Bool-cases, inl, inr,
}
use formats.Der.Data.{Length, boolean, noncanonical, number}
use formats.Der.Data.{ErrorKind}
use formats.Der.Header
use formats.Der.Header.{Header}
use formats.Der.Reader
use formats.Der.Reader.{SliceReader, Decoder, ◌>>=◌, read_byte}
use formats.Der.Reader.Keeps.{Safe, if-Safe, >>=-Safe, error-Safe, return-Safe, read_byte-Safe}
use formats.Der.Reader.Ready.{IsValid, Ready, Reads, skip, >>=-ok}
use formats.Der.Reader.Slices.{read_byte-Reads, read_byte_ok}
use formats.Der.Tag.Octets.{IsTag}
use formats.Der.Value.{Value}
use formats.Der.Value.Laws.{IsValue}
use formats.Der.Writer.{Encoder, write_byte}
use formats.Der.Writer.Room.{write_byte-Writes}

abbrev true_octet : ℕ
true_octet = 0b11111111

abbrev false_octet : ℕ
false_octet = 0b00000000

abbrev boolean_from : ℕ → Decoder Bool
boolean_from b =
    if b == false_octet
    then Reader.return false
    else if b == true_octet
    then Reader.return true
    else Reader.error (noncanonical boolean)

unfoldable pub decode_boolean : Header → Decoder Bool
decode_boolean h =
    if not (h.length == 1)
    then Reader.error (ErrorKind.length boolean)
    else (read_byte >>= boolean_from)

unfoldable pub boolean_octet : Bool → ℕ
boolean_octet b = if b then true_octet else false_octet

unfoldable pub encode_boolean : Bool → Encoder (Unit {0})
unfolding boolean_octet
encode_boolean b = write_byte (boolean_octet b)

-- `FixedTag`, `DecodeValue` and `EncodeValue` for bool.
abbrev pub boolean_value : Value Bool
boolean_value = record {
  fixed_tag = boolean;
  decode_value = decode_boolean;
  value_len = λ _. ok 1;
  encode_value = encode_boolean;
}

boolean_from_octet : (b : Bool) → boolean_from (boolean_octet b) ≡ Reader.return b
unfolding boolean_octet
boolean_from_octet true = refl
boolean_from_octet false = refl

boolean_from_ok :
    (b : ℕ) (r : SliceReader) {a : Bool} {r' : SliceReader}
    → boolean_from b r ≡ (ok a, r')
    → (b ≡ boolean_octet a) × (r' ≡ r)
unfolding boolean_octet
boolean_from_ok b r {a = true} e = ground arith
boolean_from_ok b r {a = false} e = ground arith

decode_boolean-Reads :
    (a : Bool) (h : Header) → h.length ≡ 1 → Reads (decode_boolean h) (boolean_octet a ∷ []) a
unfolding decode_boolean
decode_boolean-Reads a h one r rest ready =
    rw (one, read_byte-Reads (boolean_octet a) r rest ready, boolean_from_octet a) refl

-- Past the check of the length.
decode_boolean_body :
    (h : Header) (r : SliceReader) {a : Bool} {r' : SliceReader}
    → decode_boolean h r ≡ (ok a, r')
    → (read_byte >>= boolean_from) r ≡ (ok a, r')
unfolding decode_boolean
decode_boolean_body h r e = elim (Bool-cases (h.length == 1)) [
  | inl one ↦ rw one at e
  | inr other ↦ absurd (cc (rw other at e))
]

decode_boolean_ok :
    (h : Header) (r : SliceReader) (a : Bool) (r' : SliceReader)
    → IsValid r
    → decode_boolean h r ≡ (ok a, r')
    → (rest : List ℕ) × Ready r (boolean_octet a ∷ rest) × (r' ≡ skip r 1)
decode_boolean_ok h r a r' valid e =
    let (b, q, read, from) = >>=-ok read_byte boolean_from r (decode_boolean_body h r e) in
    let (rest, ready, moved) = read_byte_ok r valid read in
    let (same, stay) = boolean_from_ok b q from in (rest, rw same at ready, stay ∙ moved)

boolean_from-Safe : (b : ℕ) → Safe (boolean_from b)
boolean_from-Safe b = if-Safe (b == false_octet) (Reader.return false) _ (return-Safe false) (
    if-Safe (b == true_octet) (Reader.return true) (Reader.error (noncanonical boolean))
      (return-Safe true) (error-Safe Bool (noncanonical boolean)))

decode_boolean-Safe : (h : Header) → Safe (decode_boolean h)
unfolding decode_boolean
decode_boolean-Safe h =
    if-Safe (not (h.length == 1)) (Reader.error (ErrorKind.length boolean))
      (read_byte >>= boolean_from) (error-Safe Bool (ErrorKind.length boolean))
      (>>=-Safe read_byte boolean_from read_byte-Safe boolean_from-Safe)

number_boolean : IsTag boolean
unfolding number
number_boolean = omega arith

header_length : (n : Length) → (Header.new boolean n).length ≡ n
unfolding Header.new
header_length n = refl

pub boolean_value-IsValue : IsValue boolean_value (λ _. Unit {0}) (λ a. boolean_octet a ∷ [])
unfolding encode_boolean
boolean_value-IsValue = record {
  tag_fits = number_boolean;
  announces = λ a _. refl;
  writes = λ a _. write_byte-Writes (boolean_octet a);
  reads = λ a _ _. decode_boolean-Reads a _ (header_length 1);
  parses = λ h r a r' _ _ valid _ e.
      let (rest, ready, moved) = decode_boolean_ok h r a r' valid e in (tt, rest, ready, moved);
  safe = decode_boolean-Safe;
}
