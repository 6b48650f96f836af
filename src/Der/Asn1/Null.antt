-- ===== src/Der/Asn1/Null.antt =====
-- der/src/asn1/null.rs: NULL, which has no contents.
use formats.Common.{◌≡◌, refl, arith, [], ok, ◌==◌, if◌then◌else◌}
use formats.Der.Data.{Length, null, number}
use formats.Der.Data.{ErrorKind}
use formats.Der.Header
use formats.Der.Header.{Header}
use formats.Der.Reader
use formats.Der.Reader.{SliceReader, Decoder}
use formats.Der.Reader.Keeps.{Safe, if-Safe, error-Safe, return-Safe}
use formats.Der.Reader.Ready.{Reads, ahead, skip, skip-zero, return-Reads}
use formats.Der.Tag.Octets.{IsTag}
use formats.Der.Value.{Value}
use formats.Der.Value.Laws.{IsValue}
use formats.Der.Writer
use formats.Der.Writer.Room.{return-Writes}

pub data Null : Type 0 where
  the_null : Null

unfoldable pub decode_null : Header → Decoder Null
decode_null h =
    if h.length == 0 then Reader.return the_null else Reader.error (ErrorKind.length null)

abbrev pub null_value : Value Null
null_value = record {
  fixed_tag = null;
  decode_value = decode_null;
  value_len = λ _. ok 0;
  encode_value = λ _. Writer.return tt;
}

decode_null-Reads : (a : Null) (h : Header) → h.length ≡ 0 → Reads (decode_null h) [] a
unfolding decode_null
decode_null-Reads the_null h none_left = rw none_left (return-Reads the_null)

decode_null_ok :
    (h : Header) (r : SliceReader) {a : Null} {r' : SliceReader}
    → decode_null h r ≡ (ok a, r')
    → r' ≡ skip r 0
unfolding decode_null
decode_null_ok h r e = ground (arith, skip-zero r)

decode_null-Safe : (h : Header) → Safe (decode_null h)
unfolding decode_null
decode_null-Safe h =
    if-Safe (h.length == 0) (Reader.return the_null) (Reader.error (ErrorKind.length null))
      (return-Safe the_null) (error-Safe Null (ErrorKind.length null))

number_null : IsTag null
unfolding number
number_null = omega arith

header_length : (n : Length) → (Header.new null n).length ≡ n
unfolding Header.new
header_length n = refl

pub null_value-IsValue : IsValue null_value (λ _. Unit {0}) (λ _. [])
null_value-IsValue = record {
  tag_fits = number_null;
  announces = λ a _. refl;
  writes = λ a _. return-Writes;
  reads = λ a _ _. decode_null-Reads a _ (header_length 0);
  parses = λ h r a r' _ live valid _ e.
      (tt, ahead r, record { live = live; next = refl; valid = valid }, decode_null_ok h r e);
  safe = decode_null-Safe;
}
