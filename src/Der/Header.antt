-- ===== src/Der/Header.antt =====
-- der/src/header.rs, and the parts of der/src/tag.rs and der/src/length.rs that need both.
pub mod Octets
pub mod RoundTrip
pub mod Canonical
pub mod Keeping
use formats.Common.{ℕ, Bool, true, false, ok, err, and_then, if◌then◌else◌, some}
use mathlib.Core.Logic.{ite}
use formats.Der.Data.{
  Length, Tag, Tag-discrete, ErrorKind, Error, length, overlength, tag_unexpected, from_kind,
  DerResult, is_constructed,
}
use formats.Der.Length
use formats.Der.Length.Codec
use formats.Der.Reader
use formats.Der.Reader.{SliceReader, Decoder, ◌>>=◌}
use formats.Der.Tag
use formats.Der.Writer
use formats.Der.Writer.{Encoder}

pub record Header : Type 0 where
  pub tag : Tag
  pub length : Length
  pub constructed : Bool

unfoldable pub new : Tag → Length → Header
new tag len = record { tag = tag; length = len; constructed = is_constructed tag }

-- `Tag::assert_eq`
unfoldable pub assert_eq : Tag → Tag → DerResult Tag
assert_eq t expected =
    ite (Tag-discrete t expected) (ok t) (err (from_kind (tag_unexpected (some expected) t)))

abbrev is_overlength : ErrorKind → Bool
is_overlength overlength = true
is_overlength _ = false

-- The `map_err` behind the length: an overlong length is an error of the tag.
abbrev blame_tag : Tag → DerResult Length × SliceReader → DerResult Length × SliceReader
blame_tag t (ok n, r) = (ok n, r)
blame_tag t (err e, r) =
    if is_overlength e.kind then Reader.error (ErrorKind.length t) r else (err e, r)

abbrev decode_length : Tag → Decoder Length
decode_length t r = blame_tag t (Length.Codec.decode r)

unfoldable pub decode : Decoder Header
decode = do
  p ← Tag.decode_with_constructed_bit
  n ← decode_length p.0
  Reader.return (record { tag = p.0; length = n; constructed = p.1 })

unfoldable pub encode : Header → Encoder (Unit {0})
encode h = Writer.◌>>◌ (Tag.encode h.tag) (Length.Codec.encode h.length)

unfoldable pub encoded_len : Header → DerResult Length
encoded_len h =
    and_then (Tag.encoded_len h.tag)
      (λ a. and_then (Length.encoded_len h.length) (λ b. Length.add a b))

-- `Length::for_tlv`
unfoldable pub for_tlv : Length → Tag → DerResult Length
for_tlv n t =
    and_then (Tag.encoded_len t)
      (λ a. and_then (Length.encoded_len n) (λ b. and_then (Length.add a b) (λ s. Length.add s n)))
