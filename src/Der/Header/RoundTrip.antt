-- ===== src/Der/Header/RoundTrip.antt =====
-- der/src/header.rs: decoding the octets of a header.
use formats.Common.{ℕ, ◌≡◌, ap, ok, List, ◌++◌, length}
use formats.Der.Data.{Length, Tag, is_constructed}
use formats.Der.Header.{new, blame_tag, decode_length, decode}
use formats.Der.Header.Octets.{header_octets}
use formats.Der.Length.{IsLength}
use formats.Der.Length.Codec.Octets.{length_octets}
use formats.Der.Length.Codec.RoundTrip.{length_decode-Reads as length_Reads}
use formats.Der.Reader
use formats.Der.Reader.{SliceReader}
use formats.Der.Reader.Ready.{Ready, skip, Reads, Reads-bind, Reads-end, return-Reads}
use formats.Der.Tag
use formats.Der.Tag.Octets.{IsTag, tag_octets}
use formats.Der.Tag.RoundTrip.{decode_with_constructed_bit-Reads}

decode_length-Reads :
    (t : Tag) (n : Length) → IsLength n → Reads (decode_length t) (length_octets n) n
decode_length-Reads t n h r rest ready = ap (blame_tag t) (length_Reads n h r rest ready)

-- A reader in front of the identifier and length octets of a tag and a length, both u32, and any
-- further bytes, decodes the header that `Header::new` makes of them and stands behind them.
pub header_decode-Reads :
    (t : Tag) (n : Length)
    → IsTag t
    → IsLength n
    → (r : SliceReader) (rest : List ℕ) → Ready r (header_octets t n ++ rest)
    → decode r ≡ (ok (new t n), skip r (length (header_octets t n)))
unfolding decode new
header_decode-Reads t n ht hn =
    Reads-bind Tag.decode_with_constructed_bit
      (λ p.
        Reader.◌>>=◌ (decode_length p.0)
          (λ m. Reader.return (record { tag = p.0; length = m; constructed = p.1 })))
      (tag_octets t) (length_octets n) (t, is_constructed t) (new t n)
      (decode_with_constructed_bit-Reads t ht)
      (Reads-end (decode_length t)
        (λ m. Reader.return (record { tag = t; length = m; constructed = is_constructed t }))
        (length_octets n) n (new t n) (decode_length-Reads t n hn) (return-Reads (new t n)))
