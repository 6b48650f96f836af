-- ===== src/Der/Header/Octets.antt =====
-- The octets of a header: those of its tag and of its length.
use formats.Common.{ℕ, ◌+◌, ◌≡◌, arith, ok, List, ◌++◌, length, length-append}
use formats.Der.Data.{Length, Tag}
use formats.Der.Header.{Header, encode, encoded_len, for_tlv}
use formats.Der.Length
use formats.Der.Length.{IsLength}
use formats.Der.Length.Arithmetic.{add-eq_ok}
use formats.Der.Length.Codec.Octets.{
  length_octets, length-length_octets, encoded_len-length_octets,
  length_encode-Writes as length_Writes,
}
use formats.Der.Tag
use formats.Der.Tag.Octets.{
  IsTag, tag_octets, length-tag_octets, encoded_len-tag_octets, tag_encode-Writes as tag_Writes,
}
use formats.Der.Length.Codec
use formats.Der.Writer.Room.{Writes, Writes-then}

abbrev pub header_octets : Tag → Length → List ℕ
header_octets t n = tag_octets t ++ length_octets n

pub header_encode-Writes :
    (h : Header)
    → IsTag h.tag
    → IsLength h.length
    → Writes (encode h) (header_octets h.tag h.length)
unfolding encode
header_encode-Writes h t n =
    Writes-then (Tag.encode h.tag) (Length.Codec.encode h.length) (tag_octets h.tag)
      (length_octets h.length) (tag_Writes h.tag t) (length_Writes h.length n)

-- The announced length of a header is the number of its octets.
pub encoded_len-header_octets :
    (h : Header)
    → IsTag h.tag
    → IsLength h.length
    → encoded_len h ≡ ok (length (header_octets h.tag h.length))
unfolding encoded_len
encoded_len-header_octets h t n =
    rw
      (
        encoded_len-tag_octets h.tag t,
        encoded_len-length_octets h.length n,
        length-append (tag_octets h.tag) (length_octets h.length),
      )
      (add-eq_ok (length (tag_octets h.tag)) (length (length_octets h.length))
        (omega (arith, length-tag_octets h.tag, length-length_octets h.length)))

-- For a tag whose number is a u32, `for_tlv` returns the number of the header's octets and the
-- contents' together, where that sum is within u32::MAX.
pub for_tlv-octets :
    (n : Length) (t : Tag)
    → IsTag t
    → IsLength (length (header_octets t n) + n)
    → for_tlv n t ≡ ok (length (header_octets t n) + n)
unfolding for_tlv
for_tlv-octets n t h fits =
    rw
      (
        encoded_len-tag_octets t h,
        encoded_len-length_octets n (omega arith),
        length-append (tag_octets t) (length_octets n),
        add-eq_ok (length (tag_octets t)) (length (length_octets n))
            (omega (arith, length-append (tag_octets t) (length_octets n))),
      )
      (add-eq_ok (length (tag_octets t) + length (length_octets n)) n
        (omega (arith, length-append (tag_octets t) (length_octets n))))
