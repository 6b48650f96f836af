-- ===== src/Der/Fields.antt =====
-- der/src/reader.rs, header.rs and tag.rs: the methods of a reader that need headers.
pub mod Laws
use formats.Common.{ℕ, List}
use formats.Der.Data.{Tag, DerResult, sequence}
use formats.Der.Header
use formats.Der.Header.{Header}
use formats.Der.Length
use formats.Der.Reader
use formats.Der.Reader.{SliceReader, Decoder, ◌>>=◌, read_slice, read_nested}
use formats.Der.Tag

-- `Header::peek` and `Tag::peek`: the reader is a clone, so its new state is dropped.
unfoldable pub peek_header : SliceReader → DerResult Header
peek_header r = (Header.decode r).0

unfoldable pub peek_tag : SliceReader → DerResult Tag
peek_tag r = (Tag.decode r).0

unfoldable pub tlv_bytes : Decoder (List ℕ)
tlv_bytes r =
    (Reader.lift (peek_header r) >>= λ h. Reader.lift (Header.encoded_len h) >>= λ header_len.
    Reader.lift (Length.add header_len h.length) >>= read_slice)
      r

-- `Reader::sequence`
unfoldable pub read_sequence : {A : Type 0} → Decoder A → Decoder A
read_sequence f = do
  h ← Header.decode
  _ ← Reader.lift (Header.assert_eq h.tag sequence)
  read_nested h.length f
