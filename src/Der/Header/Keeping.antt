-- ===== src/Der/Header/Keeping.antt =====
-- der/src/header.rs: the reader after `Decode for Header`.
use formats.Common.{Bool-cases, inl, inr, ok, err}
use formats.Der.Data.{Length, Tag, ErrorKind, DerResult}
use formats.Der.Header.{Header, blame_tag, is_overlength, decode_length, decode}
use formats.Der.Length.Codec
use formats.Der.Length.Codec.Keeping.{length_decode-Safe as length_Safe}
use formats.Der.Reader
use formats.Der.Reader.{SliceReader, Decoder, ◌>>=◌}
use formats.Der.Reader.Keeps.{Keeps, Safe, Keeps-trans, return-Safe, error-Safe, >>=-Safe}
use formats.Der.Tag
use formats.Der.Tag.Keeping.{decode_with_constructed_bit-Safe}

blame_tag-Keeps :
    (t : Tag) (r : SliceReader) (p : DerResult Length × SliceReader)
    → Keeps r p.1
    → Keeps r (blame_tag t p).1
blame_tag-Keeps t r (ok n, q) h = h
blame_tag-Keeps t r (err e, q) h = elim (Bool-cases (is_overlength e.kind)) [
  | inl long ↦ rw long (Keeps-trans h (error-Safe Length (ErrorKind.length t) q h.valid))
  | inr other ↦ rw other h
]

-- Decoding a header, well formed or not, leaves a valid reader valid, in the same window and at the
-- same depth, and moves it only forward.
pub header_decode-Safe : Safe decode
unfolding decode
header_decode-Safe =
    >>=-Safe Tag.decode_with_constructed_bit
      (λ p. decode_length p.0 >>= λ m.
        Reader.return (record { tag = p.0; length = m; constructed = p.1 }))
      decode_with_constructed_bit-Safe
      (λ p.
        >>=-Safe (decode_length p.0)
          (λ m. Reader.return (record { tag = p.0; length = m; constructed = p.1 }))
          (λ r v. blame_tag-Keeps p.0 r (Codec.decode r) (length_Safe r v))
          (λ n. return-Safe {A = Header} (record { tag = p.0; length = n; constructed = p.1 })))
