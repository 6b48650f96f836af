-- ===== src/Der/Fields/Laws.antt =====
-- A complete value, taken as bytes or opened as a SEQUENCE.
use formats.Common.{
  ℕ, ◌<◌, ◌≡◌, refl, sym, ap, ◌∙◌, arith, ok, List, ◌++◌, length, length-append, append_assoc,
}
use formats.Der.Data.{Tag, Length, sequence, number}
use formats.Der.Fields.{peek_header, tlv_bytes, read_sequence}
use formats.Der.Header
use formats.Der.Header.Octets.{header_octets, encoded_len-header_octets}
use formats.Der.Header.RoundTrip.{header_decode-Reads}
use formats.Der.Length.{add}
use formats.Der.Length.{IsLength}
use formats.Der.Length.Arithmetic.{add-eq_ok}
use formats.Der.Reader.{SliceReader, Decoder}
use formats.Der.Reader.Nesting.{read_nested-Reads}
use formats.Der.Reader.Ready.{Ready, Reads, Ready-skip, skip, skip-skip}
use formats.Der.Reader.Slices.{read_slice-Reads}
use formats.Der.Tag.Octets.{IsTag}
use formats.Der.Value.Laws.{tlv_octets}
use formats.Der.Value.Laws.Decoding.{assert_eq_self}

peek_decoded :
    (r : SliceReader) {h : Header.Header} {r' : SliceReader}
    → Header.decode r ≡ (ok h, r')
    → peek_header r ≡ ok h
unfolding peek_header
peek_decoded r e = ap (λ p. p.0) e

header_length : (t : Tag) (n : Length) → (Header.new t n).length ≡ n
unfolding Header.new
header_length t n = refl

announced :
    (t : Tag) (n : Length)
    → IsTag t
    → IsLength n
    → Header.encoded_len (Header.new t n) ≡ ok (length (header_octets t n))
unfolding Header.new
announced t n ht hn = encoded_len-header_octets (Header.new t n) ht hn

-- In front of tag, length and contents, the tag's number and the whole length u32, and any further
-- bytes, `tlv_bytes` returns just these octets and stands behind them.
pub tlv_bytes-tlv_octets :
    (t : Tag) (contents : List ℕ)
    → IsTag t
    → IsLength (length (tlv_octets t contents))
    → (r : SliceReader) (rest : List ℕ) → Ready r (tlv_octets t contents ++ rest)
    → tlv_bytes r ≡ (ok (tlv_octets t contents), skip r (length (tlv_octets t contents)))
unfolding tlv_bytes
tlv_bytes-tlv_octets t contents ht small r rest ready =
    let n = length contents in
    let hs = header_octets t n in
    let front : Ready r (hs ++ (contents ++ rest)) = rw (append_assoc hs contents rest) at ready in
    let total = length-append hs contents in
    let hn : IsLength n = omega (arith, total) in
    let head : peek_header r ≡ ok (Header.new t n) =
      peek_decoded r (header_decode-Reads t n ht hn r (contents ++ rest) front) in
    let length_is : (Header.new t n).length ≡ n = header_length t n in
    let sum : add (length hs) n ≡ ok (length (tlv_octets t contents)) =
      add-eq_ok (length hs) n (omega (arith, total)) ∙ ap ok (sym total) in
    rw (head, announced t n ht hn, length_is, sum)
      (read_slice-Reads (tlv_octets t contents) r rest ready)

-- In front of a SEQUENCE whose contents `f` reads, `read_sequence` returns what `f` does.
pub read_sequence-Reads :
    {A : Type 0} (f : Decoder A) (contents : List ℕ) (a : A)
    → Reads f contents a
    → IsLength (length contents)
    → (r : SliceReader) (rest : List ℕ) → Ready r (tlv_octets sequence contents ++ rest)
    → r.position.depth < 64
    → read_sequence f r ≡ (ok a, skip r (length (tlv_octets sequence contents)))
unfolding read_sequence Header.new number
read_sequence-Reads f contents a reads small r rest ready room =
    let n = length contents in
    let hs = header_octets sequence n in
    let front : Ready r (hs ++ (contents ++ rest)) = rw (append_assoc hs contents rest) at ready in
    let head = header_decode-Reads sequence n (omega arith) small r (contents ++ rest) front in
    rw (head, assert_eq_self sequence)
      (read_nested-Reads f contents a reads (skip r (length hs)) rest
          (Ready-skip r hs (contents ++ rest) front) room
        ∙ ap (λ q. (ok a, q))
            (skip-skip r (length hs) n ∙ ap (skip r) (sym (length-append hs contents))))
