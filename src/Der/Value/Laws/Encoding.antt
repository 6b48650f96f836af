-- ===== src/Der/Value/Laws/Encoding.antt =====
-- der/src/encode.rs: encoding a value, on the laws of its operations.
use formats.Common.{
  ℕ, ◌+◌, ◌≤◌, ◌≡◌, refl, sym, ap, ◌∙◌, arith, false, ok, List, ==_refl, length, length-append,
  length-replicate, replicate,
}
use formats.Der.Header
use formats.Der.Header.Octets.{header_octets, for_tlv-octets, header_encode-Writes as header_Writes}
use formats.Der.Length.{IsLength}
use formats.Der.Length.Arithmetic.{new_usize-eq_ok}
use formats.Der.Value.{Value, encode, encoded_len, encode_to_slice, to_der, finish_encoding}
use formats.Der.Value.Laws.{IsValue, tlv_octets}
use formats.Der.Writer
use formats.Der.Writer.{SliceWriter}
use formats.Der.Writer.Room.{
  HasRoom, Writes, Writes-then, put, written-put, HasRoom-put, finish-written,
}

module _ {A : Type 0} {v : Value A} {Fits : A → Type 0} {octets : A → List ℕ}
    (law : IsValue v Fits octets) (a : A) (fits : Fits a)
    (small : IsLength (length (tlv_octets v.fixed_tag (octets a)))) where
  content_small : IsLength (length (octets a))
  content_small =
      omega (arith, length-append (header_octets v.fixed_tag (length (octets a))) (octets a))

  pub value_encode-Writes : Writes (encode v a) (tlv_octets v.fixed_tag (octets a))
  unfolding encode Header.new
  value_encode-Writes w room = rw (law.announces a fits) (
      Writes-then (Header.encode (Header.new v.fixed_tag (length (octets a)))) (v.encode_value a)
        (header_octets v.fixed_tag (length (octets a))) (octets a)
        (header_Writes (Header.new v.fixed_tag (length (octets a))) law.tag_fits content_small)
        (law.writes a fits) w room)

  -- The announced length of a value that fits, and whose whole encoding is within u32::MAX, is the
  -- number of its octets, header included.
  pub encoded_len-tlv_octets : encoded_len v a ≡ ok (length (tlv_octets v.fixed_tag (octets a)))
  unfolding encoded_len
  encoded_len-tlv_octets =
      let total = length-append (header_octets v.fixed_tag (length (octets a))) (octets a) in
      rw (law.announces a fits) (
        for_tlv-octets (length (octets a)) v.fixed_tag law.tag_fits (omega (arith, total))
        ∙ ap ok (sym total))

  -- `encode_to_slice` into a buffer that is long enough, and within u32::MAX, returns tag, length and
  -- contents of a value that fits, and whose whole encoding is within u32::MAX.
  pub encode_to_slice-tlv_octets :
      (buf : List ℕ)
      → length (tlv_octets v.fixed_tag (octets a)) ≤ length buf
      → IsLength (length buf)
      → encode_to_slice v a buf ≡ ok (tlv_octets v.fixed_tag (octets a))
  unfolding encode_to_slice Writer.new
  encode_to_slice-tlv_octets buf enough fine =
      let bs = tlv_octets v.fixed_tag (octets a) in
      let w : SliceWriter = record { bytes = buf; failed = false; position = 0 } in
      let room : HasRoom w (length bs) = record { live = refl; room = omega arith; small = fine } in
      let more : HasRoom w (length bs + 0) = record {
        live = refl;
        room = omega arith;
        small = fine;
      } in
      ap finish_encoding (value_encode-Writes w room)
      ∙ finish-written (put w bs) (HasRoom-put w bs (omega arith) 0 more)
      ∙ ap ok (written-put w bs (omega arith))

  -- `to_der` returns tag, length and contents of a value that fits, and whose whole encoding is
  -- within u32::MAX.
  pub to_der-tlv_octets : to_der v a ≡ ok (tlv_octets v.fixed_tag (octets a))
  unfolding to_der
  to_der-tlv_octets =
      let bs = tlv_octets v.fixed_tag (octets a) in
      let zeroes : List ℕ = replicate (length bs) 0 in
      let size = length-replicate {A = ℕ} (length bs) 0 in
      let enough : length bs ≤ length zeroes = omega (arith, size) in
      let fine : IsLength (length zeroes) = omega (arith, size) in
      rw (
        encoded_len-tlv_octets,
        encode_to_slice-tlv_octets zeroes enough fine,
        ==_refl (length bs),
        new_usize-eq_ok (length bs) small,
      )
