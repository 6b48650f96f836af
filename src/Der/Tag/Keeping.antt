-- ===== src/Der/Tag/Keeping.antt =====
-- der/src/tag.rs: the reader after `Decode for Tag`.
use formats.Common.{
  ℕ, zero, suc, ◌+◌, ◌*◌, ◌%◌, ◌^◌, Bool, not, ◌&&◌, Option, some, none, bit_and, bit_or, ltb, leb,
  ◌==◌, if◌then◌else◌,
}
use formats.Der.Data.{
  Tag, TagNumber, tag_number_invalid, tag_unknown, application_tag, context_specific_tag,
  private_tag,
}
use formats.Der.Reader
use formats.Der.Reader.{Decoder, ◌>>=◌, read_byte}
use formats.Der.Reader.Keeps.{Safe, return-Safe, error-Safe, if-Safe, >>=-Safe, read_byte-Safe}
use formats.Der.Tag.{
  has_flag, number_byte, number_loop, parse_parts, other_tag, tag_from, universal_tag,
  leading_zeros, decode_with_constructed_bit,
}

number_byte-Safe :
    (more : ℕ → Decoder TagNumber) (i acc byte : ℕ)
    → ((n : ℕ) → Safe (more n))
    → Safe (number_byte more i acc byte)
number_byte-Safe more i acc byte h =
    let n = bit_or acc (bit_and byte 0x7f) in
    let invalid = error-Safe TagNumber tag_number_invalid in
    if-Safe (bit_and byte 0x80 == 0)
      (if ltb n 31 then Reader.error tag_number_invalid else Reader.return n) _
      (if-Safe (ltb n 31) (Reader.error tag_number_invalid) (Reader.return n) invalid
        (return-Safe n))
      (if-Safe (i == 0 && n == 0) (Reader.error tag_number_invalid) _ invalid (
        if-Safe (ltb (leading_zeros n) 7) (Reader.error tag_number_invalid)
          (more (n * 2 ^ 7 % 2 ^ 32)) invalid (h (n * 2 ^ 7 % 2 ^ 32))))

number_loop-Safe : (rounds i acc : ℕ) → Safe (number_loop rounds i acc)
unfolding number_loop
number_loop-Safe zero i acc = error-Safe TagNumber tag_number_invalid
number_loop-Safe (suc rounds) i acc =
    >>=-Safe read_byte (number_byte (number_loop rounds (i + 1)) i acc) read_byte-Safe
      (λ b. number_byte-Safe (number_loop rounds (i + 1)) i acc b (number_loop-Safe rounds (i + 1)))

parse_parts-Safe : (b : ℕ) → Safe (parse_parts b)
parse_parts-Safe b =
    if-Safe (not (bit_and b 0x1f == 31)) (Reader.return (has_flag b, bit_and b 0x1f))
      (number_loop 5 0 0 >>= λ n. Reader.return (has_flag b, n))
      (return-Safe {A = Bool × TagNumber} (has_flag b, bit_and b 0x1f))
      (>>=-Safe (number_loop 5 0 0) (λ n. Reader.return (has_flag b, n)) (number_loop-Safe 5 0 0)
        (λ n. return-Safe {A = Bool × TagNumber} (has_flag b, n)))

parts_then-Safe :
    (b : ℕ) (f : Bool → TagNumber → Tag) → Safe (parse_parts b >>= λ p. Reader.return (f p.0 p.1))
parts_then-Safe b f =
    >>=-Safe (parse_parts b) (λ p. Reader.return (f p.0 p.1)) (parse_parts-Safe b)
      (λ p. return-Safe (f p.0 p.1))

other_tag-Safe : (b : ℕ) → Safe (other_tag b)
other_tag-Safe b =
    if-Safe (leb 0x40 b && leb b 0x7f)
      (parse_parts b >>= λ p. Reader.return (application_tag p.0 p.1)) _
      (parts_then-Safe b application_tag)
      (if-Safe (leb 0x80 b && leb b 0xbf)
        (parse_parts b >>= λ p. Reader.return (context_specific_tag p.0 p.1)) _
        (parts_then-Safe b context_specific_tag)
        (if-Safe (leb 0xc0 b && leb b 0xff)
          (parse_parts b >>= λ p. Reader.return (private_tag p.0 p.1)) _
          (parts_then-Safe b private_tag)
          (if-Safe (b == 0x1f) (Reader.error tag_number_invalid) (Reader.error (tag_unknown b))
            (error-Safe Tag tag_number_invalid) (error-Safe Tag (tag_unknown b)))))

tag_from-Safe : (o : Option Tag) (b : ℕ) → Safe (tag_from o b)
tag_from-Safe (some t) b = return-Safe t
tag_from-Safe none b = other_tag-Safe b

-- Decoding a tag, well formed or not, keeps the reader valid.
pub decode_with_constructed_bit-Safe : Safe decode_with_constructed_bit
unfolding decode_with_constructed_bit
decode_with_constructed_bit-Safe =
    >>=-Safe read_byte (λ b. tag_from (universal_tag b) b >>= λ t. Reader.return (t, has_flag b))
      read_byte-Safe
      (λ b.
        >>=-Safe (tag_from (universal_tag b) b) (λ t. Reader.return (t, has_flag b))
          (tag_from-Safe (universal_tag b) b) (λ t. return-Safe {A = Tag × Bool} (t, has_flag b)))
