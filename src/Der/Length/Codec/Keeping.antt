-- ===== src/Der/Length/Codec/Keeping.antt =====
-- der/src/length.rs: the reader after `Decode for Length`.
use formats.Common.{ℕ, zero, suc, ◌-◌, ◌*◌, ◌%◌, ◌^◌, bit_or, ltb, leb, ◌==◌, if◌then◌else◌}
use formats.Der.Data.{Length, indefinite_length, overlength}
use formats.Der.Length.{initial_octet}
use formats.Der.Length.Codec.{decode_bytes, decode_from, decode_long, is_initial, decode}
use formats.Der.Reader
use formats.Der.Reader.{Decoder, ◌>>=◌, read_byte}
use formats.Der.Reader.Keeps.{Safe, return-Safe, error-Safe, if-Safe, >>=-Safe, read_byte-Safe}

decode_bytes-Safe : (n acc : ℕ) → Safe (decode_bytes n acc)
unfolding decode_bytes
decode_bytes-Safe zero acc = return-Safe acc
decode_bytes-Safe (suc n) acc =
    >>=-Safe read_byte (λ b. decode_bytes n (bit_or (acc * 2 ^ 8 % 2 ^ 32) b)) read_byte-Safe
      (λ b. decode_bytes-Safe n (bit_or (acc * 2 ^ 8 % 2 ^ 32) b))

decode_long-Safe : (tag : ℕ) → Safe (decode_long tag)
decode_long-Safe tag =
    >>=-Safe (decode_bytes (tag - 0x80) 0)
      (λ n. if is_initial (initial_octet n) tag then Reader.return n else Reader.error overlength)
      (decode_bytes-Safe (tag - 0x80) 0)
      (λ n.
        if-Safe (is_initial (initial_octet n) tag) (Reader.return n) (Reader.error overlength)
          (return-Safe n) (error-Safe Length overlength))

decode_from-Safe : (b : ℕ) → Safe (decode_from b)
decode_from-Safe b =
    if-Safe (ltb b 0x80) (Reader.return b)
      (if b == 0x80
        then Reader.error indefinite_length
        else if leb b 0x84
        then decode_long b
        else Reader.error overlength)
      (return-Safe b)
      (if-Safe (b == 0x80) (Reader.error indefinite_length)
        (if leb b 0x84 then decode_long b else Reader.error overlength)
        (error-Safe Length indefinite_length)
        (if-Safe (leb b 0x84) (decode_long b) (Reader.error overlength) (decode_long-Safe b)
          (error-Safe Length overlength)))

-- Decoding a length, well formed or not, keeps the reader valid.
pub length_decode-Safe : Safe decode
unfolding decode
length_decode-Safe = >>=-Safe read_byte decode_from read_byte-Safe decode_from-Safe
