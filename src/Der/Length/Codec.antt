-- ===== src/Der/Length/Codec.antt =====
-- der/src/length.rs: `Decode for Length` and `Encode for Length`.
pub mod Octets
pub mod RoundTrip
pub mod Canonical
pub mod Keeping
use formats.Common.{
  ℕ, zero, suc, ◌-◌, ◌*◌, ◌/◌, ◌%◌, ◌^◌, Bool, true, false, ◌&&◌, Option, none, some, List, [], ◌∷◌,
  bit_or, ltb, leb, ◌==◌, if◌then◌else◌,
}
use formats.Der.Data.{Length, indefinite_length, overlength}
use formats.Der.Length.{initial_octet}
use formats.Der.Reader
use formats.Der.Reader.{Decoder, ◌>>=◌, read_byte}
use formats.Der.Writer
use formats.Der.Writer.{Encoder, write_byte, write}

-- The rounds left of `for _ in 0..nbytes`; a shift by 8 of a u32 is always defined.
decode_bytes : ℕ → Length → Decoder Length
decode_bytes zero decoded_len = Reader.return decoded_len
decode_bytes (suc n) decoded_len = do
  byte ← read_byte
  decode_bytes n (bit_or (decoded_len * 2 ^ 8 % 2 ^ 32) byte)

-- `length.initial_octet() == Some(tag)`
abbrev is_initial : Option ℕ → ℕ → Bool
is_initial none tag = false
is_initial (some octet) tag = octet == tag

abbrev decode_long : ℕ → Decoder Length
decode_long tag = do
  length ← decode_bytes (tag - 0x80) 0
  if is_initial (initial_octet length) tag then Reader.return length else Reader.error overlength

-- The `match` on the first byte; DER forbids the indefinite length, 0x80.
abbrev decode_from : ℕ → Decoder Length
decode_from b =
    if ltb b 0x80
    then Reader.return b
    else if b == 0x80
    then Reader.error indefinite_length
    else if leb b 0x84
    then decode_long b
    else Reader.error overlength

unfoldable pub decode : Decoder Length
unfolding decode_bytes
decode = do b ← read_byte; decode_from b

-- `u32::to_be_bytes`, and the match that strips leading zeroes.
abbrev strip_zeroes : ℕ → ℕ → ℕ → ℕ → List ℕ
strip_zeroes a b c d =
    if a == 0 && b == 0 && c == 0
    then d ∷ []
    else if a == 0 && b == 0
    then c ∷ d ∷ []
    else if a == 0
    then b ∷ c ∷ d ∷ []
    else a ∷ b ∷ c ∷ d ∷ []

abbrev stripped : Length → List ℕ
stripped n = strip_zeroes (n / 2 ^ 24 % 256) (n / 2 ^ 16 % 256) (n / 2 ^ 8 % 256) (n % 256)

abbrev encode_with : Option ℕ → Length → Encoder (Unit {0})
encode_with (some tag_byte) n = Writer.◌>>◌ (write_byte tag_byte) (write (stripped n))
encode_with none n = write_byte (n % 256)

unfoldable pub encode : Length → Encoder (Unit {0})
unfolding initial_octet
encode n = encode_with (initial_octet n) n
