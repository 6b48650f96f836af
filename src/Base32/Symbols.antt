-- ===== src/Base32/Symbols.antt =====
-- One character in base32ct/src/alphabet.rs, against the symbols of RFC 4648 (6).
use formats.Common.{ℕ, refl, List, ◌++◌}
use formats.Common.Symbols.{run, Agrees, Agrees-table}
use formats.Base32.{
  decode_5bits, encode_5bits, base32, base32_unpadded, base32_upper, base32_upper_unpadded,
}

abbrev pub symbols_from : ℕ → List ℕ
symbols_from letter = run letter 26 ++ run b'2' 6

-- Each of the four alphabets is its list of symbols: the decoder gives every byte its place in the
-- list and 0xffff where it has none, the encoder gives every place its symbol.
pub base32-Agrees :
    Agrees (decode_5bits base32) (encode_5bits base32) (symbols_from b'a')
    × Agrees (decode_5bits base32_unpadded) (encode_5bits base32_unpadded) (symbols_from b'a')
    × Agrees (decode_5bits base32_upper) (encode_5bits base32_upper) (symbols_from b'A')
    × Agrees
        (decode_5bits base32_upper_unpadded)
        (encode_5bits base32_upper_unpadded)
        (symbols_from b'A')
unfolding decode_5bits encode_5bits
base32-Agrees = (
  Agrees-table (decode_5bits base32) (encode_5bits base32) (symbols_from b'a') refl refl,
  Agrees-table (decode_5bits base32_unpadded) (encode_5bits base32_unpadded) (symbols_from b'a')
      refl refl,
  Agrees-table (decode_5bits base32_upper) (encode_5bits base32_upper) (symbols_from b'A') refl
      refl,
  Agrees-table (decode_5bits base32_upper_unpadded) (encode_5bits base32_upper_unpadded)
      (symbols_from b'A') refl refl,
)
