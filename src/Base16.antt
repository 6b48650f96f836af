-- ===== src/Base16.antt =====
-- The crate `base16ct`: base16ct/src/lib.rs, error.rs, and what lower.rs, upper.rs and mixed.rs
-- share. A function that writes to a buffer returns its result with the new buffer.
pub mod Nibbles
pub mod Digits
pub mod Loops
pub mod RoundTrip
pub mod Canonical
pub mod Cases
use formats.Common.{
  ℕ, zero, suc, ◌+◌, ◌-◌, ◌*◌, ◌/◌, ◌%◌, ◌^◌, Option, none, some, List, [], ◌∷◌, ◌++◌, Result, ok,
  err, and_then, bit_and, bit_or, ◌==◌, leb, if◌then◌else◌, length, take, drop, replicate,
}
use formats.Base16.Nibbles.{
  lower_decode_nibble, upper_decode_nibble, mixed_decode_nibble, lower_encode_nibble,
  upper_encode_nibble,
}

pub data HexError : Type 0 where
  invalid_encoding invalid_length : HexError

-- The number of bytes that the digits stand for.
unfoldable pub decoded_len : List ℕ → Result ℕ HexError
decoded_len bytes =
    if bit_and (length bytes) 1 == 0 then ok (length bytes / 2) else err invalid_length

-- The product wraps, as in a build without overflow checks.
unfoldable pub encoded_len : List ℕ → ℕ
encoded_len bytes = length bytes * 2 % 2 ^ 64

-- The pairs of `src` into the places of `dst`, and `err`, which gathers the upper bytes.
abbrev pub pair_word : (ℕ → ℕ) → ℕ → ℕ → ℕ
pair_word decode_nibble a b = bit_or (decode_nibble a * 2 ^ 4 % 2 ^ 16) (decode_nibble b)

pub decode_loop : (ℕ → ℕ) → List ℕ → List ℕ → ℕ → List ℕ × ℕ
decode_loop decode_nibble (a ∷ b ∷ src) (_ ∷ dst) e =
    let byte = pair_word decode_nibble a b in
    let rest = decode_loop decode_nibble src dst (bit_or e (byte / 2 ^ 8)) in
    (byte % 2 ^ 8 ∷ rest.0, rest.1)
decode_loop decode_nibble _ dst e = (dst, e)

abbrev decode_into :
    (ℕ → ℕ) → List ℕ → List ℕ → Result ℕ HexError → Result (List ℕ) HexError × List ℕ
decode_into decode_nibble src dst (err e) = (err e, dst)
decode_into decode_nibble src dst (ok n) =
    let out = decode_loop decode_nibble src (take n dst) 0 in
    if leb n (length dst)
    then (if out.1 == 0 then ok out.0 else err invalid_encoding, out.0 ++ drop n dst)
    else (err invalid_length, dst)

unfoldable pub decode_inner : (ℕ → ℕ) → List ℕ → List ℕ → Result (List ℕ) HexError × List ℕ
unfolding decode_loop
decode_inner decode_nibble src dst = decode_into decode_nibble src dst (decoded_len src)

-- `decode_vec`: into a vector of zeroes, which is returned where the decoding succeeds.
abbrev decode_result : Result (List ℕ) HexError × List ℕ → Result (List ℕ) HexError
decode_result (ok _, output) = ok output
decode_result (err e, output) = err e

unfoldable pub decode_vec : (ℕ → ℕ) → List ℕ → Result (List ℕ) HexError
decode_vec decode_nibble input =
    and_then (decoded_len input)
      (λ n. decode_result (decode_inner decode_nibble input (replicate n 0)))

pub encode_loop : (ℕ → ℕ) → List ℕ → List ℕ → List ℕ
encode_loop encode_nibble (s ∷ src) (_ ∷ _ ∷ dst) =
    encode_nibble (s / 2 ^ 4) ∷ encode_nibble (bit_and s 0x0f) ∷ encode_loop encode_nibble src dst
encode_loop encode_nibble _ dst = dst

-- `encode`
unfoldable pub encode : (ℕ → ℕ) → List ℕ → List ℕ → Result (List ℕ) HexError × List ℕ
unfolding encode_loop
encode encode_nibble src dst =
    let n = encoded_len src in
    let out = encode_loop encode_nibble src (take n dst) in
    if leb n (length dst) then (ok out, out ++ drop n dst) else (err invalid_length, dst)

-- `encode_string`: `none` stands for the panic of `vec!` above the largest isize, and of `expect`.
abbrev expect_ok : Result (List ℕ) HexError × List ℕ → Option (List ℕ)
expect_ok (ok _, dst) = some dst
expect_ok (err e, dst) = none

unfoldable pub encode_string : (ℕ → ℕ) → List ℕ → Option (List ℕ)
encode_string encode_nibble input =
    let elen = encoded_len input in
    if leb elen (2 ^ 63 - 1)
    then expect_ok (encode encode_nibble input (replicate elen 0))
    else none

-- `HexDisplay`: the digits of each byte in turn.
abbrev write_digits : Result (List ℕ) HexError × List ℕ → Option (List ℕ) → Option (List ℕ)
write_digits (ok digits, hex) (some rest) = some (digits ++ rest)
write_digits (ok digits, hex) none = none
write_digits (err e, hex) rest = none

unfoldable pub hex_display : (ℕ → ℕ) → List ℕ → Option (List ℕ)
hex_display encode_nibble [] = some []
hex_display encode_nibble (byte ∷ bytes) =
    write_digits (encode encode_nibble (byte ∷ []) (0 ∷ 0 ∷ [])) (hex_display encode_nibble bytes)
