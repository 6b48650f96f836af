-- ===== src/Base64/Codec.antt =====
-- Whole texts: base64ct/src/encoding.rs. A function on a buffer returns its result with the buffer. A
-- usize has 64 bits.
pub mod Text
pub mod Encoding
pub mod Padding
pub mod Decoding
pub mod Characters
pub mod LastBlock
pub mod RoundTrip
use formats.Common.{
  ℕ, zero, suc, ◌+◌, ◌-◌, ◌*◌, ◌/◌, ◌%◌, ◌^◌, Bool, true, false, ◌&&◌, ◌||◌, Option, none, some,
  List, [], ◌∷◌, ◌++◌, Result, ok, err, ◌>>=◌, bit_and, bit_or, ltb, leb, ◌==◌, if◌then◌else◌,
  length, take, drop, replicate,
}
use Prim.Native.Nat.{bit_xor}
use formats.Common.Int16.{sub_i16, shift_i16}
use formats.Base64.{Alphabet, decode_3bytes, encode_3bytes}

pub data Base64Error : Type 0 where
  invalid_encoding invalid_length : Base64Error

abbrev pub pad : ℕ
pad = b'='

-- `checked_mul` and `checked_sub`
abbrev less : ℕ → ℕ → Option ℕ
less len n = if ltb len n then none else some (len - n)

unfoldable pub encoded_len : ℕ → Bool → Option ℕ
encoded_len n padded =
    let len = (n + 2) / 3 * 4 in
    let rem = n % 3 in
    if ltb len (2 ^ 64)
    then (if padded then some len else less len (if rem == 0 then 0 else 3 - rem))
    else none

-- `encode_3bytes` on what is left of `src`, with zeroes behind it.
abbrev pub encode_rem : Alphabet → List ℕ → List ℕ
encode_rem a [] = encode_3bytes a 0 0 0
encode_rem a (x ∷ []) = encode_3bytes a x 0 0
encode_rem a (x ∷ y ∷ more) = encode_3bytes a x y 0

-- The padding of the last block, whose source had `n` bytes.
abbrev pub pad_block : ℕ → List ℕ → List ℕ
pad_block n (c0 ∷ c1 ∷ c2 ∷ _ ∷ []) =
    let mask = if n == 1 then 0 else 0xff in
    c0 ∷ c1 ∷ bit_or (bit_and c2 mask) (bit_and pad (0xff - mask)) ∷ pad ∷ []
pad_block n block = block

-- Behind the loop over whole blocks: the rest of `src` and of `dst`.
abbrev pub encode_end : Alphabet → Bool → List ℕ → List ℕ → List ℕ
encode_end a true src_rem (_ ∷ _ ∷ _ ∷ _ ∷ dst) =
    pad_block (length src_rem) (encode_rem a src_rem) ++ dst
encode_end a true src_rem dst_rem = dst_rem
encode_end a false src_rem dst_rem = take (length dst_rem) (encode_rem a src_rem)

unfoldable pub encode_loop : Alphabet → List ℕ → List ℕ → List ℕ
encode_loop a (x ∷ y ∷ z ∷ src) (_ ∷ _ ∷ _ ∷ _ ∷ dst) =
    encode_3bytes a x y z ++ encode_loop a src dst
encode_loop a src_rem dst_rem = encode_end a a.padded src_rem dst_rem

abbrev encode_into : Alphabet → List ℕ → List ℕ → Option ℕ → Result (List ℕ) Base64Error × List ℕ
encode_into a src dst none = (err invalid_length, dst)
encode_into a src dst (some elen) =
    let out = encode_loop a src (take elen dst) in
    if ltb (length dst) elen then (err invalid_length, dst) else (ok out, out ++ drop elen dst)

unfoldable pub encode : Alphabet → List ℕ → List ℕ → Result (List ℕ) Base64Error × List ℕ
encode a src dst = encode_into a src dst (encoded_len (length src) a.padded)

-- `encode_string`: `none` is a panic of `expect`.
abbrev expect_ok : Result (List ℕ) Base64Error × List ℕ → Option (List ℕ)
expect_ok (ok _, dst) = some dst
expect_ok (err e, dst) = none

abbrev string_of : Alphabet → List ℕ → Option ℕ → Option (List ℕ)
string_of a input none = none
string_of a input (some elen) = expect_ok (encode a input (replicate elen 0))

unfoldable pub encode_string : Alphabet → List ℕ → Option (List ℕ)
encode_string a input = string_of a input (encoded_len (length input) a.padded)

unfoldable pub decoded_len : ℕ → ℕ
decoded_len input_len = let k = input_len / 4 in let l = input_len - 4 * k in 3 * k + 3 * l / 4

unfoldable pub is_pad_ct : ℕ → ℕ
is_pad_ct input =
    bit_and (shift_i16 (bit_and (sub_i16 (pad - 1) input) (sub_i16 input (pad + 1)))) 1

-- The pattern `[.., b0, b1]`.
abbrev pub last_two : List ℕ → Option (ℕ × ℕ)
last_two [] = none
last_two (b0 ∷ []) = none
last_two (b0 ∷ b1 ∷ []) = some (b0, b1)
last_two (b ∷ b0 ∷ b1 ∷ input) = last_two (b0 ∷ b1 ∷ input)

-- The length without padding, and the number that says whether the padding is wrong.
abbrev padding_err : ℕ → ℕ → ℕ → Result (ℕ × ℕ) Base64Error
padding_err len b0 b1 =
    let padding_len = is_pad_ct b0 + is_pad_ct b1 in
    let unpadded_len = len - padding_len in
    if padding_len == 1
    then ok (unpadded_len, bit_xor (is_pad_ct b1) 1)
    else if padding_len == 2
    then ok (unpadded_len, bit_xor (bit_and (is_pad_ct b0) (is_pad_ct b1)) 1)
    else if padding_len == 0
    then ok (unpadded_len, 0)
    else err invalid_encoding

abbrev padding_of : ℕ → Option (ℕ × ℕ) → Result (ℕ × ℕ) Base64Error
padding_of len none = ok (len, 0)
padding_of len (some (b0, b1)) = padding_err len b0 b1

unfoldable pub decode_padding : List ℕ → Result (ℕ × ℕ) Base64Error
decode_padding input =
    if length input % 4 == 0
    then padding_of (length input) (last_two input)
    else err invalid_encoding

-- `decode_3bytes` on what is left of `src`, with letters behind it.
abbrev pub decode_rem : Alphabet → List ℕ → List ℕ × ℕ
decode_rem a [] = decode_3bytes a b'A' b'A' b'A' b'A'
decode_rem a (x ∷ []) = decode_3bytes a x b'A' b'A' b'A'
decode_rem a (x ∷ y ∷ []) = decode_3bytes a x y b'A' b'A'
decode_rem a (x ∷ y ∷ z ∷ more) = decode_3bytes a x y z b'A'

abbrev pub decode_end : Alphabet → List ℕ → List ℕ → ℕ → List ℕ × ℕ
decode_end a src_rem dst_rem e =
    let len = length src_rem in
    let flag = if len == 0 || leb 2 len then 0 else 1 in
    let block = decode_rem a src_rem in
    (take (length dst_rem) block.0, bit_or (bit_or e flag) block.1)

-- The bytes, and `err`, which gathers what is wrong.
unfoldable pub decode_loop : Alphabet → List ℕ → List ℕ → ℕ → List ℕ × ℕ
decode_loop a (s0 ∷ s1 ∷ s2 ∷ s3 ∷ src) (_ ∷ _ ∷ _ ∷ dst) e =
    let block = decode_3bytes a s0 s1 s2 s3 in
    let rest = decode_loop a src dst (bit_or e block.1) in (block.0 ++ rest.0, rest.1)
decode_loop a src_rem dst_rem e = decode_end a src_rem dst_rem e

unfoldable pub last_block_start : List ℕ → ℕ → ℕ
last_block_start bytes block_size = (length bytes - 1) / block_size * block_size

-- The fold over `zip`.
abbrev pub differ : List ℕ → List ℕ → ℕ → ℕ
differ (a ∷ block) (b ∷ enc_block) acc = differ block enc_block (bit_or acc (bit_xor a b))
differ _ _ acc = acc

abbrev pub is_empty : List ℕ → Bool
is_empty [] = true
is_empty (b ∷ bs) = false

abbrev pub same_block : List ℕ → List ℕ → Result (Unit {0}) Base64Error
same_block enc_block block = if differ block enc_block 0 == 0 then ok tt else err invalid_encoding

unfoldable pub validate_last_block : Alphabet → List ℕ → List ℕ → Result (Unit {0}) Base64Error
validate_last_block a encoded decoded =
    let enc_block = drop (last_block_start encoded 4) encoded in
    let dec_block = drop (last_block_start decoded 3) decoded in
    if is_empty encoded && is_empty decoded
    then ok tt
    else ((encode a dec_block (replicate 4 0)).0 >>= same_block enc_block)

abbrev decode_checked : Alphabet → List ℕ → List ℕ × ℕ → Result (List ℕ) Base64Error
decode_checked a src (out, e) =
    if e == 0 then (validate_last_block a src out >>= λ _. ok out) else err invalid_encoding

abbrev decode_into :
    Alphabet → List ℕ → List ℕ → Result (ℕ × ℕ) Base64Error → Result (List ℕ) Base64Error × List ℕ
decode_into a src dst (err e) = (err e, dst)
decode_into a src dst (ok (unpadded_len, e)) =
    let dlen = decoded_len unpadded_len in
    let out = decode_loop a (take unpadded_len src) (take dlen dst) e in
    if ltb (length dst) dlen
    then (err invalid_length, dst)
    else (decode_checked a src out, out.0 ++ drop dlen dst)

abbrev unpadded : Bool → List ℕ → Result (ℕ × ℕ) Base64Error
unpadded true src = decode_padding src
unpadded false src = ok (length src, 0)

unfoldable pub decode : Alphabet → List ℕ → List ℕ → Result (List ℕ) Base64Error × List ℕ
decode a src dst = decode_into a src dst (unpadded a.padded src)

-- `decode_vec`: the slice that `decode` gives begins the vector, which is cut to its length.
abbrev decode_result : Result (List ℕ) Base64Error × List ℕ → Result (List ℕ) Base64Error
decode_result (err e, output) = err e
decode_result (ok bytes, output) =
    if leb (length bytes) (length output)
    then ok (take (length bytes) output)
    else err invalid_length

unfoldable pub decode_vec : Alphabet → List ℕ → Result (List ℕ) Base64Error
decode_vec a input = decode_result (decode a input (replicate (decoded_len (length input)) 0))
