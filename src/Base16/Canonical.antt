-- ===== src/Base16/Canonical.antt =====
-- The texts that the decoders of base16ct/src/lower.rs, upper.rs and mixed.rs take.
use formats.Common.{
  ℕ, ◌*◌, ◌/◌, ◌%◌, ◌^◌, ◌<◌, ◌≡◌, refl, ◌∙◌, ap, arith, inl, inr, List, [], ◌∷◌, length, take_all,
  replicate, length-replicate, bit_or, All, IsByte, some, ok, err, append-nil, Result, ◌==◌,
  Bool-cases, and_then, ==→eq,
}
use formats.Common.Bits.{bit_or_ge, bit_and_0x1}
use formats.Base16.{
  HexError, decoded_len, pair_word, decode_loop, decode_inner, decode_vec, decode_result,
  encode_string,
}
use formats.Base16.Digits.{
  IsNibbles, IsOnly, lower-IsNibbles, upper-IsNibbles, mixed-IsNibbles, lower-IsOnly, upper-IsOnly,
  mixed_value, decode_nibble-value,
}
use formats.Base16.Loops.{digits, pair_word_digits, pair_word_none, loop_err_ge}
use formats.Base16.Nibbles.{
  lower_decode_nibble, upper_decode_nibble, mixed_decode_nibble, lower_encode_nibble,
  upper_encode_nibble,
}
use formats.Base16.RoundTrip.{zeroes, drop-zeroes, leb_self, encode_string-digits}

-- What the loop shows where `err` stays 0.
record Clean (d : ℕ → ℕ) (src out : List ℕ) : Type 0 where
  nibbles : All (λ c. d c < 16) src
  bytes : All IsByte out
  pairs : length src ≡ length out * 2
  back : (e : ℕ → ℕ) → IsOnly d e → digits e out ≡ src

module _ {d : ℕ → ℕ} (law : IsNibbles d) where
  -- Both digits of a clean pair.
  pair_clean :
      (a b : ℕ) → IsByte a → IsByte b → pair_word d a b / 2 ^ 8 ≡ 0 → (d a < 16) × (d b < 16)
  pair_clean a b ha hb h = elim (law a ha) [
    | inr none_a ↦ absurd (omega (arith, pair_word_none d a b (inl none_a)))
    | inl digit_a ↦ elim (law b hb) [
      | inr none_b ↦ absurd (omega (arith, pair_word_none d a b (inr none_b)))
      | inl digit_b ↦ (digit_a, digit_b)
    ]
  ]

  decode_loop-Clean :
      (src dst : List ℕ) (acc : ℕ)
      → All IsByte src
      → length src ≡ length dst * 2
      → (decode_loop d src dst acc).1 ≡ 0
      → Clean d src (decode_loop d src dst acc).0
  unfolding decode_loop
  decode_loop-Clean [] [] acc all h e = record {
    nibbles = tt;
    bytes = tt;
    pairs = refl;
    back = λ _ _. refl;
  }
  decode_loop-Clean [] (x ∷ dst) acc all h e = absurd (omega arith)
  decode_loop-Clean (a ∷ []) [] acc all h e = absurd (omega arith)
  decode_loop-Clean (a ∷ []) (x ∷ dst) acc all h e = absurd (omega arith)
  decode_loop-Clean (a ∷ b ∷ src) [] acc all h e = absurd (omega arith)
  decode_loop-Clean (a ∷ b ∷ src) (x ∷ dst) acc (ha, (hb, hs)) h e =
      let word = pair_word d a b in
      let next = bit_or acc (word / 2 ^ 8) in
      let clean : word / 2 ^ 8 ≡ 0 =
        omega (arith, loop_err_ge d src dst next, (bit_or_ge acc (word / 2 ^ 8)).1) in
      let (da, db) = pair_clean a b ha hb clean in
      let rest = decode_loop-Clean src dst next hs (omega arith) e in
      let made = pair_word_digits d a b da db in
      let hi : word % 2 ^ 8 / 16 ≡ d a = omega (arith, made) in
      let lo : word % 2 ^ 8 % 16 ≡ d b = omega (arith, made) in
      record {
        nibbles = (da, (db, rest.nibbles));
        bytes = (omega arith, rest.bytes);
        pairs = omega (arith, rest.pairs);
        back = λ enc only. rw (hi, lo, only a ha da, only b hb db, rest.back enc only) refl;
      }

decoded_len_ok : (src : List ℕ) {n : ℕ} → decoded_len src ≡ ok n → length src ≡ n * 2
unfolding decoded_len
decoded_len_ok src e = let parity = bit_and_0x1 (length src) in ground (arith, parity)

and_then_ok :
    {A B : Type 0} (p : Result A HexError) (f : A → Result B HexError) {b : B}
    → and_then p f ≡ ok b
    → (a : A) × (p ≡ ok a) × (f a ≡ ok b)
and_then_ok (ok a) f e = (a, refl, e)
and_then_ok (err x) f e = absurd (cc)

decode_vec-Clean :
    {d : ℕ → ℕ}
    → IsNibbles d
    → (src bs : List ℕ) → All IsByte src
    → decode_vec d src ≡ ok bs
    → Clean d src bs
unfolding decode_vec decode_inner
decode_vec-Clean {d} law src bs all e =
    let (n, counted, run) =
      and_then_ok (decoded_len src) (λ n. decode_result (decode_inner d src (replicate n 0))) e in
    let size : length (zeroes n) ≡ n = length-replicate n 0 in
    let pairs : length src ≡ length (zeroes n) * 2 =
      omega (arith, decoded_len_ok src counted, size) in
    let out = decode_loop d src (zeroes n) 0 in
    let whole =
      rw
        (
          counted,
          size,
          leb_self n,
          take_all n (zeroes n) (omega (arith, size)),
          drop-zeroes n,
          append-nil out.0,
        )
        at run in
    elim (Bool-cases (out.1 == 0)) [
      | inl zero_err ↦
          let same = rw zero_err at whole in
          let is : out.0 ≡ bs = ground arith in
          rw is at (decode_loop-Clean law src (zeroes n) 0 all pairs (==→eq out.1 0 zero_err))
      | inr some_err ↦ absurd (cc (rw some_err at whole))
    ]

-- A text of bytes that the decoder for lower case accepts is the text that `encode_string` returns
-- for the bytes decoded, which are fewer than 2 ^ 62.
pub lower_decode_vec_ok :
    (text bs : List ℕ)
    → length bs < 2 ^ 62
    → All IsByte text
    → decode_vec lower_decode_nibble text ≡ ok bs
    → encode_string lower_encode_nibble bs ≡ some text
lower_decode_vec_ok text bs few all e =
    let clean = decode_vec-Clean lower-IsNibbles text bs all e in
    encode_string-digits lower_encode_nibble bs few clean.bytes
    ∙ ap some (clean.back lower_encode_nibble lower-IsOnly)

-- A text of bytes that the decoder for upper case accepts is the text that `encode_string` returns
-- for the bytes decoded, which are fewer than 2 ^ 62.
pub upper_decode_vec_ok :
    (text bs : List ℕ)
    → length bs < 2 ^ 62
    → All IsByte text
    → decode_vec upper_decode_nibble text ≡ ok bs
    → encode_string upper_encode_nibble bs ≡ some text
upper_decode_vec_ok text bs few all e =
    let clean = decode_vec-Clean upper-IsNibbles text bs all e in
    encode_string-digits upper_encode_nibble bs few clean.bytes
    ∙ ap some (clean.back upper_encode_nibble upper-IsOnly)

mixed_digits :
    (text : List ℕ)
    → All IsByte text
    → All (λ c. mixed_decode_nibble c < 16) text
    → All (λ c. mixed_value c < 16) text
mixed_digits [] all h = tt
mixed_digits (c ∷ text) all h =
    (rw (← (decode_nibble-value c all.0).2) h.0, mixed_digits text all.1 h.1)

-- A text of bytes that the decoder for mixed case accepts consists of hexadecimal digits, two for
-- each byte decoded.
pub mixed_decode_vec_ok :
    (text bs : List ℕ)
    → All IsByte text
    → decode_vec mixed_decode_nibble text ≡ ok bs
    → All (λ c. mixed_value c < 16) text × (length text ≡ length bs * 2) × All IsByte bs
mixed_decode_vec_ok text bs all e =
    let clean = decode_vec-Clean mixed-IsNibbles text bs all e in
    (mixed_digits text all clean.nibbles, clean.pairs, clean.bytes)
