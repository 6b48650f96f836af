-- ===== src/Der/Length/Codec/Canonical.antt =====
-- der/src/length.rs: which octets `Decode for Length` accepts.
use formats.Common.{
  ℕ, zero, suc, ◌+◌, ◌-◌, ◌*◌, ◌%◌, ◌^◌, ◌≤◌, ◌<◌, ◌≡◌, refl, sym, ap, ◌∙◌, arith, false, some,
  List, [], ◌∷◌, ◌++◌, ok, length, All, IsByte, bit_or, if◌then◌else◌, ◌⊎◌, inl, inr, Option-cases,
  ◌==◌,
}
use mathlib.Core.Path.{ap₂}
use native.Mathlib.Decide.{dec_lt}
use formats.Der.Data.{Length, ErrorKind, indefinite_length, overlength}
use formats.Der.Length.{IsLength, initial_octet}
use formats.Der.Length.Codec.{decode_bytes, decode_from, decode_long, decode}
use formats.Der.Length.Codec.Octets.{
  octet_count, be_octets, length_octets, length_octets_short, length_octets_long,
}
use formats.Der.Length.Codec.RoundTrip.{be_value, push_byte, accept}
use formats.Der.Reader
use formats.Der.Reader.{SliceReader, read_byte}
use formats.Der.Reader.Ready.{
  IsValid, Ready, Ready-skip, Ready-extend, Ready-IsByte, skip, skip-skip, skip-zero, Parses,
  >>=-ok,
}
use formats.Der.Reader.Slices.{read_byte_ok}

-- `k` bytes were taken from the front, and the number is what they add up to.
record Taken (k acc : ℕ) (r : SliceReader) (v : ℕ) (r' : SliceReader) : Type 0 where
  octets : List ℕ
  rest : List ℕ
  count : length octets ≡ k
  bytes : All IsByte octets
  ready : Ready r (octets ++ rest)
  moved : r' ≡ skip r k
  sum : v ≡ be_value acc octets

decode_bytes_ok :
    (k acc : ℕ) (r : SliceReader) (v : ℕ) (r' : SliceReader)
    → IsValid r
    → r.failed ≡ false
    → All IsByte r.bytes
    → decode_bytes k acc r ≡ (ok v, r')
    → Taken k acc r v r'
unfolding decode_bytes
decode_bytes_ok zero acc r v r' valid live bytes e = record {
  octets = [];
  rest = Reader.Ready.ahead r;
  count = refl;
  bytes = tt;
  ready = record { live = live; next = refl; valid = valid };
  moved = sym (ap (λ p. p.1) e) ∙ skip-zero r;
  sum = ground arith;
}
decode_bytes_ok (suc k) acc r v r' valid live bytes e =
    let next = λ (byte : ℕ). decode_bytes k (bit_or (acc * 2 ^ 8 % 2 ^ 32) byte) in
    let (b, q, read, later) = >>=-ok read_byte next r e in
    let (rest, ready, moved) = read_byte_ok r valid read in
    let small = Ready-IsByte r (b ∷ []) rest bytes ready in
    let after : decode_bytes k (acc * 2 ^ 8 % 2 ^ 32 + b) (skip r 1) ≡ (ok v, r') =
      rw (← moved, ← push_byte acc b small.0) later in
    let t =
      decode_bytes_ok k (acc * 2 ^ 8 % 2 ^ 32 + b) (skip r 1) v r'
        (Ready-skip r (b ∷ []) rest ready).valid live bytes after in
    record {
      octets = b ∷ t.octets;
      rest = t.rest;
      count = ap suc t.count;
      bytes = (small.0, t.bytes);
      ready = Ready-extend r (b ∷ []) t.octets t.rest rest ready t.ready;
      moved = t.moved ∙ skip-skip r 1 k ∙ ap (skip r) (omega arith);
      sum = t.sum;
    }

-- Where the initial octet is the number's own, the digits are the number's own.
digits_canonical :
    (bs : List ℕ) (v : ℕ)
    → length bs ≤ 4
    → All IsByte bs
    → v ≡ be_value 0 bs
    → initial_octet v ≡ some (128 + length bs)
    → (128 ≤ v) × (octet_count v ≡ length bs) × (be_octets (length bs) v ≡ bs)
unfolding initial_octet octet_count
digits_canonical [] v h bytes s e = ground arith
digits_canonical (a ∷ []) v h bytes s e = ground arith
digits_canonical (a ∷ b ∷ []) v h bytes s e = ground arith
digits_canonical (a ∷ b ∷ d ∷ []) v h bytes s e = ground arith
digits_canonical (a ∷ b ∷ d ∷ g ∷ []) v h bytes s e = ground arith
digits_canonical (a ∷ b ∷ d ∷ g ∷ x ∷ bs) v h bytes s e = absurd (omega arith)

-- The three ways of the match on the first byte.
decode_from_cases :
    (b : ℕ)
    → (b < 128) × (decode_from b ≡ Reader.return b)
      ⊎ (128 < b) × (b ≤ 132) × (decode_from b ≡ decode_long b)
      ⊎ ((kind : ErrorKind) × (decode_from b ≡ Reader.error kind))
decode_from_cases b = elim (dec_lt b 128) [
  | yes short ↦ inl (short, ground arith)
  | no big ↦ elim (dec_lt 128 b) [
    | no least ↦ inr (inr (indefinite_length, ground arith))
    | yes lo ↦ elim (dec_lt b 133) [
      | yes hi ↦ inr (inl (lo, omega arith, ground arith))
      | no most ↦ inr (inr (overlength, ground arith))
    ]
  ]
]

accept_ok :
    (n tag : ℕ) (q : SliceReader) (a : Length) (r' : SliceReader)
    → accept tag n q ≡ (ok a, r')
    → (initial_octet n ≡ some tag) × (a ≡ n) × (r' ≡ q)
accept_ok n tag q a r' e = elim (Option-cases (initial_octet n)) [
  | inl empty ↦ cc (rw empty at e)
  | inr (octet, full) ↦ accepted octet full (rw full at e)
]
  where
    accepted :
        (octet : ℕ)
        → initial_octet n ≡ some octet
        → (if octet == tag then Reader.return n else Reader.error overlength) q ≡ (ok a, r')
        → (initial_octet n ≡ some tag) × (a ≡ n) × (r' ≡ q)
    accepted octet full e = ground arith

long_octets :
    (b : ℕ) (v : Length) (bs : List ℕ)
    → 128 < b
    → b ≤ 132
    → length bs ≡ b - 0x80
    → All IsByte bs
    → v ≡ be_value 0 bs
    → initial_octet v ≡ some b
    → length_octets v ≡ b ∷ bs
long_octets b v bs lo hi count bytes sum first =
    let tag : 128 + length bs ≡ b = omega arith in
    let (long, few, digits) =
      digits_canonical bs v (omega arith) bytes sum (first ∙ ap some (sym tag)) in
    length_octets_long v long
    ∙ ap₂ (λ c xs. c ∷ xs) (ap (λ k. 128 + k) few ∙ tag) (ap (λ k. be_octets k v) few ∙ digits)

module _ (r : SliceReader) (b : ℕ) (rest : List ℕ) (ready : Ready r (b ∷ rest)) where
  short_Parses :
      (a : Length) (r' : SliceReader)
      → b < 128
      → Reader.return b (skip r 1) ≡ (ok a, r')
      → (tail : List ℕ) × Ready r (length_octets a ++ tail)
        × (r' ≡ skip r (length (length_octets a)))
  short_Parses a r' short e =
      let same : b ≡ a = ground arith in
      let octets : length_octets a ≡ b ∷ [] = rw (← same) (length_octets_short b short) in
      (rest, rw octets ready, rw octets (sym (ap (λ p. p.1) e)))

  long_Parses :
      (a : Length) (r' : SliceReader)
      → All IsByte r.bytes
      → 128 < b
      → b ≤ 132
      → decode_long b (skip r 1) ≡ (ok a, r')
      → (tail : List ℕ) × Ready r (length_octets a ++ tail)
        × (r' ≡ skip r (length (length_octets a)))
  long_Parses a r' bytes lo hi e =
      let (v, q, digits, closed) = >>=-ok (decode_bytes (b - 0x80) 0) (accept b) (skip r 1) e in
      let moved = Ready-skip r (b ∷ []) rest ready in
      let t = decode_bytes_ok (b - 0x80) 0 (skip r 1) v q moved.valid ready.live bytes digits in
      let (first, same, stay) = accept_ok v b q a r' closed in
      let octets : length_octets a ≡ b ∷ t.octets =
        ap length_octets same ∙ long_octets b v t.octets lo hi t.count t.bytes t.sum first in
      (
        t.rest,
        rw octets (Ready-extend r (b ∷ []) t.octets t.rest rest ready t.ready),
        rw octets (
            stay
            ∙ t.moved
            ∙ skip-skip r 1 (b - 0x80)
            ∙ ap (λ k. skip r k) {x = 1 + (b - 0x80)} {y = suc (length t.octets)}
                (omega (arith, t.count))),
      )

-- Where a valid reader over bytes decodes a length, it stood in front of that length's own octets
-- (the shortest form) and stands behind them.
pub length_decode_ok :
    (r : SliceReader) (a : Length) (r' : SliceReader)
    → IsValid r
    → All IsByte r.bytes
    → decode r ≡ (ok a, r')
    → (rest : List ℕ) × Ready r (length_octets a ++ rest) × (r' ≡ skip r (length (length_octets a)))
unfolding decode
length_decode_ok r a r' valid bytes e =
    let (b, q, read, later) = >>=-ok read_byte decode_from r e in
    let (rest, ready, moved) = read_byte_ok r valid read in
    let after : decode_from b (skip r 1) ≡ (ok a, r') = rw (← moved) later in
    elim (decode_from_cases b) [
      | inl (short, is) ↦
          short_Parses r b rest ready a r' short (sym (ap (λ m. m (skip r 1)) is) ∙ after)
      | inr (inl (lo, hi, is)) ↦
          long_Parses r b rest ready a r' bytes lo hi (sym (ap (λ m. m (skip r 1)) is) ∙ after)
      | inr (inr (kind, is)) ↦ cc (sym (ap (λ m. m (skip r 1)) is) ∙ after)
    ]

be_value-IsLength :
    (acc : ℕ) (bs : List ℕ) → IsLength acc → All IsByte bs → IsLength (be_value acc bs)
be_value-IsLength acc [] h bytes = h
be_value-IsLength acc (b ∷ bs) h bytes =
    be_value-IsLength (acc * 2 ^ 8 % 2 ^ 32 + b) bs (omega arith) bytes.1

-- A decoded length is a u32.
pub decode-IsLength :
    (r : SliceReader) (a : Length) (r' : SliceReader)
    → IsValid r
    → All IsByte r.bytes
    → decode r ≡ (ok a, r')
    → IsLength a
unfolding decode
decode-IsLength r a r' valid bytes e =
    let (b, q, read, later) = >>=-ok read_byte decode_from r e in
    let (rest, ready, moved) = read_byte_ok r valid read in
    let after : decode_from b (skip r 1) ≡ (ok a, r') = rw (← moved) later in
    elim (decode_from_cases b) [
      | inl (short, is) ↦
          let done = sym (ap (λ m. m (skip r 1)) is) ∙ after in
          let same : b ≡ a = ground arith in omega arith
      | inr (inl (lo, hi, is)) ↦
          let (v, s, digits, closed) =
            >>=-ok (decode_bytes (b - 0x80) 0) (accept b) (skip r 1)
              (sym (ap (λ m. m (skip r 1)) is) ∙ after) in
          let next = Ready-skip r (b ∷ []) rest ready in
          let t = decode_bytes_ok (b - 0x80) 0 (skip r 1) v s next.valid ready.live bytes digits in
          omega (
            arith,
            (accept_ok v b s a r' closed).1,
            t.sum,
            be_value-IsLength 0 t.octets (omega arith) t.bytes,
          )
      | inr (inr (kind, is)) ↦ cc (sym (ap (λ m. m (skip r 1)) is) ∙ after)
    ]
