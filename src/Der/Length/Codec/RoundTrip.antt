-- ===== src/Der/Length/Codec/RoundTrip.antt =====
-- der/src/length.rs: decoding what was encoded.
use formats.Common.{
  ℕ, zero, suc, ◌+◌, ◌-◌, ◌*◌, ◌%◌, ◌^◌, ◌≤◌, ◌<◌, ◌≡◌, arith, List, [], ◌∷◌, ◌++◌, ok, length, All,
  IsByte, bit_or, if◌then◌else◌, ==_refl,
}
use formats.Common.Bits.{bit_or_shifted}
use mathlib.Core.Path.{subst}
use native.Mathlib.Decide.{dec_lt}
use formats.Der.Data.{Length, overlength}
use formats.Der.Length.{IsLength, initial_octet}
use formats.Der.Length.Codec.{decode_bytes, decode_from, decode_long, is_initial, decode}
use formats.Der.Length.Codec.Octets.{
  octet_count, be_octets, length_octets, length-be_octets, initial_octet_long, length_octets_short,
  length_octets_long,
}
use formats.Der.Reader
use formats.Der.Reader.{SliceReader, read_byte}
use formats.Der.Reader.Ready.{Ready, skip, Reads, Reads-bind, Reads-end, Reads-eq, return-Reads}
use formats.Der.Reader.Slices.{read_byte-Reads}

-- The u32 that the bytes add up to, highest first, from `acc` on.
abbrev pub be_value : ℕ → List ℕ → ℕ
be_value acc [] = acc
be_value acc (b ∷ bs) = be_value (acc * 2 ^ 8 % 2 ^ 32 + b) bs

pub push_byte : (acc b : ℕ) → b < 256 → bit_or (acc * 2 ^ 8 % 2 ^ 32) b ≡ acc * 2 ^ 8 % 2 ^ 32 + b
push_byte acc b h =
    let even : acc * 2 ^ 8 % 2 ^ 32 ≡ acc % 2 ^ 24 * 2 ^ 8 = omega arith in
    rw even (bit_or_shifted 8 (acc % 2 ^ 24) b h)

decode_bytes-Reads :
    (bs : List ℕ) (acc : ℕ)
    → All IsByte bs
    → Reads (decode_bytes (length bs) acc) bs (be_value acc bs)
unfolding decode_bytes
decode_bytes-Reads [] acc h = return-Reads acc
decode_bytes-Reads (b ∷ bs) acc h =
    Reads-bind read_byte (λ byte. decode_bytes (length bs) (bit_or (acc * 2 ^ 8 % 2 ^ 32) byte))
      (b ∷ []) bs b (be_value acc (b ∷ bs)) (read_byte-Reads b)
      (rw (push_byte acc b h.0) (decode_bytes-Reads bs (acc * 2 ^ 8 % 2 ^ 32 + b) h.1))

be_octets-IsByte : (k n : ℕ) → All IsByte (be_octets k n)
be_octets-IsByte zero n = tt
be_octets-IsByte (suc k) n = (omega arith, be_octets-IsByte k n)

be_value-be_octets :
    (n : Length) → IsLength n → 128 ≤ n → be_value 0 (be_octets (octet_count n) n) ≡ n
unfolding octet_count
be_value-be_octets n h lo = ground arith

octet_count_range : (n : ℕ) → (1 ≤ octet_count n) × (octet_count n ≤ 4)
unfolding octet_count
octet_count_range n = ground arith

-- The closing test of the long form, where the octets are as few as can be.
abbrev pub accept : ℕ → Length → Reader.Decoder Length
accept tag n = if is_initial (initial_octet n) tag then Reader.return n else Reader.error overlength

decode_long-Reads :
    (n : Length)
    → IsLength n
    → 128 ≤ n
    → Reads (decode_long (128 + octet_count n)) (be_octets (octet_count n) n) n
decode_long-Reads n h lo =
    let bs = be_octets (octet_count n) n in
    let tag = 128 + octet_count n in
    let rounds : tag - 0x80 ≡ length bs = omega (arith, length-be_octets (octet_count n) n) in
    let accepted : accept tag n ≡ Reader.return n = rw (initial_octet_long n h lo, ==_refl tag) in
    Reads-end (decode_bytes (tag - 0x80) 0) (accept tag) bs n n
      (rw rounds (
        subst (λ v. Reads (decode_bytes (length bs) 0) bs v) (be_value-be_octets n h lo)
          (decode_bytes-Reads bs 0 (be_octets-IsByte (octet_count n) n))))
      (Reads-eq [] n accepted (return-Reads n))

decode_from_short : (n : ℕ) → n < 128 → decode_from n ≡ Reader.return n
decode_from_short n h = ground arith

decode_from_long : (k : ℕ) → 1 ≤ k → k ≤ 4 → decode_from (128 + k) ≡ decode_long (128 + k)
decode_from_long k lo hi = ground arith

-- A reader in front of the length octets of a u32, and any further bytes, decodes that length and
-- stands behind the octets.
pub length_decode-Reads :
    (n : Length)
    → IsLength n
    → (r : SliceReader) (rest : List ℕ) → Ready r (length_octets n ++ rest)
    → decode r ≡ (ok n, skip r (length (length_octets n)))
unfolding decode
length_decode-Reads n h = elim (dec_lt n 128) [
  | yes short ↦ rw (length_octets_short n short) (
      Reads-bind read_byte decode_from (n ∷ []) [] n n (read_byte-Reads n)
        (Reads-eq [] n (decode_from_short n short) (return-Reads n)))
  | no long ↦
      let lo : 128 ≤ n = omega arith in
      let (few, many) = octet_count_range n in
      let k = octet_count n in
      rw (length_octets_long n lo) (
        Reads-bind read_byte decode_from ((128 + k) ∷ []) (be_octets k n) (128 + k) n
          (read_byte-Reads (128 + k))
          (Reads-eq (be_octets k n) n (decode_from_long k few many) (decode_long-Reads n h lo)))
]
