-- ===== src/Der/Length/Codec/Octets.antt =====
-- The length octets of X.690 in the definite form with the fewest octets (8.1.3 and 10.1).
use formats.Common.{
  ℕ, zero, suc, ◌+◌, ◌/◌, ◌%◌, ◌^◌, ◌≤◌, ◌<◌, ◌≡◌, refl, ap, arith, some, none, List, [], ◌∷◌, ok,
  ltb, if◌then◌else◌, length,
}
use native.Mathlib.Decide.{dec_lt}
use formats.Der.Data.{Length}
use formats.Der.Length.{IsLength, encoded_len, initial_octet}
use formats.Der.Length.Codec.{stripped, encode}
use formats.Der.Writer.{write, write_byte}
use formats.Der.Writer.{SliceWriter}
use formats.Der.Writer.Room.{HasRoom, put, Writes-then, write-Writes, write_byte-Writes}

-- How many octets the number takes.
unfoldable pub octet_count : ℕ → ℕ
octet_count n = if ltb n 256 then 1 else if ltb n 65536 then 2 else if ltb n 16777216 then 3 else 4

-- The last `k` base-256 digits, highest first.
abbrev pub be_octets : ℕ → ℕ → List ℕ
be_octets zero n = []
be_octets (suc k) n = (n / 256 ^ k % 256) ∷ be_octets k n

unfoldable pub length_octets : Length → List ℕ
unfolding octet_count
length_octets n = if ltb n 128 then n ∷ [] else (128 + octet_count n) ∷ be_octets (octet_count n) n

pub length-be_octets : (k n : ℕ) → length (be_octets k n) ≡ k
length-be_octets zero n = refl
length-be_octets (suc k) n = ap suc (length-be_octets k n)

stripped-be_octets : (n : Length) → IsLength n → 128 ≤ n → stripped n ≡ be_octets (octet_count n) n
unfolding octet_count
stripped-be_octets n h lo = ground arith

initial_octet_short : (n : Length) → n < 128 → initial_octet n ≡ none
unfolding initial_octet
initial_octet_short n h = ground arith

pub initial_octet_long :
    (n : Length) → IsLength n → 128 ≤ n → initial_octet n ≡ some (128 + octet_count n)
unfolding initial_octet octet_count
initial_octet_long n h lo = ground arith

pub length_octets_short : (n : Length) → n < 128 → length_octets n ≡ n ∷ []
unfolding length_octets
length_octets_short n h = ground arith

pub length_octets_long :
    (n : Length) → 128 ≤ n → length_octets n ≡ (128 + octet_count n) ∷ be_octets (octet_count n) n
unfolding length_octets
length_octets_long n h = ground arith

-- A writer with room for them gets the length octets of a u32 behind what it has written, and
-- nothing else.
pub length_encode-Writes :
    (n : Length)
    → IsLength n
    → (w : SliceWriter) → HasRoom w (length (length_octets n))
    → encode n w ≡ (ok tt, put w (length_octets n))
unfolding encode
length_encode-Writes n h = elim (dec_lt n 128) [
  | yes short ↦
      rw (length_octets_short n short, initial_octet_short n short)
        (let low : n % 256 ≡ n = omega arith in rw low (write_byte-Writes n))
  | no long ↦
      let hi : 128 ≤ n = omega arith in
      rw (length_octets_long n hi, initial_octet_long n h hi, stripped-be_octets n h hi)
        (Writes-then (write_byte (128 + octet_count n)) (write (be_octets (octet_count n) n))
          ((128 + octet_count n) ∷ []) (be_octets (octet_count n) n)
          (write_byte-Writes (128 + octet_count n)) (write-Writes (be_octets (octet_count n) n)))
]

pub encoded_len-length_octets :
    (n : Length) → IsLength n → encoded_len n ≡ ok (length (length_octets n))
unfolding encoded_len length_octets
encoded_len-length_octets n h = ground arith

-- One to five octets.
pub length-length_octets :
    (n : Length) → (1 ≤ length (length_octets n)) × (length (length_octets n) ≤ 5)
unfolding length_octets
length-length_octets n = ground (arith, length-be_octets (octet_count n) n)
