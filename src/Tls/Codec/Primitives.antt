-- ===== src/Tls/Codec/Primitives.antt =====
-- tls_codec/src/primitives.rs: unsigned integers.
use formats.Common.{
  ℕ, ◌+◌, ◌^◌, ◌≤◌, ◌<◌, ◌≡◌, refl, sym, ap, ◌∙◌, arith, List, ◌++◌, ok, length, length-append,
  length-drop, length-take, take, take_append, drop, drop_append, take-append-drop, All, All-take,
  IsByte,
}
use mathlib.Core.Path.{subst}
use formats.Common.BigEndian.{
  be_bytes, be_number, length-be_bytes, be_number-be_bytes, be_bytes-be_number, be_number_lt,
}
use formats.Tls.Codec.{deserialize_unsigned, unsigned}
use formats.Tls.Codec.Lawful.{Lawful, Canonical}

abbrev pub FitsIn : ℕ → ℕ → Type 0
FitsIn size n = n < 256 ^ size

pub unsigned_reads :
    (size : ℕ) (front rest : List ℕ)
    → length front ≡ size
    → deserialize_unsigned size (front ++ rest) ≡ ok (be_number 0 front, rest)
unfolding deserialize_unsigned
unsigned_reads size front rest h = rw (← h) (
    let enough : length (front ++ rest) ≡ length front + length rest = length-append front rest in
    rw (take_append front rest, drop_append front rest) (ground (arith, enough)))

pub unsigned-Lawful : (size : ℕ) → Lawful (unsigned size) (FitsIn size) (be_bytes size)
unsigned-Lawful size = record {
  written = λ n h. refl;
  announced = λ n h. sym (length-be_bytes size n);
  reads = λ n rest h.
      unsigned_reads size (be_bytes size n) rest (length-be_bytes size n)
      ∙ ap (λ m. ok (m, rest)) (be_number-be_bytes size n h);
}

unsigned_ok :
    (size : ℕ) (bytes : List ℕ) (n : ℕ) (rest : List ℕ)
    → deserialize_unsigned size bytes ≡ ok (n, rest)
    → (size ≤ length bytes) × (be_number 0 (take size bytes) ≡ n) × (drop size bytes ≡ rest)
unfolding deserialize_unsigned
unsigned_ok size bytes n rest e = (ground arith, ground arith, ground arith)

pub unsigned_shrinks :
    (size : ℕ) (bytes : List ℕ) (n : ℕ) (rest : List ℕ)
    → deserialize_unsigned size bytes ≡ ok (n, rest)
    → length rest ≤ length bytes
unsigned_shrinks size bytes n rest e =
    let (enough, value, left) = unsigned_ok size bytes n rest e in
    omega (arith, ap length left, length-drop size bytes)

pub unsigned_only :
    (size : ℕ) (bytes : List ℕ) (n : ℕ) (rest : List ℕ)
    → All IsByte bytes
    → deserialize_unsigned size bytes ≡ ok (n, rest)
    → FitsIn size n × (bytes ≡ be_bytes size n ++ rest)
unsigned_only size bytes n rest all e =
    let (enough, value, left) = unsigned_ok size bytes n rest e in
    let front = take size bytes in
    let count : length front ≡ size = omega (arith, length-take size bytes) in
    let octets = All-take IsByte size bytes all in
    (
      subst (FitsIn size) value (be_number_lt size front octets count),
      sym (take-append-drop size bytes)
          ∙ ap (λ l. front ++ l) left
          ∙ ap (λ l. l ++ rest)
              (sym (be_bytes-be_number front octets)
                ∙ ap (λ k. be_bytes k (be_number 0 front)) count
                ∙ ap (be_bytes size) value),
    )

pub unsigned-Canonical : (size : ℕ) → Canonical (unsigned size) (FitsIn size) (be_bytes size)
unsigned-Canonical size = record { only = unsigned_only size }
