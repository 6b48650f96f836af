-- ===== src/Tls/VarInt/Octets.antt =====
-- tls_codec/src/varint.rs: the octets of RFC 9000 (16), and the writer.
use formats.Common.{
  ℕ, zero, suc, ◌+◌, ◌*◌, ◌/◌, ◌%◌, ◌^◌, ◌≤◌, ◌<◌, ◌≡◌, refl, sym, ap, ◌∙◌, arith, List, [], ◌∷◌,
  append-nil, ok, bit_and, bit_or, ltb, ◌==◌, if◌then◌else◌, length, length-replicate,
  take-replicate, drop-replicate, replicate,
}
use native.Mathlib.Decide.{dec_lt}
use native.Mathlib.Nat.{div-lt_iff_lt-mul, mod-eq_of_lt}
use formats.Common.Bits.{bit_or_shifted, bit_and_0xff, zero_or}
use formats.Common.BigEndian.{
  be_bytes, be_bytes_cons, length-be_bytes, div_suc_bytes, pow256_pos, be_bytes_zero,
}
use formats.Tls.VarInt.{
  max_varint, bytes_len, length_bits, or_bytes, write_at, write_bytes, serialize,
}

-- How many bytes follow the first one, by its two leading bits.
abbrev pub extra : ℕ → ℕ
extra zero = 0
extra (suc zero) = 1
extra (suc (suc zero)) = 3
extra (suc (suc (suc log))) = 7

-- A number of up to six bits and eight for each byte more, behind the two leading bits.
unfoldable pub octets_at : ℕ → ℕ → List ℕ
octets_at log v = (log * 64 + v / 256 ^ extra log) ∷ be_bytes (extra log) v

-- The least leading bits that leave room for the number.
unfoldable pub log_of : ℕ → ℕ
log_of v =
    if ltb v (2 ^ 6) then 0 else if ltb v (2 ^ 14) then 1 else if ltb v (2 ^ 30) then 2 else 3

unfoldable pub varint_octets : ℕ → List ℕ
varint_octets v = octets_at (log_of v) v

-- The room at each of the four lengths.
pub record Room (log v : ℕ) : Type 0 where
  pub short : log < 4
  pub fits : v < 64 * 256 ^ extra log

module _ (v : ℕ) where
  log_zero : v < 2 ^ 6 → log_of v ≡ 0
  unfolding log_of
  log_zero h = ground arith

  log_one : 2 ^ 6 ≤ v → v < 2 ^ 14 → log_of v ≡ 1
  unfolding log_of
  log_one l h = ground arith

  log_two : 2 ^ 14 ≤ v → v < 2 ^ 30 → log_of v ≡ 2
  unfolding log_of
  log_two l h = ground arith

  log_three : 2 ^ 30 ≤ v → log_of v ≡ 3
  unfolding log_of
  log_three l = ground arith

pub log_of-Room :
    (v : ℕ) → v ≤ max_varint → (bytes_len v ≡ suc (extra (log_of v))) × Room (log_of v) v
unfolding bytes_len
log_of-Room v h = elim (dec_lt v (2 ^ 6)) [
  | yes a ↦ rw (log_zero v a) (ground arith, record { short = omega arith; fits = omega arith })
  | no a ↦ elim (dec_lt v (2 ^ 14)) [
    | yes b ↦
        rw (log_one v (omega arith) b)
          (ground arith, record { short = omega arith; fits = omega arith })
    | no b ↦ elim (dec_lt v (2 ^ 30)) [
      | yes c ↦
          rw (log_two v (omega arith) c)
            (ground arith, record { short = omega arith; fits = omega arith })
      | no c ↦
          rw (log_three v (omega arith))
            (ground arith, record { short = omega arith; fits = omega arith })
    ]
  ]
]

pub bytes_len_small : (v : ℕ) → bytes_len v ≤ 8
unfolding bytes_len
bytes_len_small v = ground arith

bits_of : (log : ℕ) → log < 4 → length_bits (suc (extra log)) ≡ ok (log * 64)
unfolding length_bits
bits_of zero h = refl
bits_of (suc zero) h = refl
bits_of (suc (suc zero)) h = refl
bits_of (suc (suc (suc zero))) h = refl
bits_of (suc (suc (suc (suc log)))) h = absurd (omega arith)

or_bytes-be_bytes : (n v : ℕ) → or_bytes (replicate n 0) v ≡ (be_bytes n v, v / 256 ^ n)
unfolding or_bytes
or_bytes-be_bytes zero v = rw (be_bytes_zero v) (ap (λ q. ([], q)) (omega arith))
or_bytes-be_bytes (suc n) v =
    let top : ℕ = v / 256 ^ n in
    let first : bit_or 0 (bit_and top 0xff) ≡ top % 256 =
      zero_or (bit_and top 0xff) ∙ bit_and_0xff top in
    let bytes : bit_or 0 (bit_and top 0xff) ∷ be_bytes n v ≡ be_bytes (suc n) v =
      ap (λ b. b ∷ be_bytes n v) first ∙ sym (be_bytes_cons n v) in
    rw (or_bytes-be_bytes n v)
      (ap (λ l. (l, top / 256)) bytes ∙ ap (λ q. (be_bytes (suc n) v, q)) (sym (div_suc_bytes n v)))

-- The first byte, with the two leading bits set before.
or_first :
    (log more v : ℕ)
    → v < 64 * 256 ^ more
    → (or_bytes (log * 64 ∷ replicate more 0) v).0 ≡ (log * 64 + v / 256 ^ more) ∷ be_bytes more v
unfolding or_bytes
or_first log more v h =
    let top : ℕ = v / 256 ^ more in
    let small : top < 64 = (div-lt_iff_lt-mul (pow256_pos more)).1 h in
    let first : bit_or (log * 64) (bit_and top 0xff) ≡ log * 64 + top =
      ap (bit_or (log * 64)) (bit_and_0xff top ∙ mod-eq_of_lt (omega arith))
      ∙ bit_or_shifted 6 log top small in
    rw (or_bytes-be_bytes more v) (ap (λ b. b ∷ be_bytes more v) first)

write_long_enough :
    (v : ℕ) (buf : List ℕ)
    → length buf ≡ bytes_len v
    → write_bytes v buf ≡ write_at v (bytes_len v) buf (length_bits (bytes_len v))
unfolding write_bytes
write_long_enough v buf h = ground arith

write_zeroes :
    (log v : ℕ)
    → bytes_len v ≡ suc (extra log)
    → Room log v
    → write_bytes v (replicate (suc (extra log)) 0) ≡ (ok (suc (extra log)), octets_at log v)
unfolding octets_at
write_zeroes log v len room =
    let zeroes = replicate (suc (extra log)) 0 in
    let octets = octets_at log v in
    let bits = ap length_bits len ∙ bits_of log room.short in
    write_long_enough v zeroes (length-replicate (suc (extra log)) zero ∙ sym len)
    ∙ ap (write_at v (bytes_len v) zeroes) bits
    ∙ ap (λ n. write_at v n zeroes (ok (log * 64))) len
    ∙ rw
        (
          take-replicate (extra log) zero,
          drop-replicate (extra log) zero,
          or_first log (extra log) v room.fits,
        )
        (ap (λ l. (ok (suc (extra log)), l)) (append-nil octets))

serialize_at :
    (log v : ℕ) → bytes_len v ≡ suc (extra log) → Room log v → serialize v ≡ ok (octets_at log v)
unfolding serialize
serialize_at log v len room = rw (len, write_zeroes log v len room)

-- A number in range is written in the fewest of 1, 2, 4 and 8 bytes, as many as announced.
pub serialize-varint_octets :
    (v : ℕ)
    → v ≤ max_varint
    → (serialize v ≡ ok (varint_octets v)) × (length (varint_octets v) ≡ bytes_len v)
unfolding varint_octets octets_at
serialize-varint_octets v h =
    let (len, room) = log_of-Room v h in
    (serialize_at (log_of v) v len room, ap suc (length-be_bytes (extra (log_of v)) v) ∙ sym len)

log_back : ℕ → ℕ
log_back n = if n == 0 then 0 else if n == 1 then 1 else if n == 3 then 2 else 3

log_back-extra : (log : ℕ) → log < 4 → log_back (extra log) ≡ log
unfolding log_back
log_back-extra zero h = refl
log_back-extra (suc zero) h = refl
log_back-extra (suc (suc zero)) h = refl
log_back-extra (suc (suc (suc zero))) h = refl
log_back-extra (suc (suc (suc (suc log)))) h = absurd (omega arith)

pub least_log :
    (log v : ℕ) → Room log v → v ≤ max_varint → bytes_len v ≡ suc (extra log) → log ≡ log_of v
least_log log v room h e =
    let (len, least) = log_of-Room v h in
    let same : extra log ≡ extra (log_of v) = omega arith in
    sym (log_back-extra log room.short) ∙ ap log_back same ∙ log_back-extra (log_of v) least.short
