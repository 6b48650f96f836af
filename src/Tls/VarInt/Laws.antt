-- ===== src/Tls/VarInt/Laws.antt =====
-- tls_codec/src/varint.rs: the reader against the octets.
use formats.Common.{
  ℕ, zero, suc, ◌+◌, ◌-◌, ◌*◌, ◌/◌, ◌%◌, ◌^◌, ◌≤◌, ◌<◌, ◌≡◌, refl, sym, ap, ◌∙◌, arith, Bool, true,
  false, List, [], ◌∷◌, ◌++◌, ok, err, All, IsByte,
}
use mathlib.Core.Path.{subst}
use native.Mathlib.Nat.{
  div-le_self, div-lt_iff_lt-mul, mul-le-mul_left, mul-le-mul_right, mul_assoc, pow-succ',
}
use formats.Common.Bits.{bit_and_0x3f}
use formats.Common.BigEndian.{be_bytes, be_bytes_zero, be_bytes_cons, div_suc_bytes, pow256_pos}
use formats.Tls.Data.{◌>>=◌, >>=-ok, ok_inj, end_of_stream}
use formats.Tls.VarInt.{
  max_varint, try_new, bytes_len, check_min_len, calculate_value, with_min_len, read_value,
  deserialize,
}
use formats.Tls.VarInt.Octets.{
  extra, octets_at, log_of, varint_octets, Room, log_of-Room, least_log,
}

calculate_value_lem :
    (log x : ℕ) → log < 4 → x < 64 → calculate_value (log * 64 + x) ≡ ok (x, suc (extra log))
unfolding calculate_value
calculate_value_lem zero x h k = ground (arith, bit_and_0x3f (0 * 64 + x))
calculate_value_lem (suc zero) x h k = ground (arith, bit_and_0x3f (1 * 64 + x))
calculate_value_lem (suc (suc zero)) x h k = ground (arith, bit_and_0x3f (2 * 64 + x))
calculate_value_lem (suc (suc (suc zero))) x h k = ground (arith, bit_and_0x3f (3 * 64 + x))
calculate_value_lem (suc (suc (suc (suc log)))) x h k = absurd (omega arith)

read_value-be_bytes :
    (k v : ℕ) (rest : List ℕ)
    → v ≤ max_varint
    → read_value k (v / 256 ^ k) (be_bytes k v ++ rest) ≡ ok (v, rest)
unfolding read_value
read_value-be_bytes zero v rest h = rw (be_bytes_zero v) (ap (λ n. ok (n, rest)) (omega arith))
read_value-be_bytes (suc k) v rest h =
    let top : ℕ = v / 256 ^ k in
    let small : top ≤ v = div-le_self v (256 ^ k) in
    let value : v / 256 ^ suc k * 2 ^ 8 % 2 ^ 64 + top % 256 ≡ top =
      omega (arith, div_suc_bytes k v) in
    rw (be_bytes_cons k v, value) (read_value-be_bytes k v rest h)

check_min_len_lem :
    (mls : Bool) (v len : ℕ) → v ≤ max_varint → bytes_len v ≡ len → check_min_len mls v len ≡ ok tt
unfolding check_min_len try_new
check_min_len_lem true v len h e = ground arith
check_min_len_lem false v len h e = refl

less_one : (n : ℕ) → suc n - 1 ≡ n
less_one n = omega arith

deserialize-nil : (mls : Bool) → deserialize mls [] ≡ err end_of_stream
unfolding deserialize
deserialize-nil mls = refl

-- The reader on a first byte and what follows it.
deserialize_first :
    (mls : Bool) (log x : ℕ) (tail : List ℕ)
    → log < 4
    → x < 64
    → deserialize mls ((log * 64 + x) ∷ tail)
      ≡ (read_value (extra log) x tail >>= with_min_len mls (suc (extra log)))
unfolding deserialize
deserialize_first mls log x tail h k =
    rw (calculate_value_lem log x h k)
      (ap (λ n. read_value n x tail >>= with_min_len mls (suc (extra log))) (less_one (extra log)))

-- With or without the feature, the octets of a number in range, behind which anything may follow,
-- are read as that number, and no byte more is taken.
pub deserialize-varint_octets :
    (mls : Bool) (v : ℕ) (rest : List ℕ)
    → v ≤ max_varint
    → deserialize mls (varint_octets v ++ rest) ≡ ok (v, rest)
unfolding varint_octets octets_at
deserialize-varint_octets mls v rest h =
    let (len, room) = log_of-Room v h in
    let more = extra (log_of v) in
    let top : v / 256 ^ more < 64 = (div-lt_iff_lt-mul (pow256_pos more)).1 room.fits in
    deserialize_first mls (log_of v) (v / 256 ^ more) (be_bytes more v ++ rest) room.short top
    ∙ ap (λ r. r >>= with_min_len mls (suc more)) (read_value-be_bytes more v rest h)
    ∙ ap (λ r. r >>= λ _. ok (v, rest)) (check_min_len_lem mls v (suc more) h len)

-- The value stays below 2 ^ 62.
room_left :
    (k acc b : ℕ)
    → b < 256
    → (acc + 1) * 256 ^ suc k ≤ 2 ^ 62
    → (acc * 2 ^ 8 % 2 ^ 64 ≡ acc * 256) × ((acc * 256 + b + 1) * 256 ^ k ≤ 2 ^ 62)
room_left k acc b octet small =
    let p = 256 ^ k in
    let step : (acc * 256 + b + 1) * p ≤ ((acc + 1) * 256) * p = mul-le-mul_right p (omega arith) in
    let one : ((acc + 1) * 256) * 1 ≤ ((acc + 1) * 256) * p =
      mul-le-mul_left ((acc + 1) * 256) (pow256_pos k) in
    let whole : (acc + 1) * 256 ^ suc k ≡ ((acc + 1) * 256) * p =
      ap (λ t. (acc + 1) * t) (pow-succ' 256 k) ∙ sym (mul_assoc (acc + 1) 256 p) in
    (omega arith, omega arith)

-- The bytes that the loop took are the last ones of the number, whose higher part it began with.
read_value_ok :
    (k acc : ℕ) (bytes : List ℕ) (v : ℕ) (rest : List ℕ)
    → All IsByte bytes
    → (acc + 1) * 256 ^ k ≤ 2 ^ 62
    → read_value k acc bytes ≡ ok (v, rest)
    → (bytes ≡ be_bytes k v ++ rest) × (v / 256 ^ k ≡ acc) × (v ≤ max_varint)
unfolding read_value
read_value_ok zero acc bytes v rest all small e =
    let value : acc ≡ v = ground arith in
    let same : bytes ≡ rest = cc in
    (same ∙ ap (λ l. l ++ rest) (sym (be_bytes_zero v)), omega arith, omega arith)
read_value_ok (suc k) acc [] v rest all small e = cc
read_value_ok (suc k) acc (b ∷ bytes) v rest (octet, all) small e =
    let (wide, less) = room_left k acc b octet small in
    let (is, high, range) =
      read_value_ok k (acc * 256 + b) bytes v rest all less
        (ap (λ n. read_value k (n + b) bytes) (sym wide) ∙ e) in
    let digit : v / 256 ^ k % 256 ≡ b = omega (arith, high) in
    (
      ap (◌∷◌ b) is
          ∙ ap (λ d. d ∷ (be_bytes k v ++ rest)) (sym digit)
          ∙ ap (λ l. l ++ rest) (sym (be_bytes_cons k v)),
      div_suc_bytes k v ∙ omega (arith, high),
      range,
    )

-- What was read: leading bits, and octets with room for the number behind them.
pub record Spelled (mls : Bool) (bytes : List ℕ) (v : ℕ) (rest : List ℕ) : Type 0 where
  pub log : ℕ
  pub room : Room log v
  pub range : v ≤ max_varint
  pub bytes_are : bytes ≡ octets_at log v ++ rest
  pub least : mls ≡ true → bytes_len v ≡ suc (extra log)

room_first : (log x : ℕ) → log < 4 → x < 64 → (x + 1) * 256 ^ extra log ≤ 2 ^ 62
room_first zero x h k = omega arith
room_first (suc zero) x h k = omega arith
room_first (suc (suc zero)) x h k = omega arith
room_first (suc (suc (suc zero))) x h k = omega arith
room_first (suc (suc (suc (suc log)))) x h k = absurd (omega arith)

check_min_len_ok :
    (mls : Bool) (v len : ℕ) → check_min_len mls v len ≡ ok tt → mls ≡ true → bytes_len v ≡ len
unfolding check_min_len try_new
check_min_len_ok true v len e h = ground arith
check_min_len_ok false v len e h = cc

Spelled-at :
    (mls : Bool) (log x : ℕ) (tail : List ℕ) (v : ℕ) (rest : List ℕ)
    → log < 4
    → x < 64
    → All IsByte tail
    → deserialize mls ((log * 64 + x) ∷ tail) ≡ ok (v, rest)
    → Spelled mls ((log * 64 + x) ∷ tail) v rest
unfolding octets_at
Spelled-at mls log x tail v rest h k all e =
    let ((n, remainder), read, checked) =
      >>=-ok (read_value (extra log) x tail) (with_min_len mls (suc (extra log)))
        (sym (deserialize_first mls log x tail h k) ∙ e) in
    let (_, least, same) =
      >>=-ok (check_min_len mls n (suc (extra log))) (λ _. ok (n, remainder)) checked in
    let value : n ≡ v = ap (λ p. p.0) (ok_inj same) in
    let left : remainder ≡ rest = ap (λ p. p.1) (ok_inj same) in
    let (is, high, range) =
      read_value_ok (extra log) x tail n remainder all (room_first log x h k) read in
    let top : n / 256 ^ extra log < 64 = omega (arith, high) in
    let spelled : Spelled mls ((log * 64 + x) ∷ tail) n remainder = record {
      log = log;
      room = record { short = h; fits = (div-lt_iff_lt-mul (pow256_pos (extra log))).0 top };
      range = range;
      bytes_are =
          ap (λ t. (log * 64 + x) ∷ t) is
          ∙ ap (λ y. (log * 64 + y) ∷ (be_bytes (extra log) n ++ remainder)) (sym high);
      least = check_min_len_ok mls n (suc (extra log)) least;
    } in
    subst (λ m. Spelled mls ((log * 64 + x) ∷ tail) m rest) value
      (subst (Spelled mls ((log * 64 + x) ∷ tail) n) left spelled)

-- Only a spelling of a number in range, at one of the four lengths, is read as that number.
pub Spelled-deserialize :
    (mls : Bool) (bytes : List ℕ) (v : ℕ) (rest : List ℕ)
    → All IsByte bytes
    → deserialize mls bytes ≡ ok (v, rest)
    → Spelled mls bytes v rest
Spelled-deserialize mls [] v rest all e = cc (sym (deserialize-nil mls) ∙ e)
Spelled-deserialize mls (b ∷ tail) v rest all e =
    let whole : b / 64 * 64 + b % 64 ≡ b = omega arith in
    subst (λ c. Spelled mls (c ∷ tail) v rest) whole
      (Spelled-at mls (b / 64) (b % 64) tail v rest (omega (arith, all.0)) (omega arith) all.1
        (ap (λ c. deserialize mls (c ∷ tail)) whole ∙ e))

-- With the feature `mls`, a number is read only from its own octets; it is in range.
pub deserialize_ok :
    (bytes : List ℕ) (v : ℕ) (rest : List ℕ)
    → All IsByte bytes
    → deserialize true bytes ≡ ok (v, rest)
    → (v ≤ max_varint) × (bytes ≡ varint_octets v ++ rest)
unfolding varint_octets
deserialize_ok bytes v rest all e =
    let s = Spelled-deserialize true bytes v rest all e in
    let log : s.log ≡ log_of v = least_log s.log v s.room s.range (s.least refl) in
    (s.range, s.bytes_are ∙ ap (λ l. octets_at l v ++ rest) log)
