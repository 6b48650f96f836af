-- ===== src/Common/BigEndian.antt =====
-- Numbers as big-endian bytes, `to_be_bytes` and `from_be_bytes`.
use Prim.Native.Nat.{ℕ, zero, suc, ◌+◌, ◌*◌, ◌/◌, ◌%◌, ◌^◌, ◌≤◌, ◌<◌}
use mathlib.Core.Path.{◌≡◌, refl, sym, ap, ◌∙◌}
use mathlib.Core.List.{List, [], ◌∷◌, ◌++◌, append_assoc, append-nil}
use native.Mathlib.Nat.{pow-suc, pow-succ', div-div-eq-div-mul}
use native.Mathlib.Omega.{arith}
use formats.Common.Lists.{length, length-append, All, All-append, IsByte}

-- The last `k` bytes of a number.
unfoldable pub be_bytes : ℕ → ℕ → List ℕ
be_bytes zero n = []
be_bytes (suc k) n = be_bytes k (n / 256) ++ (n % 256 ∷ [])

-- The number of the bytes that follow `acc`.
unfoldable pub be_number : ℕ → List ℕ → ℕ
be_number acc [] = acc
be_number acc (b ∷ bs) = be_number (acc * 256 + b) bs

be_number_snoc :
    (acc : ℕ) (bs : List ℕ) (b : ℕ) → be_number acc (bs ++ (b ∷ [])) ≡ be_number acc bs * 256 + b
unfolding be_bytes be_number
be_number_snoc acc [] b = refl
be_number_snoc acc (c ∷ bs) b = be_number_snoc (acc * 256 + c) bs b

pub length-be_bytes : (k n : ℕ) → length (be_bytes k n) ≡ k
unfolding be_bytes be_number
length-be_bytes zero n = refl
length-be_bytes (suc k) n =
    omega (arith, length-append (be_bytes k (n / 256)) (n % 256 ∷ []), length-be_bytes k (n / 256))

pub be_bytes-IsByte : (k n : ℕ) → All IsByte (be_bytes k n)
unfolding be_bytes be_number
be_bytes-IsByte zero n = tt
be_bytes-IsByte (suc k) n =
    All-append IsByte (be_bytes k (n / 256)) (n % 256 ∷ []) (be_bytes-IsByte k (n / 256))
      (omega arith, tt)

pub be_number-be_bytes : (k n : ℕ) → n < 256 ^ k → be_number 0 (be_bytes k n) ≡ n
unfolding be_bytes be_number
be_number-be_bytes zero n h = omega arith
be_number-be_bytes (suc k) n h =
    let split : 256 ^ suc k ≡ 256 ^ k * 256 = pow-suc 256 k in
    omega (
      arith,
      be_number_snoc 0 (be_bytes k (n / 256)) (n % 256),
      be_number-be_bytes k (n / 256) (omega arith),
    )

be_bytes_behind :
    (k m acc : ℕ) (bs : List ℕ)
    → All IsByte bs
    → k ≡ length bs + m
    → be_bytes k (be_number acc bs) ≡ be_bytes m acc ++ bs
unfolding be_bytes be_number
be_bytes_behind k m acc [] all e =
    let same : k ≡ m = omega arith in
    ap (λ j. be_bytes j acc) same ∙ sym (append-nil (be_bytes m acc))
be_bytes_behind k m acc (b ∷ bs) (small, all) e =
    let high : (acc * 256 + b) / 256 ≡ acc = omega arith in
    let low : (acc * 256 + b) % 256 ≡ b = omega arith in
    be_bytes_behind k (suc m) (acc * 256 + b) bs all (omega arith)
    ∙ rw (high, low) (append_assoc (be_bytes m acc) (b ∷ []) bs)

pub be_bytes-be_number : (bs : List ℕ) → All IsByte bs → be_bytes (length bs) (be_number 0 bs) ≡ bs
unfolding be_bytes
be_bytes-be_number bs all = be_bytes_behind (length bs) 0 0 bs all (omega arith)

be_number_below :
    (k j acc : ℕ) (bs : List ℕ)
    → All IsByte bs
    → acc < 256 ^ j
    → k ≡ length bs + j
    → be_number acc bs < 256 ^ k
unfolding be_bytes be_number
be_number_below k j acc [] all h e = let same : j ≡ k = omega arith in rw same at h
be_number_below k j acc (b ∷ bs) (small, all) h e =
    let double : 256 ^ suc j ≡ 256 ^ j * 256 = pow-suc 256 j in
    be_number_below k (suc j) (acc * 256 + b) bs all (omega arith) (omega arith)

pub be_number_lt : (k : ℕ) (bs : List ℕ) → All IsByte bs → length bs ≡ k → be_number 0 bs < 256 ^ k
be_number_lt k bs all e = be_number_below k 0 0 bs all (omega arith) (omega arith)

pub div_suc_bytes : (k n : ℕ) → n / 256 ^ suc k ≡ n / 256 ^ k / 256
div_suc_bytes k n = ap (λ t. n / t) (pow-suc 256 k) ∙ sym (div-div-eq-div-mul n (256 ^ k) 256)

div_bytes_suc : (k n : ℕ) → n / 256 / 256 ^ k ≡ n / 256 ^ suc k
div_bytes_suc k n = div-div-eq-div-mul n 256 (256 ^ k) ∙ ap (λ t. n / t) (sym (pow-succ' 256 k))

pub be_bytes_zero : (n : ℕ) → be_bytes 0 n ≡ []
unfolding be_bytes
be_bytes_zero n = refl

-- The first of the last bytes of a number.
pub be_bytes_cons : (k n : ℕ) → be_bytes (suc k) n ≡ n / 256 ^ k % 256 ∷ be_bytes k n
unfolding be_bytes
be_bytes_cons zero n = ap (λ b. b ∷ []) (omega arith)
be_bytes_cons (suc k) n =
    ap (λ l. l ++ (n % 256 ∷ [])) (be_bytes_cons k (n / 256))
    ∙ ap (λ b. b % 256 ∷ be_bytes (suc k) n) (div_bytes_suc k n)

pub pow256_pos : (k : ℕ) → 1 ≤ 256 ^ k
pow256_pos zero = omega arith
pow256_pos (suc k) = omega (arith, pow-suc 256 k, pow256_pos k)
