-- ===== src/Oid/Arcs/Loop.antt =====
-- const-oid/src/arcs.rs: the loop of `try_next` over the bytes of one arc.
use formats.Common.{
  ℕ, zero, suc, ◌+◌, ◌*◌, ◌/◌, ◌%◌, ◌^◌, ◌≤◌, ◌<◌, ◌≡◌, ◌≢◌, refl, sym, ap, ◌∙◌, arith, Option,
  none, some, List, [], ◌∷◌, ◌++◌, ok, err, ◌⊎◌, inl, inr, All, IsByte,
}
use formats.Common.Bits.{bit_and_0x7f}
use formats.Common.Base128.{groups, top_bit, div_suc_groups, next_group}
use native.Mathlib.Decide.{dec_lt}
use native.Mathlib.Nat.{div-le_self}
use formats.Oid.Data.{Arc, OidResult, arc_too_big, overflow}
use formats.Oid.Arcs.{push_bits, arc_byte, arc_loop}

push_bits_fits : (r b : ℕ) → r * 128 + b % 128 < 2 ^ 32 → push_bits r b ≡ some (r * 128 + b % 128)
push_bits_fits r b h = ground (arith, bit_and_0x7f b)

push_bits_over : (r b : ℕ) → 2 ^ 32 ≤ r * 128 + b % 128 → push_bits r b ≡ none
push_bits_over r b h = ground (arith, bit_and_0x7f b)

module _ (more : Arc → OidResult (Option (Arc × ℕ))) (k b : ℕ) (small : b < 256) where
  last_arc_byte : (n : ℕ) → b < 128 → arc_byte more (some n) b k ≡ ok (some (n, k))
  last_arc_byte n h = ground (arith, top_bit b)

  inner_arc_byte : (n : ℕ) → 128 ≤ b → arc_byte more (some n) b k ≡ more n
  inner_arc_byte n h = ground (arith, top_bit b)

-- Groups of an arc, from the first one on, are read as that arc.
pub arc_loop-groups :
    (j n k : ℕ) (rest : List ℕ)
    → n < 2 ^ 32
    → arc_loop (groups (suc j) n ++ rest) (n / 128 ^ suc j) k ≡ ok (some (n, k + suc j))
unfolding arc_loop
arc_loop-groups zero n k rest h =
    let whole : n / 128 ^ 1 * 128 + n % 128 % 128 ≡ n = omega arith in
    rw (push_bits_fits (n / 128 ^ 1) (n % 128) (omega arith), whole)
      (last_arc_byte (λ m. arc_loop rest m (k + 1)) (k + 1) (n % 128) (omega arith) n (omega arith))
arc_loop-groups (suc j) n k rest h =
    let byte : ℕ = n / 128 ^ suc j % 128 + 128 in
    let q : ℕ = n / 128 ^ suc (suc j) in
    let value : q * 128 + byte % 128 ≡ n / 128 ^ suc j = omega (arith, next_group (suc j) n) in
    let below : n / 128 ^ suc j ≤ n = div-le_self n (128 ^ suc j) in
    let tail = groups (suc j) n ++ rest in
    rw (push_bits_fits q byte (omega arith), value)
      (inner_arc_byte (λ m. arc_loop tail m (k + 1)) (k + 1) byte (omega arith) (n / 128 ^ suc j)
          (omega arith)
        ∙ arc_loop-groups j n (k + 1) rest h
        ∙ ap (λ t. ok (some (n, t))) (omega arith))

-- The bytes are groups of the arc `n`, whose higher part is `q`, in front of others.
pub record ArcAt (q : ℕ) (bs : List ℕ) (n m : ℕ) : Type 0 where
  pub high : ℕ
  pub rest : List ℕ
  pub bytes : bs ≡ groups (suc high) n ++ rest
  pub above : n / 128 ^ suc high ≡ q
  pub count : m ≡ suc high
  pub fits : n < 2 ^ 32

last_ArcAt :
    (q b : ℕ) (bs : List ℕ)
    → b < 128
    → q * 128 + b % 128 < 2 ^ 32
    → ArcAt q (b ∷ bs) (q * 128 + b % 128) 1
last_ArcAt q b bs h fits =
    let digit : (q * 128 + b % 128) % 128 ≡ b = omega arith in
    record {
      high = 0;
      rest = bs;
      bytes = ap (λ t. t ∷ bs) (sym digit);
      above = omega arith;
      count = omega arith;
      fits = fits;
    }

inner_ArcAt :
    (q b : ℕ) (bs : List ℕ) (n m : ℕ)
    → 128 ≤ b
    → b < 256
    → ArcAt (q * 128 + b % 128) bs n m
    → ArcAt q (b ∷ bs) n (suc m)
inner_ArcAt q b bs n m lo hi t =
    let digit : n / 128 ^ suc t.high % 128 + 128 ≡ b = omega (arith, t.above) in
    record {
      high = suc t.high;
      rest = t.rest;
      bytes = ap (◌∷◌ b) t.bytes ∙ ap (λ d. d ∷ (groups (suc t.high) n ++ t.rest)) (sym digit);
      above = div_suc_groups (suc t.high) n ∙ omega (arith, t.above);
      count = omega (arith, t.count);
      fits = t.fits;
    }

-- A round ends with the arc, goes on, or finds that the arc is too big.
round_cases :
    (more : Arc → OidResult (Option (Arc × ℕ))) (q b k : ℕ)
    → b < 256
    → (b < 128)
        × (q * 128 + b % 128 < 2 ^ 32)
        × (arc_byte more (push_bits q b) b k ≡ ok (some (q * 128 + b % 128, k)))
      ⊎ (128 ≤ b) × (arc_byte more (push_bits q b) b k ≡ more (q * 128 + b % 128))
      ⊎ (arc_byte more (push_bits q b) b k ≡ err arc_too_big)
round_cases more q b k small = elim (dec_lt (q * 128 + b % 128) (2 ^ 32)) [
  | no big ↦ inr (inr (rw (push_bits_over q b (omega arith))))
  | yes fits ↦ elim (dec_lt b 128) [
    | yes last ↦ inl (
      last,
      fits,
      rw (push_bits_fits q b fits) (last_arc_byte more k b small (q * 128 + b % 128) last),
    )
    | no on ↦ inr (
        inl (
          omega arith,
          rw (push_bits_fits q b fits)
              (inner_arc_byte more k b small (q * 128 + b % 128) (omega arith)),
        ))
  ]
]

pub same_arc :
    (r : OidResult (Option (Arc × ℕ))) {n n' k k' : ℕ}
    → r ≡ ok (some (n, k))
    → r ≡ ok (some (n', k'))
    → (n ≡ n') × (k ≡ k')
same_arc r h e = ground arith

-- An arc is read from groups of its own only, at any number of leading zero groups.
pub arc_loop_ok :
    (bs : List ℕ) (q k n m : ℕ)
    → All IsByte bs
    → arc_loop bs q k ≡ ok (some (n, m))
    → (d : ℕ) × (m ≡ k + d) × ArcAt q bs n d
unfolding arc_loop
arc_loop_ok [] q k n m all e = absurd (ground arith)
arc_loop_ok (b ∷ bs) q k n m all e =
    elim (round_cases (λ v. arc_loop bs v (k + 1)) q b (k + 1) all.0) [
      | inl (last, fits, is) ↦
          let (value, count) = same_arc (arc_loop (b ∷ bs) q k) is e in
          (1, sym count, rw (← value) (last_ArcAt q b bs last fits))
      | inr (inl (lo, is)) ↦
          let (d, count, at) = arc_loop_ok bs (q * 128 + b % 128) (k + 1) n m all.1 (sym is ∙ e) in
          (suc d, omega arith, inner_ArcAt q b bs n d lo all.0 at)
      | inr (inr is) ↦ cc (sym is ∙ e)
    ]

-- There is no arc only where there is no byte.
pub arc_loop-none : (bs : List ℕ) (q k : ℕ) → All IsByte bs → arc_loop bs q k ≡ ok none → bs ≡ []
unfolding arc_loop
arc_loop-none [] q k all e = refl
arc_loop-none (b ∷ bs) q k all e =
    elim (round_cases (λ v. arc_loop bs v (k + 1)) q b (k + 1) all.0) [
      | inl (last, fits, is) ↦ cc (sym is ∙ e)
      | inr (inl (lo, is)) ↦
          let nothing = arc_loop-none bs (q * 128 + b % 128) (k + 1) all.1 (sym is ∙ e) in
          let stuck : arc_loop [] (q * 128 + b % 128) (k + 1) ≡ ok none =
            rw nothing at (sym is ∙ e) in
          absurd (ground arith)
      | inr (inr is) ↦ cc (sym is ∙ e)
    ]

pub arc_loop-ne-overflow : (bs : List ℕ) (q k : ℕ) → All IsByte bs → arc_loop bs q k ≢ err overflow
unfolding arc_loop
arc_loop-ne-overflow [] q k all e = ground arith
arc_loop-ne-overflow (b ∷ bs) q k all e =
    elim (round_cases (λ v. arc_loop bs v (k + 1)) q b (k + 1) all.0) [
      | inl (last, fits, is) ↦ cc (sym is ∙ e)
      | inr (inl (lo, is)) ↦ arc_loop-ne-overflow bs (q * 128 + b % 128) (k + 1) all.1 (sym is ∙ e)
      | inr (inr is) ↦ cc (sym is ∙ e)
    ]
