-- ===== src/Oid/Arcs/Checked.antt =====
-- const-oid/src/arcs.rs and checked.rs: the iterator with the `checked_add!` of its positions, which
-- are usize, and a run of it in which `none` says that the calls were too few.
use formats.Common.{
  ℕ, zero, suc, ◌+◌, ◌^◌, ◌≤◌, ◌<◌, ◌≡◌, ◌≢◌, refl, sym, ap, ◌∙◌, arith, Option, none, some, List,
  [], ◌∷◌, ok, err, bit_and, ltb, ◌==◌, if◌then◌else◌, inl, inr, Bool-cases, length, length-drop,
  length-append, drop, All, IsByte,
}
use mathlib.Core.Path.{subst}
use formats.Common.Base128.{groups, length-groups}
use formats.Oid.Data.{Arc, OidResult, ◌>>=◌, >>=-ok, ok_inj, arc_too_big, base128, overflow}
use formats.Oid.Arcs.{
  Arcs, RootArcs, root_try_from, first_arc, second_arc, arcs_new, push_bits, arc_byte, arc_loop,
  move_cursor, next_at, try_next, collect_item, collect, arcs_of,
}
use formats.Oid.Arcs.Spelling.{at, next_arc, next_end, drop_next}
use formats.Oid.Arcs.Accepted.{next_cases, arcs_of-ne-overflow}

-- `checked_add!` on two usize.
abbrev pub usize_add : ℕ → ℕ → OidResult ℕ
usize_add a b = if ltb (a + b) (2 ^ 64) then ok (a + b) else err overflow

-- A round of the loop of `try_next`, behind the sum of `arc_bytes`: the arc and the new cursor.
abbrev pub checked_byte :
    (Arc → OidResult (Option (Arc × ℕ))) → ℕ → Option Arc → ℕ → ℕ → OidResult (Option (Arc × ℕ))
checked_byte more offset none byte arc_bytes = err arc_too_big
checked_byte more offset (some result) byte arc_bytes =
    if bit_and byte 0b1000_0000 == 0
    then (usize_add offset arc_bytes >>= λ cursor. ok (some (result, cursor)))
    else more result

-- The loop, over the bytes from `offset + arc_bytes` on.
pub checked_loop : ℕ → List ℕ → Arc → ℕ → OidResult (Option (Arc × ℕ))
checked_loop offset [] result arc_bytes =
    usize_add offset arc_bytes >>= λ len. if arc_bytes == 0 then ok none else err base128
checked_loop offset (byte ∷ rest) result arc_bytes = usize_add offset arc_bytes >>= λ len.
    usize_add arc_bytes 1 >>= λ count.
    checked_byte (λ n. checked_loop offset rest n count) offset (push_bits result byte) byte count

abbrev pub cursor_at : Arcs → Option (Arc × ℕ) → Option Arc × Arcs
cursor_at a none = (none, a)
cursor_at a (some (n, cursor)) = (some n, record a { cursor = some cursor })

-- The first two arcs are taken without a sum.
abbrev pub checked_at : Arcs → Option ℕ → OidResult (Option Arc × Arcs)
checked_at a none = next_at a none
checked_at a (some zero) = next_at a (some zero)
checked_at a (some (suc offset)) =
    checked_loop (suc offset) (drop (suc offset) a.bytes) 0 0 >>= λ found. ok (cursor_at a found)

unfoldable pub checked_next : Arcs → OidResult (Option Arc × Arcs)
unfolding checked_loop arc_loop root_try_from first_arc second_arc
checked_next a = checked_at a a.cursor

abbrev pub with_arc : Arc → Option (OidResult (List Arc)) → Option (OidResult (List Arc))
with_arc n none = none
with_arc n (some r) = some (r >>= λ arcs. ok (n ∷ arcs))

abbrev pub checked_item :
    (Arcs → Option (OidResult (List Arc)))
    → OidResult (Option Arc × Arcs)
    → Option (OidResult (List Arc))
checked_item more (err e) = some (err e)
checked_item more (ok (none, a)) = some (ok [])
checked_item more (ok (some n, a)) = with_arc n (more a)

pub checked_collect : ℕ → Arcs → Option (OidResult (List Arc))
checked_collect zero a = none
checked_collect (suc calls) a = checked_item (checked_collect calls) (checked_next a)

unfoldable pub checked_arcs_of : List ℕ → Option (OidResult (List Arc))
unfolding checked_collect
checked_arcs_of bytes = checked_collect (length bytes + 2) (arcs_new bytes)

usize_add_ok : (a b : ℕ) → a + b < 2 ^ 64 → usize_add a b ≡ ok (a + b)
usize_add_ok a b h = ground arith

abbrev shifted : ℕ → Option (Arc × ℕ) → OidResult (Option (Arc × ℕ))
shifted offset none = ok none
shifted offset (some (n, m)) = ok (some (n, offset + m))

checked_byte-arc_byte :
    (more plain : Arc → OidResult (Option (Arc × ℕ))) (offset : ℕ) (result : Option Arc)
    (byte count : ℕ)
    → offset + count < 2 ^ 64
    → ((n : Arc) → more n ≡ (plain n >>= shifted offset))
    → checked_byte more offset result byte count
      ≡ (arc_byte plain result byte count >>= shifted offset)
checked_byte-arc_byte more plain offset none byte count h same = refl
checked_byte-arc_byte more plain offset (some n) byte count h same =
    elim (Bool-cases (bit_and byte 0b1000_0000 == 0)) [
      | inl last ↦ rw (last, usize_add_ok offset count h) refl
      | inr inner ↦ rw (inner, same n) refl
    ]

checked_loop-arc_loop :
    (offset : ℕ) (bs : List ℕ) (result : Arc) (k : ℕ)
    → offset + k + length bs < 2 ^ 64
    → checked_loop offset bs result k ≡ (arc_loop bs result k >>= shifted offset)
unfolding checked_loop arc_loop
checked_loop-arc_loop offset [] result k h = ground arith
checked_loop-arc_loop offset (b ∷ bs) result k h =
    rw (usize_add_ok offset k (omega arith), usize_add_ok k 1 (omega arith))
      (checked_byte-arc_byte (λ n. checked_loop offset bs n (k + 1)) (λ n. arc_loop bs n (k + 1))
        offset (push_bits result b) b (k + 1) (omega arith)
        (λ n. checked_loop-arc_loop offset bs n (k + 1) (omega arith)))

move-shifted :
    (a : Arcs) (offset : ℕ) (r : OidResult (Option (Arc × ℕ)))
    → (r >>= shifted offset >>= λ found. ok (cursor_at a found))
      ≡ (r >>= λ found. ok (move_cursor a offset found))
move-shifted a offset (err e) = refl
move-shifted a offset (ok none) = refl
move-shifted a offset (ok (some (n, m))) = refl

-- Behind the first byte, the sums change nothing.
checked_next-try_next :
    (bytes : List ℕ) (offset : ℕ)
    → suc offset ≤ length bytes
    → length bytes < 2 ^ 63
    → checked_next (at bytes offset) ≡ try_next (at bytes offset)
unfolding checked_next try_next at
checked_next-try_next bytes offset h few =
    let here = drop (suc offset) bytes in
    ap (λ r. r >>= λ found. ok (cursor_at (at bytes offset) found))
      (checked_loop-arc_loop (suc offset) here 0 0 (omega (arith, length-drop (suc offset) bytes)))
    ∙ move-shifted (at bytes offset) (suc offset) (arc_loop here 0 0)

item_same :
    (more : Arcs → Option (OidResult (List Arc))) (plain : Arcs → OidResult (List Arc))
    (r : OidResult (Option Arc × Arcs))
    → ((n : Arc) (a : Arcs) → r ≡ ok (some n, a) → more a ≡ some (plain a))
    → checked_item more r ≡ some (r >>= collect_item plain)
item_same more plain (err e) h = refl
item_same more plain (ok (none, a)) h = refl
item_same more plain (ok (some n, a)) h = rw (h n a refl) refl

checked_collect-collect :
    (calls : ℕ) (bytes : List ℕ) (offset : ℕ)
    → All IsByte bytes
    → suc offset ≤ length bytes
    → length bytes < 2 ^ 63
    → length (drop (suc offset) bytes) < calls
    → checked_collect calls (at bytes offset) ≡ some (collect calls (at bytes offset))
unfolding checked_collect collect
checked_collect-collect zero bytes offset all inside few enough = absurd (omega arith)
checked_collect-collect (suc calls) bytes offset all inside few enough =
    ap (checked_item (checked_collect calls)) (checked_next-try_next bytes offset inside few)
    ∙ item_same (checked_collect calls) (collect calls) (try_next (at bytes offset)) (λ n a e.
      elim (next_cases bytes offset all) [
        | inl nothing ↦ cc (sym (next_end bytes offset nothing) ∙ e)
        | inr (inl (high, n', rest, t)) ↦
            let moved = next_arc bytes offset high n' rest t.here t.fits t.below in
            let is : a ≡ at bytes (offset + suc high) = ap (λ p. p.1) (ok_inj (sym e ∙ moved)) in
            let behind = drop_next bytes offset high n' rest t.here in
            let count = length-append (groups (suc high) n') rest in
            let size = length-groups (suc high) n' in
            let left = length-drop (suc offset) bytes in
            rw is (
              checked_collect-collect calls bytes (offset + suc high) all
                (omega (arith, ap length t.here, count, size, left)) few
                (omega (arith, ap length t.here, ap length behind, count, size)))
        | inr (inr (e', is, _)) ↦ cc (sym is ∙ e)
      ])

abbrev behind_root : List ℕ → Arcs
behind_root bytes = record { bytes = bytes; cursor = some 0 }

next-arcs_new :
    (root : ℕ) (bs : List ℕ) (n : Arc) (a : Arcs)
    → try_next (arcs_new (root ∷ bs)) ≡ ok (some n, a)
    → a ≡ behind_root (root ∷ bs)
unfolding try_next arcs_new
next-arcs_new root bs n a e =
    let item : RootArcs → OidResult (Option Arc × Arcs) =
      λ r. ok (some (first_arc r), behind_root (root ∷ bs)) in
    let (r, made, is) = >>=-ok (root_try_from root) item e in sym (ap (λ p. p.1) (ok_inj is))

next-behind_root :
    (root : ℕ) (bs : List ℕ) (n : Arc) (a : Arcs)
    → try_next (behind_root (root ∷ bs)) ≡ ok (some n, a)
    → a ≡ at (root ∷ bs) 0
unfolding try_next at
next-behind_root root bs n a e =
    let item : RootArcs → OidResult (Option Arc × Arcs) =
      λ r. ok (some (second_arc r), at (root ∷ bs) 0) in
    let (r, made, is) = >>=-ok (root_try_from root) item e in sym (ap (λ p. p.1) (ok_inj is))

collect_root :
    (root : ℕ) (bs : List ℕ) (calls : ℕ)
    → All IsByte (root ∷ bs)
    → length (root ∷ bs) < 2 ^ 63
    → length bs < calls
    → checked_collect (suc (suc calls)) (arcs_new (root ∷ bs))
      ≡ some (collect (suc (suc calls)) (arcs_new (root ∷ bs)))
unfolding checked_collect collect checked_next try_next arcs_new
collect_root root bs calls all few enough =
    item_same (checked_collect (suc calls)) (collect (suc calls)) (try_next (arcs_new (root ∷ bs)))
      (λ n a e. rw (next-arcs_new root bs n a e) (
        item_same (checked_collect calls) (collect calls) (try_next (behind_root (root ∷ bs)))
          (λ n' a' e'.
            rw (next-behind_root root bs n' a' e')
              (checked_collect-collect calls (root ∷ bs) 0 all (omega arith) few (omega arith)))))

-- Over fewer than 2 ^ 63 bytes, the iterator that checks the sums of its positions ends within two
-- calls more than there are bytes, with the same arcs or the same error as the iterator that does not
-- check them, and that error is not an overflow: no such sum overflows.
pub checked_arcs_of-arcs_of :
    (bytes : List ℕ)
    → All IsByte bytes
    → length bytes < 2 ^ 63
    → (checked_arcs_of bytes ≡ some (arcs_of bytes)) × (arcs_of bytes ≢ err overflow)
unfolding checked_arcs_of checked_next checked_collect arcs_of collect try_next arcs_new
checked_arcs_of-arcs_of [] all few = (refl, arcs_of-ne-overflow [] all)
checked_arcs_of-arcs_of (root ∷ bs) all few = (
  subst (λ k. checked_collect k (arcs_new (root ∷ bs)) ≡ some (collect k (arcs_new (root ∷ bs))))
      {x = suc (suc (suc (length bs)))} {y = length (root ∷ bs) + 2} (omega arith)
      (collect_root root bs (suc (length bs)) all few (omega arith)),
  arcs_of-ne-overflow (root ∷ bs) all,
)
