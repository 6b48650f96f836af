-- ===== src/Oid/Arcs/Spelling.antt =====
-- const-oid/src/arcs.rs: the iterator over the bytes of whole identifiers.
use formats.Common.{
  ℕ, zero, suc, ◌+◌, ◌*◌, ◌/◌, ◌%◌, ◌^◌, ◌≤◌, ◌<◌, ◌≡◌, refl, sym, ap, ◌∙◌, arith, none, some, List,
  [], ◌∷◌, ◌++◌, ok, err, length, length-append, drop, drop_append, drop-drop_add,
}
use formats.Common.Base128.{groups, length-groups}
use native.Mathlib.Nat.{div-eq_of_lt}
use formats.Oid.Data.{Arc, ◌>>=◌, arc_invalid}
use formats.Oid.Arcs.{
  root_new, root_try_from, first_arc, second_arc, Arcs, arcs_new, arc_loop, try_next, collect_item,
  collect, arcs_of,
}
use formats.Oid.Arcs.Loop.{arc_loop-groups}

-- The bytes are groups of seven bits for each arc in turn, as many as the arc needs or more, which
-- are leading zero groups.
abbrev pub AreGroups : List Arc → List ℕ → Type 0
AreGroups [] bs = bs ≡ []
AreGroups (n ∷ arcs) bs =
    (high : ℕ) × (rest : List ℕ) × (bs ≡ groups (suc high) n ++ rest)
    × (n < 2 ^ 32)
    × (n < 128 ^ suc high)
    × AreGroups arcs rest

-- The first byte holds the first two arcs.
abbrev pub IsSpelling : List ℕ → List Arc → Type 0
IsSpelling [] arcs = ⊥
IsSpelling (root ∷ bs) [] = ⊥
IsSpelling (root ∷ bs) (a ∷ []) = ⊥
IsSpelling (root ∷ bs) (a ∷ b ∷ arcs) = (a ≤ 2) × (b ≤ 39) × (root ≡ a * 40 + b) × AreGroups arcs bs

pub length-AreGroups : (arcs : List Arc) (bs : List ℕ) → AreGroups arcs bs → length arcs ≤ length bs
length-AreGroups [] bs h = omega arith
length-AreGroups (n ∷ arcs) bs (high, rest, is, fits, below, more) = omega (
  arith,
  ap length is,
  length-append (groups (suc high) n) rest,
  length-groups (suc high) n,
  length-AreGroups arcs rest more,
)

unfoldable pub at : List ℕ → ℕ → Arcs
at bytes offset = record { bytes = bytes; cursor = some (suc offset) }

drop-groups : (high n : ℕ) (rest : List ℕ) → drop (suc high) (groups (suc high) n ++ rest) ≡ rest
drop-groups high n rest =
    ap (λ k. drop k (groups (suc high) n ++ rest)) (sym (length-groups (suc high) n))
    ∙ drop_append (groups (suc high) n) rest

-- A call of `try_next` in front of an arc, and at the end.
pub next_arc :
    (bytes : List ℕ) (offset high n : ℕ) (rest : List ℕ)
    → drop (suc offset) bytes ≡ groups (suc high) n ++ rest
    → n < 2 ^ 32
    → n < 128 ^ suc high
    → try_next (at bytes offset) ≡ ok (some n, at bytes (offset + suc high))
unfolding try_next at
next_arc bytes offset high n rest here fits below =
    let top : n / 128 ^ suc high ≡ 0 = div-eq_of_lt below in
    let read : arc_loop (groups (suc high) n ++ rest) 0 0 ≡ ok (some (n, 0 + suc high)) =
      ap (λ q. arc_loop (groups (suc high) n ++ rest) q 0) (sym top)
      ∙ arc_loop-groups high n 0 rest fits in
    rw (here, read) (ap (λ k. ok (some n, record { bytes = bytes; cursor = some k })) (omega arith))

pub next_end :
    (bytes : List ℕ) (offset : ℕ)
    → drop (suc offset) bytes ≡ []
    → try_next (at bytes offset) ≡ ok (none, at bytes offset)
unfolding try_next at arc_loop
next_end bytes offset here = rw here

pub drop_next :
    (bytes : List ℕ) (offset high n : ℕ) (rest : List ℕ)
    → drop (suc offset) bytes ≡ groups (suc high) n ++ rest
    → drop (suc (offset + suc high)) bytes ≡ rest
drop_next bytes offset high n rest here =
    ap (λ k. drop k bytes) {x = suc (offset + suc high)} {y = suc offset + suc high} (omega arith)
    ∙ sym (drop-drop_add (suc offset) (suc high) bytes)
    ∙ ap (drop (suc high)) here
    ∙ drop-groups high n rest

collect-some :
    (calls : ℕ) (a a' : Arcs) (n : Arc) (arcs : List Arc)
    → try_next a ≡ ok (some n, a')
    → collect calls a' ≡ ok arcs
    → collect (suc calls) a ≡ ok (n ∷ arcs)
unfolding collect
collect-some calls a a' n arcs next rest = rw next (rw rest)

collect-AreGroups :
    (arcs : List Arc) (calls : ℕ) (bytes : List ℕ) (offset : ℕ) (bs : List ℕ)
    → length arcs < calls
    → drop (suc offset) bytes ≡ bs
    → AreGroups arcs bs
    → collect calls (at bytes offset) ≡ ok arcs
unfolding collect
collect-AreGroups arcs zero bytes offset bs few here h = absurd (omega arith)
collect-AreGroups [] (suc calls) bytes offset bs few here h = rw (next_end bytes offset (here ∙ h))
collect-AreGroups (n ∷ arcs) (suc calls) bytes offset bs few here
      (high, rest, is, fits, below, more) =
    collect-some calls (at bytes offset) (at bytes (offset + suc high)) n arcs
      (next_arc bytes offset high n rest (here ∙ is) fits below)
      (collect-AreGroups arcs calls bytes (offset + suc high) rest (omega arith)
        (drop_next bytes offset high n rest (here ∙ is)) more)

root_ok : (root : ℕ) → root < 120 → root_try_from root ≡ ok (record { octet = root })
unfolding root_try_from root_new
root_ok root h = ground arith

root_big : (root : ℕ) → 120 ≤ root → root_try_from root ≡ err (arc_invalid (root / 40))
unfolding root_try_from root_new
root_big root h = ground arith

unfoldable pub in_root : List ℕ → Arcs
in_root bytes = record { bytes = bytes; cursor = some 0 }

next_first :
    (root : ℕ) (bs : List ℕ)
    → root < 120
    → try_next (arcs_new (root ∷ bs)) ≡ ok (some (root / 40), in_root (root ∷ bs))
unfolding try_next arcs_new in_root first_arc
next_first root bs h = rw (root_ok root h)

next_second :
    (root : ℕ) (bs : List ℕ)
    → root < 120
    → try_next (in_root (root ∷ bs)) ≡ ok (some (root % 40), at (root ∷ bs) 0)
unfolding try_next in_root at second_arc
next_second root bs h = rw (root_ok root h)

-- The two calls for the first byte, and then the others.
pub arcs_of_root :
    (root : ℕ) (bs : List ℕ)
    → root < 120
    → arcs_of (root ∷ bs)
      ≡ collect_item
          (λ a. collect_item (collect (suc (length bs))) (some (root % 40), at (root ∷ bs) 0))
          (some (root / 40), in_root (root ∷ bs))
unfolding arcs_of collect
arcs_of_root root bs h =
    let calls : length (root ∷ bs) + 2 ≡ suc (suc (suc (length bs))) = omega arith in
    ap (λ k. collect k (arcs_new (root ∷ bs))) calls
    ∙ ap (λ r. r >>= collect_item (collect (suc (suc (length bs))))) (next_first root bs h)
    ∙ ap (λ r. (r >>= collect_item (collect (suc (length bs)))) >>= λ arcs. ok (root / 40 ∷ arcs))
        (next_second root bs h)

next_big :
    (root : ℕ) (bs : List ℕ)
    → 120 ≤ root
    → try_next (arcs_new (root ∷ bs)) ≡ err (arc_invalid (root / 40))
unfolding try_next arcs_new
next_big root bs h = rw (root_big root h)

pub arcs_of_big :
    (root : ℕ) (bs : List ℕ) → 120 ≤ root → arcs_of (root ∷ bs) ≡ err (arc_invalid (root / 40))
unfolding arcs_of collect
arcs_of_big root bs h =
    let calls : length (root ∷ bs) + 2 ≡ suc (suc (suc (length bs))) = omega arith in
    ap (λ k. collect k (arcs_new (root ∷ bs))) calls
    ∙ ap (λ r. r >>= collect_item (collect (suc (suc (length bs))))) (next_big root bs h)

pub arcs_of-IsSpelling :
    (bytes : List ℕ) (arcs : List Arc) → IsSpelling bytes arcs → arcs_of bytes ≡ ok arcs
arcs_of-IsSpelling [] arcs h = absurd h
arcs_of-IsSpelling (root ∷ bs) [] h = absurd h
arcs_of-IsSpelling (root ∷ bs) (a ∷ []) h = absurd h
arcs_of-IsSpelling (root ∷ bs) (a ∷ b ∷ arcs) (first, second, is, more) =
    let few = length-AreGroups arcs bs more in
    let high : root / 40 ≡ a = omega arith in
    let low : root % 40 ≡ b = omega arith in
    let rest = collect-AreGroups arcs (suc (length bs)) (root ∷ bs) 0 bs (omega arith) refl more in
    arcs_of_root root bs (omega arith) ∙ rw (rest, high, low) refl
