-- ===== src/Oid/Arcs/Accepted.antt =====
-- const-oid/src/arcs.rs: which bytes the iterator takes, and that it ends.
use formats.Common.{
  ℕ, zero, suc, ◌+◌, ◌/◌, ◌%◌, ◌^◌, ◌<◌, ◌≡◌, ◌≢◌, ◌↔◌, refl, sym, ap, ◌∙◌, arith, none, some, List,
  [], ◌∷◌, ◌++◌, ok, err, ◌⊎◌, inl, inr, length, length-append, drop, All, All-drop, IsByte,
  Result-cases,
}
use formats.Common.Base128.{groups, length-groups, below_of_div}
use native.Mathlib.Decide.{dec_lt}
use formats.Oid.Data.{
  Arc, OidError, OidResult, ◌>>=◌, >>=-ok, >>=-err, ok_inj, err_inj, overflow, empty,
}
use formats.Oid.Arcs.{Arcs, arc_loop, try_next, collect_item, collect, arcs_new, arcs_of}
use formats.Oid.Arcs.Loop.{ArcAt, arc_loop_ok, arc_loop-none, arc_loop-ne-overflow}
use formats.Oid.Arcs.Spelling.{
  AreGroups, IsSpelling, at, next_arc, next_end, drop_next, arcs_of_root, arcs_of_big,
  arcs_of-IsSpelling,
}

-- An arc stands at the cursor, in `high + 1` groups.
pub record NextArc (bytes : List ℕ) (offset high n : ℕ) (rest : List ℕ) : Type 0 where
  pub here : drop (suc offset) bytes ≡ groups (suc high) n ++ rest
  pub fits : n < 2 ^ 32
  pub below : n < 128 ^ suc high

next_err :
    (bytes : List ℕ) (offset : ℕ) (e : OidError)
    → arc_loop (drop (suc offset) bytes) 0 0 ≡ err e
    → try_next (at bytes offset) ≡ err e
unfolding try_next at
next_err bytes offset e h = rw h

arc_NextArc :
    (bytes : List ℕ) (offset n d : ℕ) (t : ArcAt 0 (drop (suc offset) bytes) n d)
    → NextArc bytes offset t.high n t.rest
arc_NextArc bytes offset n d t = record {
  here = t.bytes;
  fits = t.fits;
  below = below_of_div n t.high t.above;
}

-- What a call of `try_next` behind the first byte may give.
pub next_cases :
    (bytes : List ℕ) (offset : ℕ)
    → All IsByte bytes
    → (drop (suc offset) bytes ≡ [])
      ⊎ ((high n : ℕ) × (rest : List ℕ) × NextArc bytes offset high n rest)
      ⊎ ((e : OidError) × (try_next (at bytes offset) ≡ err e) × (e ≢ overflow))
next_cases bytes offset all =
    let here = drop (suc offset) bytes in
    let octets = All-drop IsByte (suc offset) bytes all in
    elim (Result-cases (arc_loop here 0 0)) [
      | inl (none, is) ↦ inl (arc_loop-none here 0 0 octets is)
      | inl (some (n, m), is) ↦
          let (d, count, t) = arc_loop_ok here 0 0 n m octets is in
          inr (inl (t.high, n, t.rest, arc_NextArc bytes offset n d t))
      | inr (e, is) ↦ inr (
          inr (
            e,
            next_err bytes offset e is,
            λ over. arc_loop-ne-overflow here 0 0 octets (is ∙ ap err over),
          ))
    ]

err_step :
    (a : Arcs) (e : OidError) (more : Arcs → OidResult (List Arc)) {r : OidResult (List Arc)}
    → try_next a ≡ err e
    → (try_next a >>= collect_item more) ≡ r
    → r ≡ err e
err_step a e more h is = sym is ∙ rw h

module _ (bytes : List ℕ) (offset : ℕ) (more : Arcs → OidResult (List Arc))
    {r : OidResult (List Arc)} where
  end_step :
      drop (suc offset) bytes ≡ []
      → (try_next (at bytes offset) >>= collect_item more) ≡ r
      → r ≡ ok []
  end_step nothing is = sym is ∙ rw (next_end bytes offset nothing)

  arc_step :
      (high n : ℕ) (rest : List ℕ)
      → NextArc bytes offset high n rest
      → (try_next (at bytes offset) >>= collect_item more) ≡ r
      → (more (at bytes (offset + suc high)) >>= λ arcs. ok (n ∷ arcs)) ≡ r
  arc_step high n rest t is =
      sym (rw (next_arc bytes offset high n rest t.here t.fits t.below)) ∙ is

-- The rest of the identifier behind an arc.
AreGroups-at :
    (calls : ℕ) (bytes : List ℕ) (offset : ℕ) (arcs : List Arc)
    → All IsByte bytes
    → collect calls (at bytes offset) ≡ ok arcs
    → AreGroups arcs (drop (suc offset) bytes)
unfolding collect
AreGroups-at zero bytes offset arcs all e = cc
AreGroups-at (suc calls) bytes offset arcs all e = elim (next_cases bytes offset all) [
  | inl nothing ↦
      let is : arcs ≡ [] = ok_inj (end_step bytes offset (collect calls) nothing e) in rw is nothing
  | inr (inl (high, n, rest, t)) ↦
      let more = collect calls (at bytes (offset + suc high)) in
      let (l, got, is) =
        >>=-ok more (λ l. ok (n ∷ l)) (arc_step bytes offset (collect calls) high n rest t e) in
      let behind = AreGroups-at calls bytes (offset + suc high) l all got in
      let whole : arcs ≡ n ∷ l = sym (ok_inj is) in
      rw whole (
        high,
        rest,
        t.here,
        t.fits,
        t.below,
        rw (drop_next bytes offset high n rest t.here) at behind,
      )
  | inr (inr (e', is, _)) ↦ cc (err_step (at bytes offset) e' (collect calls) is e)
]

collect-ne-overflow :
    (calls : ℕ) (bytes : List ℕ) (offset : ℕ)
    → All IsByte bytes
    → length (drop (suc offset) bytes) < calls
    → collect calls (at bytes offset) ≢ err overflow
unfolding collect
collect-ne-overflow zero bytes offset all few e = absurd (omega arith)
collect-ne-overflow (suc calls) bytes offset all few e = elim (next_cases bytes offset all) [
  | inl nothing ↦ cc (end_step bytes offset (collect calls) nothing e)
  | inr (inl (high, n, rest, t)) ↦
      let fewer : length (drop (suc (offset + suc high)) bytes) < calls = omega (
        arith,
        ap length (drop_next bytes offset high n rest t.here),
        ap length t.here,
        length-append (groups (suc high) n) rest,
        length-groups (suc high) n,
      ) in
      let more = collect calls (at bytes (offset + suc high)) in
      let later = arc_step bytes offset (collect calls) high n rest t e in
      collect-ne-overflow calls bytes (offset + suc high) all fewer
        (>>=-err more (λ l. ok (n ∷ l)) (λ l h. cc h) later)
  | inr (inr (e', is, other)) ↦
      other (err_inj (List Arc) (sym (err_step (at bytes offset) e' (collect calls) is e)))
]

arcs_of-nil : arcs_of [] ≡ err empty
unfolding arcs_of collect try_next arcs_new
arcs_of-nil = refl

IsSpelling-root :
    (root : ℕ) (bs : List ℕ) (arcs : List Arc)
    → All IsByte (root ∷ bs)
    → root < 120
    → arcs_of (root ∷ bs) ≡ ok arcs
    → IsSpelling (root ∷ bs) arcs
IsSpelling-root root bs arcs all low e =
    let more = collect (suc (length bs)) (at (root ∷ bs) 0) in
    let second = collect_item (λ _. more) (some (root % 40), at (root ∷ bs) 0) in
    let (l, got, is) =
      >>=-ok second (λ l. ok (root / 40 ∷ l)) (sym (arcs_of_root root bs low) ∙ e) in
    let (l', rest, is') = >>=-ok more (λ l. ok (root % 40 ∷ l)) got in
    let whole : arcs ≡ root / 40 ∷ root % 40 ∷ l' =
      sym (ok_inj is) ∙ ap (◌∷◌ (root / 40)) (sym (ok_inj is')) in
    rw whole (
      omega arith,
      omega arith,
      omega arith,
      AreGroups-at (suc (length bs)) (root ∷ bs) 0 l' all rest,
    )

IsSpelling-arcs_of :
    (bytes : List ℕ) (arcs : List Arc)
    → All IsByte bytes
    → arcs_of bytes ≡ ok arcs
    → IsSpelling bytes arcs
IsSpelling-arcs_of [] arcs all e = cc (sym arcs_of-nil ∙ e)
IsSpelling-arcs_of (root ∷ bs) arcs all e = elim (dec_lt root 120) [
  | yes low ↦ IsSpelling-root root bs arcs all low e
  | no big ↦ cc (sym (arcs_of_big root bs (omega arith)) ∙ e)
]

-- Exactly the bytes that spell them are taken as those arcs, whatever the number of leading zero
-- groups.
pub arcs_of_iff :
    (bytes : List ℕ) (arcs : List Arc)
    → All IsByte bytes
    → (arcs_of bytes ≡ ok arcs) ↔ IsSpelling bytes arcs
arcs_of_iff bytes arcs all = (IsSpelling-arcs_of bytes arcs all, arcs_of-IsSpelling bytes arcs)

-- The iterator over any bytes ends within the calls that the model allows it, one for each byte and
-- two more.
pub arcs_of-ne-overflow : (bytes : List ℕ) → All IsByte bytes → arcs_of bytes ≢ err overflow
arcs_of-ne-overflow [] all e = cc (sym arcs_of-nil ∙ e)
arcs_of-ne-overflow (root ∷ bs) all e = elim (dec_lt root 120) [
  | yes low ↦
      let more = collect (suc (length bs)) (at (root ∷ bs) 0) in
      let second = collect_item (λ _. more) (some (root % 40), at (root ∷ bs) 0) in
      collect-ne-overflow (suc (length bs)) (root ∷ bs) 0 all (omega arith) (
        >>=-err more (λ l. ok (root % 40 ∷ l)) (λ l h. cc h)
          (>>=-err second (λ l. ok (root / 40 ∷ l)) (λ l h. cc h)
            (sym (arcs_of_root root bs low) ∙ e)))
  | no big ↦ cc (sym (arcs_of_big root bs (omega arith)) ∙ e)
]
