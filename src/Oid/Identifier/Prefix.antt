-- ===== src/Oid/Identifier/Prefix.antt =====
-- const-oid/src/lib.rs: `starts_with`.
use formats.Common.{
  ℕ, suc, ◌+◌, ◌*◌, ◌^◌, ◌≤◌, ◌<◌, ◌≡◌, ◌↔◌, refl, sym, ap, ◌∙◌, arith, true, false, some, List, [],
  ◌∷◌, ◌++◌, append_assoc, ok, length, length-append, drop, drop_append, All,
}
use mathlib.Core.Path.{subst}
use formats.Common.Base128.{group_count, groups, length-groups, group_count-Groups}
use formats.Oid.Data.{Arc, Buffer, buffer_as_bytes}
use formats.Oid.Arcs.{arc_loop}
use formats.Oid.Arcs.Loop.{arc_loop-groups, same_arc}
use formats.Oid.Encoder.Writing.{arc_octets}
use formats.Oid.Identifier.{encode_arcs, starts, starts_with}
use formats.Oid.Identifier.Encoding.{body_octets}
use formats.Oid.Identifier.RoundTrip.{IsArc, Encoded, encode_arcs_ok, buffer_as_bytes-buffer_of}

arc_loop-arc_octets :
    (n : ℕ) (rest : List ℕ)
    → n < 2 ^ 32
    → arc_loop (arc_octets n ++ rest) 0 0 ≡ ok (some (n, group_count n))
arc_loop-arc_octets n rest h =
    let g = group_count-Groups n h in
    ap (λ k. arc_loop (groups k n ++ rest) 0 0) g.count
    ∙ ap (λ q. arc_loop (groups (suc g.high) n ++ rest) q 0) (sym g.whole)
    ∙ arc_loop-groups g.high n 0 rest h
    ∙ ap (λ k. ok (some (n, k))) (omega (arith, g.count))

-- No arc's octets begin those of another one.
arc_octets_apart :
    (n m : ℕ) (xs ys : List ℕ)
    → n < 2 ^ 32
    → m < 2 ^ 32
    → arc_octets n ++ xs ≡ arc_octets m ++ ys
    → (n ≡ m) × (xs ≡ ys)
arc_octets_apart n m xs ys h k e =
    let (same, _) =
      same_arc (arc_loop (arc_octets n ++ xs) 0 0) (arc_loop-arc_octets n xs h)
        (ap (λ l. arc_loop l 0 0) e ∙ arc_loop-arc_octets m ys k) in
    let behind : arc_octets n ++ xs ≡ arc_octets n ++ ys =
      e ∙ ap (λ v. arc_octets v ++ ys) (sym same) in
    (
      same,
      sym (drop_append (arc_octets n) xs)
          ∙ ap (drop (length (arc_octets n))) behind
          ∙ drop_append (arc_octets n) ys,
    )

body_octets_front :
    (arcs others : List Arc) (tail : List ℕ)
    → All IsArc arcs
    → All IsArc others
    → body_octets arcs ≡ body_octets others ++ tail
    → (more : List Arc) × (arcs ≡ others ++ more)
body_octets_front arcs [] tail all all' e = (arcs, refl)
body_octets_front [] (m ∷ others) tail all all' e =
    let g = group_count-Groups m all'.0 in
    absurd (
      omega (
        arith,
        ap length e,
        length-append (body_octets (m ∷ others)) tail,
        length-append (arc_octets m) (body_octets others),
        length-groups (group_count m) m,
        g.count,
      ))
body_octets_front (n ∷ arcs) (m ∷ others) tail all all' e =
    let (same, behind) =
      arc_octets_apart n m (body_octets arcs) (body_octets others ++ tail) all.0 all'.0
        (e ∙ append_assoc (arc_octets m) (body_octets others) tail) in
    let (more, is) = body_octets_front arcs others tail all.1 all'.1 behind in
    (more, ap (λ v. v ∷ arcs) same ∙ ap (◌∷◌ m) is)

body_octets-append :
    (arcs more : List Arc) → body_octets (arcs ++ more) ≡ body_octets arcs ++ body_octets more
body_octets-append [] more = refl
body_octets-append (n ∷ arcs) more =
    ap (λ t. arc_octets n ++ t) (body_octets-append arcs more)
    ∙ sym (append_assoc (arc_octets n) (body_octets arcs) (body_octets more))

starts_front : (xs ys : List ℕ) → starts xs ys ≡ true → (tail : List ℕ) × (xs ≡ ys ++ tail)
starts_front xs [] e = (xs, refl)
starts_front [] (y ∷ ys) e = cc
starts_front (x ∷ xs) (y ∷ ys) e =
    let (tail, is) = starts_front xs ys (ground arith) in
    let same : x ≡ y = ground arith in (tail, ap (λ v. v ∷ xs) same ∙ ap (◌∷◌ y) is)

starts_append : (ys tail : List ℕ) → starts (ys ++ tail) ys ≡ true
starts_append [] tail = refl
starts_append (y ∷ ys) tail = ground (arith, starts_append ys tail)

starts_short : (xs ys : List ℕ) → length xs < length ys → starts xs ys ≡ false
starts_short xs [] h = absurd (omega arith)
starts_short [] (y ∷ ys) h = refl
starts_short (x ∷ xs) (y ∷ ys) h = ground (arith, starts_short xs ys (omega arith))

starts_with-starts :
    (oid other : Buffer)
    → starts_with oid other ≡ starts (buffer_as_bytes oid) (buffer_as_bytes other)
unfolding starts_with
starts_with-starts oid other =
    ground (arith, starts_short (buffer_as_bytes oid) (buffer_as_bytes other))

module _ (a b a' b' : Arc) (arcs others : List Arc) (second : b ≤ 39) (second' : b' ≤ 39) where
  roots_front :
      (tail : List ℕ)
      → All IsArc arcs
      → All IsArc others
      → (a * 40 + b) ∷ body_octets arcs ≡ (a' * 40 + b') ∷ (body_octets others ++ tail)
      → (more : List Arc) × (a ∷ b ∷ arcs ≡ a' ∷ b' ∷ others ++ more)
  roots_front tail all all' e =
      let root : a * 40 + b ≡ a' * 40 + b' = ground arith in
      let body : body_octets arcs ≡ body_octets others ++ tail = cc in
      let (more, is) = body_octets_front arcs others tail all all' body in
      let same : a ≡ a' = omega arith in
      let same' : b ≡ b' = omega arith in
      (more, ap (λ v. v ∷ b ∷ arcs) same ∙ ap (λ v. a' ∷ v ∷ arcs) same' ∙ ap (λ l. a' ∷ b' ∷ l) is)

  front_roots :
      (more : List Arc)
      → a ∷ b ∷ arcs ≡ a' ∷ b' ∷ others ++ more
      → (a * 40 + b) ∷ body_octets arcs ≡ (a' * 40 + b') ∷ (body_octets others ++ body_octets more)
  front_roots more e =
      let same : a ≡ a' = ground arith in
      let same' : b ≡ b' = ground arith in
      let rest : arcs ≡ others ++ more = cc in
      ap (λ v. v ∷ body_octets arcs) {x = a * 40 + b} {y = a' * 40 + b'} (omega arith)
      ∙ ap (λ l. (a' * 40 + b') ∷ body_octets l) rest
      ∙ ap (◌∷◌ (a' * 40 + b')) (body_octets-append others more)

made_bytes :
    (max_size : ℕ) (a b : Arc) (arcs : List Arc) (oid : Buffer)
    → max_size < 256
    → Encoded max_size a b arcs oid
    → buffer_as_bytes oid ≡ (a * 40 + b) ∷ body_octets arcs
made_bytes max_size a b arcs oid small made =
    ap buffer_as_bytes made.is
    ∙ buffer_as_bytes-buffer_of max_size ((a * 40 + b) ∷ body_octets arcs)
        (omega (arith, made.room))

-- Of two identifiers made of u32 arcs, in arrays of 1 to 255 bytes, the one starts with the other
-- exactly where its arcs start with those of the other.
pub starts_with_iff :
    (max_size other_size : ℕ) (arcs others : List Arc) (oid other : Buffer)
    → 1 ≤ max_size
    → max_size < 256
    → 1 ≤ other_size
    → other_size < 256
    → All IsArc arcs
    → All IsArc others
    → encode_arcs max_size arcs ≡ ok oid
    → encode_arcs other_size others ≡ ok other
    → (starts_with oid other ≡ true) ↔ ((more : List Arc) × (arcs ≡ others ++ more))
starts_with_iff max_size other_size arcs others oid other h small h' small' all all' e e' =
    let (a, b, rest, is, made) = encode_arcs_ok max_size arcs oid h e in
    let (a', b', rest', is', made') = encode_arcs_ok other_size others other h' e' in
    let bytes = made_bytes max_size a b rest oid small made in
    let bytes' = made_bytes other_size a' b' rest' other small' made' in
    let words : All IsArc (a ∷ b ∷ rest) = subst (All IsArc) is all in
    let words' : All IsArc (a' ∷ b' ∷ rest') = subst (All IsArc) is' all' in
    let test : starts_with oid other
        ≡ starts ((a * 40 + b) ∷ body_octets rest) ((a' * 40 + b') ∷ body_octets rest') =
      starts_with-starts oid other ∙ rw (bytes, bytes') refl in
    (
      λ yes_it_does.
          let (tail, front) =
            starts_front ((a * 40 + b) ∷ body_octets rest) ((a' * 40 + b') ∷ body_octets rest')
              (sym test ∙ yes_it_does) in
          let (more, whole) =
            roots_front a b a' b' rest rest' made.second made'.second tail words.1.1 words'.1.1
              front in
          (more, is ∙ whole ∙ ap (λ l. l ++ more) (sym is')),
      λ (more, whole).
          let front =
            front_roots a b a' b' rest rest' made.second made'.second more
              (sym is ∙ whole ∙ ap (λ l. l ++ more) is') in
          test
          ∙ ap (λ l. starts l ((a' * 40 + b') ∷ body_octets rest')) front
          ∙ starts_append ((a' * 40 + b') ∷ body_octets rest') (body_octets more),
    )
