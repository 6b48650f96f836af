-- ===== src/Oid/Identifier/Children.antt =====
-- const-oid/src/lib.rs: `push_arc`, `parent` and `starts_with`.
use formats.Common.{
  ℕ, zero, suc, ◌+◌, ◌-◌, ◌*◌, ◌%◌, ◌≤◌, ◌<◌, ◌≡◌, sym, ap, ◌∙◌, arith, some, List, [], ◌∷◌, ◌++◌,
  ok, Result-cases, inl, inr, length, length-append, length-replicate, take, take_append, replicate,
  All, All-append,
}
use mathlib.Core.Path.{subst}
use formats.Oid.Data.{Arc, ◌>>=◌, Buffer}
use formats.Oid.Encoder.{Encoder, extend, push, encoder_finish}
use formats.Oid.Encoder.Writing.{holding}
use formats.Oid.Identifier.{push_all, encode_arcs, oid_arcs, parent, push_arc}
use formats.Oid.Identifier.Encoding.{body_octets, buffer_of, push_all-holding, encode_two}
use formats.Oid.Identifier.RoundTrip.{IsArc, Encoded, encode_arcs_ok, from_bytes-encode_arcs}

push_all-append :
    (arcs : List Arc) (a : Arc) (e : Encoder)
    → push_all (arcs ++ (a ∷ [])) e ≡ (push_all arcs e >>= λ e'. push e' a)
unfolding push_all
push_all-append [] a e = elim (Result-cases (push e a)) [
  | inl (e', is) ↦ rw is
  | inr (d, is) ↦ rw is
]
push_all-append (arc ∷ arcs) a e = elim (Result-cases (push e arc)) [
  | inl (e', is) ↦ rw is (push_all-append arcs a e')
  | inr (d, is) ↦ rw is
]

-- `extend` takes up the encoder where `finish` left it.
extend-buffer_of :
    (max_size : ℕ) (octets : List ℕ)
    → length octets < 256
    → extend (buffer_of max_size octets) ≡ holding octets (max_size - length octets)
unfolding extend buffer_of holding
extend-buffer_of max_size octets h =
    let count : length octets % 256 ≡ length octets = omega arith in rw count

push_all_root :
    (room root : ℕ) (arcs : List Arc)
    → length (body_octets arcs) ≤ room
    → push_all arcs (holding (root ∷ []) room)
      ≡ ok (holding (root ∷ body_octets arcs) (room - length (body_octets arcs)))
push_all_root room root arcs h = ground (arith, push_all-holding arcs (root ∷ []) room)

encode_child :
    (room : ℕ) (x y a : Arc) (arcs : List Arc)
    → x ≤ 2
    → y ≤ 39
    → length (body_octets arcs) ≤ room
    → encode_arcs (suc room) (x ∷ y ∷ arcs ++ (a ∷ [])) ≡ (
        push (holding ((x * 40 + y) ∷ body_octets arcs) (room - length (body_octets arcs))) a
        >>= encoder_finish)
encode_child room x y a arcs h k few =
    let root : ℕ = x * 40 + y in
    encode_two room x y (arcs ++ (a ∷ [])) h k
    ∙ ap (λ r. r >>= encoder_finish)
        (push_all-append arcs a (holding (root ∷ []) room)
          ∙ ap (λ r. r >>= λ e. push e a) (push_all_root room root arcs few))

push_arc_lem :
    (max_size : ℕ) (x y : Arc) (arcs : List Arc) (oid : Buffer) (a : Arc)
    → 1 ≤ max_size
    → max_size < 256
    → Encoded max_size x y arcs oid
    → push_arc oid a ≡ encode_arcs max_size (x ∷ y ∷ arcs ++ (a ∷ []))
unfolding push_arc
push_arc_lem zero x y arcs oid a h small made = absurd (omega arith)
push_arc_lem (suc room) x y arcs oid a h small made =
    let octets = (x * 40 + y) ∷ body_octets arcs in
    let few = made.room in
    ap (λ o. push (extend o) a >>= encoder_finish) made.is
    ∙ ap (λ e. push e a >>= encoder_finish)
        (extend-buffer_of (suc room) octets (omega arith) ∙ ap (holding octets) (omega arith))
    ∙ sym (encode_child room x y a arcs made.first made.second (omega arith))

-- Pushing an arc onto an identifier made of arcs, in an array of 1 to 255 bytes, is the same as
-- making one of those arcs and the new one, errors included.
pub push_arc-encode_arcs :
    (max_size : ℕ) (arcs : List Arc) (oid : Buffer) (a : Arc)
    → 1 ≤ max_size
    → max_size < 256
    → encode_arcs max_size arcs ≡ ok oid
    → push_arc oid a ≡ encode_arcs max_size (arcs ++ (a ∷ []))
push_arc-encode_arcs max_size arcs oid a h small e =
    let (x, y, rest, is, made) = encode_arcs_ok max_size arcs oid h e in
    push_arc_lem max_size x y rest oid a h small made
    ∙ ap (λ l. encode_arcs max_size (l ++ (a ∷ []))) (sym is)

length-buffer_bytes :
    (max_size : ℕ) (octets : List ℕ)
    → length octets ≤ max_size
    → length ((buffer_of max_size octets).bytes) ≡ max_size
unfolding buffer_of
length-buffer_bytes max_size octets h = omega (
  arith,
  length-append octets (replicate (max_size - length octets) 0),
  length-replicate (max_size - length octets) zero,
)

max_size_of :
    (max_size : ℕ) (arcs : List Arc) (oid : Buffer)
    → 1 ≤ max_size
    → encode_arcs max_size arcs ≡ ok oid
    → length oid.bytes ≡ max_size
max_size_of max_size arcs oid h e =
    let (x, y, rest, is, made) = encode_arcs_ok max_size arcs oid h e in
    ap (λ o. length o.bytes) made.is
    ∙ length-buffer_bytes max_size ((x * 40 + y) ∷ body_octets rest) (omega (arith, made.room))

parent_lem :
    (oid : Buffer) (arc : Arc) (arcs : List Arc) (before : Buffer)
    → oid_arcs oid ≡ some (arc ∷ arcs)
    → encode_arcs (length oid.bytes) (take (length arcs) (arc ∷ arcs)) ≡ ok before
    → parent oid ≡ some (some before)
unfolding parent
parent_lem oid arc arcs before got made = ground (arith, got, made)

take_last :
    (arcs : List Arc) (x a : Arc)
    → take (length (arcs ++ (a ∷ []))) (x ∷ arcs ++ (a ∷ [])) ≡ x ∷ arcs
take_last arcs x a =
    ap (λ k. take k (x ∷ arcs ++ (a ∷ []))) {x = length (arcs ++ (a ∷ []))} {y = length (x ∷ arcs)}
      (omega (arith, length-append arcs (a ∷ [])))
    ∙ take_append (x ∷ arcs) (a ∷ [])

parent-encode_arcs :
    (max_size : ℕ) (x a : Arc) (arcs : List Arc) (oid child : Buffer)
    → 1 ≤ max_size
    → max_size < 256
    → All IsArc (x ∷ arcs ++ (a ∷ []))
    → encode_arcs max_size (x ∷ arcs) ≡ ok oid
    → encode_arcs max_size (x ∷ arcs ++ (a ∷ [])) ≡ ok child
    → parent child ≡ some (some oid)
parent-encode_arcs max_size x a arcs oid child h small all e made =
    let whole = from_bytes-encode_arcs max_size (x ∷ arcs ++ (a ∷ [])) child h small all made in
    parent_lem child x (arcs ++ (a ∷ [])) oid whole.0 (
      ap (λ k. encode_arcs k (take (length (arcs ++ (a ∷ []))) (x ∷ arcs ++ (a ∷ []))))
        (max_size_of max_size (x ∷ arcs ++ (a ∷ [])) child h made)
      ∙ ap (encode_arcs max_size) (take_last arcs x a)
      ∙ e)

-- An identifier made of u32 arcs, in an array of 1 to 255 bytes, is the parent of every identifier
-- that comes from it by pushing a u32 arc.
pub parent-push_arc :
    (max_size : ℕ) (arcs : List Arc) (oid child : Buffer) (a : Arc)
    → 1 ≤ max_size
    → max_size < 256
    → All IsArc arcs
    → IsArc a
    → encode_arcs max_size arcs ≡ ok oid
    → push_arc oid a ≡ ok child
    → parent child ≡ some (some oid)
parent-push_arc max_size arcs oid child a h small all word e pushed =
    let (x, y, rest, is, _) = encode_arcs_ok max_size arcs oid h e in
    let made = sym (push_arc-encode_arcs max_size arcs oid a h small e) ∙ pushed in
    let words : All IsArc (x ∷ y ∷ rest) = subst (All IsArc) is all in
    parent-encode_arcs max_size x a (y ∷ rest) oid child h small
      (All-append IsArc (x ∷ y ∷ rest) (a ∷ []) words (word, tt))
      (ap (encode_arcs max_size) (sym is) ∙ e)
      (ap (λ l. encode_arcs max_size (l ++ (a ∷ []))) (sym is) ∙ made)
