-- ===== src/Oid/Arcs.antt =====
-- const-oid/src/arcs.rs: the arcs in the bytes of an object identifier. The sums of positions are not
-- checked here; Oid.Arcs.Checked has the same iterator with the checks.
pub mod Loop
pub mod Spelling
pub mod Accepted
pub mod Checked
use formats.Common.{
  ℕ, zero, suc, ◌+◌, ◌-◌, ◌*◌, ◌/◌, ◌%◌, ◌^◌, Option, none, some, List, [], ◌∷◌, ok, err, bit_and,
  ltb, ◌==◌, if◌then◌else◌, length, drop,
}
use formats.Oid.Data.{
  Arc, OidResult, ◌>>=◌, arc_invalid, arc_too_big, base128, empty, overflow, checked_add,
  checked_mul, arc_max_first, arc_max_second,
}

-- The byte of the first two arcs.
pub record RootArcs : Type 0 where
  pub octet : ℕ

unfoldable pub root_new : Arc → Arc → OidResult RootArcs
root_new first second =
    if ltb arc_max_first first
    then err (arc_invalid first)
    else if ltb arc_max_second second
    then err (arc_invalid second)
    else ok (record { octet = first * (arc_max_second + 1) % 2 ^ 8 + second % 2 ^ 8 })

unfoldable pub first_arc : RootArcs → Arc
first_arc r = r.octet / (arc_max_second + 1)

unfoldable pub second_arc : RootArcs → Arc
second_arc r = r.octet % (arc_max_second + 1)

unfoldable pub root_try_from : ℕ → OidResult RootArcs
unfolding root_new
root_try_from octet = root_new (octet / (arc_max_second + 1)) (octet % (arc_max_second + 1))

-- The iterator: `cursor` is `none` in front of the first arc.
pub record Arcs : Type 0 where
  pub bytes : List ℕ
  pub cursor : Option ℕ

unfoldable pub arcs_new : List ℕ → Arcs
arcs_new bytes = record { bytes = bytes; cursor = none }

-- `result * 0x80 + (byte & 0x7f)`, where that is a u32.
abbrev pub push_bits : Arc → ℕ → Option Arc
push_bits result byte = elim (checked_mul result 0x80) [
  | none ↦ none
  | some shifted ↦ checked_add shifted (bit_and byte 0x7f)
]

-- A round of the loop of `try_next`, behind its read; `more` is the rest of the loop.
abbrev pub arc_byte :
    (Arc → OidResult (Option (Arc × ℕ))) → Option Arc → ℕ → ℕ → OidResult (Option (Arc × ℕ))
arc_byte more none byte arc_bytes = err arc_too_big
arc_byte more (some result) byte arc_bytes =
    if bit_and byte 0b1000_0000 == 0 then ok (some (result, arc_bytes)) else more result

-- The loop, over the bytes from `offset + arc_bytes` on: the arc and the number of its bytes.
pub arc_loop : List ℕ → Arc → ℕ → OidResult (Option (Arc × ℕ))
arc_loop [] result arc_bytes = if arc_bytes == 0 then ok none else err base128
arc_loop (byte ∷ rest) result arc_bytes =
    arc_byte (λ n. arc_loop rest n (arc_bytes + 1)) (push_bits result byte) byte (arc_bytes + 1)

abbrev pub move_cursor : Arcs → ℕ → Option (Arc × ℕ) → Option Arc × Arcs
move_cursor a offset none = (none, a)
move_cursor a offset (some (n, arc_bytes)) =
    (some n, record a { cursor = some (offset + arc_bytes) })

abbrev pub first_byte : List ℕ → OidResult ℕ
first_byte [] = err empty
first_byte (b ∷ bs) = ok b

-- The match of `try_next` on the cursor. `bytes[0]` is there where the cursor is 0.
abbrev pub next_at : Arcs → Option ℕ → OidResult (Option Arc × Arcs)
next_at a none = do
  root_byte ← first_byte a.bytes
  root ← root_try_from root_byte
  ok (some (first_arc root), record a { cursor = some 0 })
next_at a (some zero) = do
  root_byte ← first_byte a.bytes
  root ← root_try_from root_byte
  ok (some (second_arc root), record a { cursor = some 1 })
next_at a (some (suc offset)) = do
  found ← arc_loop (drop (suc offset) a.bytes) 0 0
  ok (move_cursor a (suc offset) found)

unfoldable pub try_next : Arcs → OidResult (Option Arc × Arcs)
unfolding arc_loop root_try_from first_arc second_arc
try_next a = next_at a a.cursor

-- A round of the loop over the iterator, behind its call of `try_next`.
abbrev pub collect_item : (Arcs → OidResult (List Arc)) → Option Arc × Arcs → OidResult (List Arc)
collect_item more (none, a) = ok []
collect_item more (some n, a) = more a >>= λ arcs. ok (n ∷ arcs)

-- The iterator run to its end, in so many calls at most. No call of `try_next` gives `overflow`, so
-- this error says that the calls were too few.
pub collect : ℕ → Arcs → OidResult (List Arc)
collect zero a = err overflow
collect (suc calls) a = try_next a >>= collect_item (collect calls)

-- Each call but the last moves the cursor on.
unfoldable pub arcs_of : List ℕ → OidResult (List Arc)
unfolding collect arcs_new
arcs_of bytes = collect (length bytes + 2) (arcs_new bytes)
