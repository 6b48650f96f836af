-- ===== src/Der/Reader/Draining.antt =====
-- `drain`: 16 bytes a round until the amount is used up.
use native.Mathlib.Decide.{dec_le}
use formats.Common.{
  ℕ, zero, suc, ◌+◌, ◌-◌, ◌≤◌, ◌≡◌, refl, ap, ◌∙◌, arith, true, false, List, [], ◌++◌, ok, leb,
  ◌==◌, length, take, drop, append_assoc, take-append-drop, length-take, length-drop,
}
use formats.Der.Data.{Length}
use formats.Der.Length.{IsLength, sub}
use formats.Der.Reader.{SliceReader, read_into, drain_loop, drain}
use formats.Der.Reader.Ready.{Ready, Ready-skip, skip, skip-zero, skip-skip}
use formats.Der.Reader.Slices.{read_into-Reads}

sub_ok : (a b : Length) → b ≤ a → sub a b ≡ ok (a - b)
unfolding sub
sub_ok a b h = ground arith

-- No more rounds than bytes.
drain_loop_enough :
    (fuel : ℕ) (n : ℕ) (bs : List ℕ) (r : SliceReader) (rest : List ℕ)
    → length bs ≡ n
    → n ≤ fuel
    → IsLength n
    → Ready r (bs ++ rest)
    → drain_loop fuel n r ≡ (ok tt, skip r n)
unfolding drain_loop
drain_loop_enough zero n bs r rest h enough small ready =
    let none_left : 0 ≡ n = omega arith in
    ap (λ q. (ok tt, q)) (skip-zero r ∙ ap (skip r) none_left)
drain_loop_enough (suc fuel) zero bs r rest h enough small ready =
    ap (λ q. (ok tt, q)) (skip-zero r)
drain_loop_enough (suc fuel) (suc m) bs r rest h enough small ready =
    let n = suc m in
    let some_left : (n == 0) ≡ false = ground arith in
    elim (dec_le 16 n) [
      | yes many ↦
          let front = take 16 bs in
          let back = drop 16 bs in
          let size : length front ≡ 16 = length-take 16 bs ∙ omega arith in
          let left : length back ≡ n - 16 = length-drop 16 bs ∙ omega arith in
          let split : Ready r (front ++ (back ++ rest)) =
            rw (← append_assoc front back rest, take-append-drop 16 bs) ready in
          let next = Ready-skip r front (back ++ rest) split in
          let small' : IsLength (length front) = omega arith in
          let read = read_into-Reads front small' r (back ++ rest) split in
          let read' : read_into 16 r ≡ (ok front, skip r 16) = rw size at read in
          let next' : Ready (skip r 16) (back ++ rest) = rw size at next in
          let test : leb 16 n ≡ true = ground arith in
          let more =
            drain_loop_enough fuel (n - 16) back (skip r 16) rest left (omega arith) (omega arith)
              next' in
          let sum : 16 + (n - 16) ≡ n = omega arith in
          rw (some_left, test, read', sub_ok n 16 many)
            (more ∙ ap (λ q. (ok tt, q)) (skip-skip r 16 (n - 16) ∙ ap (skip r) sum))
      | no few ↦
          let test : leb 16 n ≡ false = ground arith in
          let small' : IsLength (length bs) = omega arith in
          let read = read_into-Reads bs small' r rest ready in
          let read' : read_into n r ≡ (ok bs, skip r n) = rw h at read in
          let next = Ready-skip r bs rest ready in
          let next' : Ready (skip r n) ([] ++ rest) = rw h at next in
          let gone : n - n ≡ 0 = omega arith in
          let more =
            drain_loop_enough fuel 0 [] (skip r n) rest refl (omega arith) (omega arith) next' in
          let sum : n + 0 ≡ n = omega arith in
          rw (some_left, test, read', sub_ok n n (omega arith), gone)
            (more ∙ ap (λ q. (ok tt, q)) (skip-skip r n 0 ∙ ap (skip r) sum))
    ]

-- A reader in front of some bytes, no more than u32::MAX, and any further ones, drains as many as
-- there are of the former and stands behind them.
pub drain_ok :
    (bs : List ℕ)
    → IsLength (length bs)
    → (r : SliceReader) (rest : List ℕ) → Ready r (bs ++ rest)
    → drain (length bs) r ≡ (ok tt, skip r (length bs))
unfolding drain
drain_ok bs small r rest ready =
    drain_loop_enough (length bs) (length bs) bs r rest refl (omega arith) small ready
