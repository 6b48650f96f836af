-- ===== src/Der/Reader/Slices.antt =====
-- `read_slice` and `read_byte`: what they return, and when.
use formats.Common.{
  ℕ, ◌≤◌, ◌≡◌, sym, ap, ◌∙◌, arith, false, List, [], ◌∷◌, ◌++◌, ok, length, take, drop,
  length-append, take_append, take-append-drop, length-take,
}
use formats.Der.Data.{Length}
use formats.Der.Length.{IsLength, new_usize}
use formats.Der.Length.Arithmetic.{new_usize-eq_ok, new_usize_ok}
use formats.Der.Position
use formats.Der.Position.{Position}
use formats.Der.Reader.Ready.{IsValid, Ready, ahead, skip, Reads, Ready-fits, >>=-ok}
use formats.Der.Reader.{SliceReader, first, lift, return, read_slice, read_into, read_byte}

-- A slice of the right length is read whole.
pub read_slice-Reads : (bs : List ℕ) → Reads (read_slice (length bs)) bs bs
unfolding read_slice Position.advance
read_slice-Reads bs r rest h = ground (
  arith,
  h.live,
  h.next,
  take_append bs rest,
  length-append bs rest,
  Ready-fits r bs rest h,
  h.valid.window,
  h.valid.small,
)

read_slice_taken :
    (n : Length) (r : SliceReader) {bs : List ℕ} {r' : SliceReader}
    → IsValid r
    → read_slice n r ≡ (ok bs, r')
    → (r.failed ≡ false) × (n ≤ length (ahead r)) × (bs ≡ take n (ahead r)) × (r' ≡ skip r n)
unfolding read_slice Position.advance
read_slice_taken n r v e = ground arith

-- Where a valid reader reads a slice of length `n`, the slice is the `n` bytes that stand before the
-- reader, which has not failed and moves behind them.
pub read_slice_ok :
    (n : Length) (r : SliceReader) {bs : List ℕ} {r' : SliceReader}
    → IsValid r
    → read_slice n r ≡ (ok bs, r')
    → (rest : List ℕ) × Ready r (bs ++ rest) × (length bs ≡ n) × (r' ≡ skip r n)
read_slice_ok n r {bs} {r'} v e =
    let (live, fits, taken, moved) = read_slice_taken n r v e in
    (
      drop n (ahead r),
      record {
        live = live;
        next = sym (ap (λ xs. xs ++ drop n (ahead r)) taken ∙ take-append-drop n (ahead r));
        valid = v;
      },
      ap length taken ∙ length-take n (ahead r) ∙ omega arith,
      moved,
    )

pub read_byte-Reads : (b : ℕ) → Reads read_byte (b ∷ []) b
unfolding read_byte new_usize
read_byte-Reads b r rest h = rw (read_slice-Reads (b ∷ []) r rest h)

first_ok : (b : ℕ) (bs : List ℕ) → length bs ≡ 1 → first bs ≡ b → bs ≡ b ∷ []
first_ok b [] e h = absurd (omega arith)
first_ok b (c ∷ []) e h = cc
first_ok b (c ∷ d ∷ bs) e h = absurd (omega arith)

pub read_into-Reads : (bs : List ℕ) → IsLength (length bs) → Reads (read_into (length bs)) bs bs
unfolding read_into
read_into-Reads bs small r rest h =
    rw (new_usize-eq_ok (length bs) small) (read_slice-Reads bs r rest h)

pub read_into_ok :
    (n : ℕ) (r : SliceReader) {bs : List ℕ} {r' : SliceReader}
    → IsValid r
    → read_into n r ≡ (ok bs, r')
    → (rest : List ℕ) × Ready r (bs ++ rest) × (length bs ≡ n) × (r' ≡ skip r n)
unfolding read_into
read_into_ok n r {bs} {r'} v e =
    let (m, q, made, read) = >>=-ok (lift (new_usize n)) read_slice r e in
    let same : m ≡ n = (new_usize_ok n (ap (λ p. p.0) made)).0 in
    let stay : q ≡ r = sym (ap (λ p. p.1) made) in
    let read' : read_slice n r ≡ (ok bs, r') = rw (← same, ← stay) read in read_slice_ok n r v read'

-- A byte is read where there is one, and only there.
pub read_byte_ok :
    (r : SliceReader) {b : ℕ} {r' : SliceReader}
    → IsValid r
    → read_byte r ≡ (ok b, r')
    → (rest : List ℕ) × Ready r (b ∷ rest) × (r' ≡ skip r 1)
unfolding read_byte
read_byte_ok r {b} {r'} v e =
    let (bs, q, read, head) = >>=-ok (read_into 1) (λ buf. return (first buf)) r e in
    let (rest, ready, one, moved) = read_into_ok 1 r v read in
    let front : bs ≡ b ∷ [] = first_ok b bs one (ground arith) in
    (rest, rw front at ready, ap (λ p. p.1) (sym head) ∙ moved)
