-- ===== src/Der/Reader/Nesting.antt =====
-- What a successful `read_nested` did, and when it succeeds.
use formats.Common.{
  ℕ, ◌+◌, ◌≤◌, ◌<◌, ◌≡◌, sym, ap, ◌∙◌, arith, List, [], ◌++◌, ok, err, length, take, take_append,
  append-nil, drop-take_add,
}
use native.Mathlib.Decide.{dec_lt, dec_le}
use formats.Der.Data.{DerResult, Length}
use formats.Der.Position
use formats.Der.Reader.Ready.{IsValid, Ready, skip, Reads, Ready-fits}
use formats.Der.Reader.Keeps.{Keeps, Safe}
use formats.Der.Reader.Nested.{
  window, window-IsValid, read_nested_enters, read_nested_deep, read_nested_past,
}
use formats.Der.Reader.{SliceReader, Decoder, read_nested, after_nested, is_finished}

after_nested_ok {ℓ} :
    {A : Type ℓ} (r : SliceReader) (len : Length) (p : DerResult A × SliceReader) {a : A}
    {r' : SliceReader}
    → IsValid r
    → r.position.position + len ≤ length r.bytes
    → Keeps (window r len) p.1
    → after_nested r.bytes (record { outer_len = r.position.input_len }) p ≡ (ok a, r')
    → (p.0 ≡ ok a)
      × (p.1.position.position ≡ r.position.position + len)
      × (r'.position.position ≡ r.position.position + len)
      × (r'.bytes ≡ r.bytes)
unfolding is_finished Position.resume_nested Position.remaining_len
after_nested_ok r len (ok a, q) v fits k e =
    ground (arith, k.forward, k.same_len, k.valid.inside, k.valid.window)
after_nested_ok r len (err x, q) v fits k e = cc

module _ {ℓ} {A : Type ℓ} (f : Decoder A) (r : SliceReader) (len : Length) (v : IsValid r) where
  -- Where the callback keeps every valid reader and a nested read of a valid reader succeeds, the
  -- callback succeeded in its window with the same result and stood at the window's end, and the
  -- reader stands there with the outer slice.
  pub read_nested_ok :
      Safe f
      → {a : A} {r' : SliceReader} → read_nested len f r ≡ (ok a, r')
      → ((f (window r len)).0 ≡ ok a)
        × ((f (window r len)).1.position.position ≡ r.position.position + len)
        × (r'.position.position ≡ r.position.position + len)
        × (r'.bytes ≡ r.bytes)
  read_nested_ok safe {a} {r'} e = elim (dec_le (r.position.position + len) (length r.bytes)) [
    | no past ↦ let (x, stays) = read_nested_past f r len v (omega arith) in cc (sym stays ∙ e)
    | yes fits ↦ elim (dec_lt r.position.depth 64) [
      | no deep ↦ cc (sym (read_nested_deep f r len v fits (omega arith)) ∙ e)
      | yes room ↦
          after_nested_ok r len (f (window r len)) v fits
            (safe (window r len) (window-IsValid r len v fits room))
            (sym (read_nested_enters f r len v fits room) ∙ e)
    ]
  ]

-- A nested read that succeeds had room for its window.
pub read_nested_fits {ℓ} :
    {A : Type ℓ} (f : Decoder A) (r : SliceReader) (len : Length) {a : A} {r' : SliceReader}
    → IsValid r
    → read_nested len f r ≡ (ok a, r')
    → (r.position.position + len ≤ length r.bytes) × (r.position.depth < 64)
read_nested_fits f r len v e = elim (dec_le (r.position.position + len) (length r.bytes)) [
  | no past ↦ let (x, stays) = read_nested_past f r len v (omega arith) in cc (sym stays ∙ e)
  | yes fits ↦ elim (dec_lt r.position.depth 64) [
    | no deep ↦ cc (sym (read_nested_deep f r len v fits (omega arith)) ∙ e)
    | yes room ↦ (fits, room)
  ]
]

-- In front of what the callback reads, a nested read of that length returns what it returns.
pub read_nested-Reads {ℓ} :
    {A : Type ℓ} (f : Decoder A) (bs : List ℕ) (a : A)
    → Reads f bs a
    → (r : SliceReader) (rest : List ℕ) → Ready r (bs ++ rest)
    → r.position.depth < 64
    → read_nested (length bs) f r ≡ (ok a, skip r (length bs))
unfolding is_finished Position.resume_nested Position.remaining_len
read_nested-Reads f bs a reads r rest h room =
    let fits : r.position.position + length bs ≤ length r.bytes =
      omega (arith, Ready-fits r bs rest h) in
    let w : SliceReader = window r (length bs) in
    let ready : Ready w (bs ++ []) = record {
      live = h.live;
      next =
          drop-take_add r.position.position (length bs) r.bytes
          ∙ ap (take (length bs)) h.next
          ∙ take_append bs rest
          ∙ sym (append-nil bs);
      valid = window-IsValid r (length bs) h.valid fits room;
    } in
    read_nested_enters f r (length bs) h.valid fits room ∙ rw (reads w [] ready) (ground arith)
