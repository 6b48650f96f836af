-- ===== src/Der/Writer/Room.antt =====
-- A writer with room for what is written, and what writing does to it.
use formats.Common.{
  ℕ, ◌+◌, ◌≤◌, ◌≡◌, sym, ap, ◌∙◌, arith, false, List, [], ◌∷◌, ◌++◌, ok, length, take, drop,
  length-append, length-take, length-drop, append_assoc, take_append, drop_append, drop-drop_add,
  take-append-drop,
}
use formats.Der.Length.{IsLength, add, new_usize}
use formats.Der.Writer.{SliceWriter, Encoder, ◌>>◌, return, write, write_byte, finish}

-- The bytes written so far.
abbrev pub written : SliceWriter → List ℕ
written w = take w.position w.bytes

-- A live writer with `n` bytes of room.
pub record HasRoom (w : SliceWriter) (n : ℕ) : Type 0 where
  pub live : w.failed ≡ false
  pub room : w.position + n ≤ length w.bytes
  pub small : IsLength (length w.bytes)

-- The writer that has written the bytes `bs` more.
abbrev pub put : SliceWriter → List ℕ → SliceWriter
put w bs = record w {
  bytes = take w.position w.bytes ++ (bs ++ drop (w.position + length bs) w.bytes);
  position = w.position + length bs;
}

-- `m` writes exactly the bytes `bs`.
abbrev pub Writes : Encoder (Unit {0}) → List ℕ → Type 0
Writes m bs = (w : SliceWriter) → HasRoom w (length bs) → m w ≡ (ok tt, put w bs)

pub write-Writes : (bs : List ℕ) → Writes (write bs) bs
unfolding write new_usize add
write-Writes bs w h = ground (arith, h.live, h.room, h.small)

module _ {ℓ} {A : Type ℓ} where
  take-append_eq : (n : ℕ) (xs ys : List A) → length xs ≡ n → take n (xs ++ ys) ≡ xs
  take-append_eq n xs ys h = ap (λ k. take k (xs ++ ys)) (sym h) ∙ take_append xs ys

  drop-append_add : (n m : ℕ) (xs ys : List A) → length xs ≡ n → drop (n + m) (xs ++ ys) ≡ drop m ys
  drop-append_add n m xs ys h =
      sym (drop-drop_add n m (xs ++ ys))
      ∙ ap (λ k. drop m (drop k (xs ++ ys))) (sym h)
      ∙ ap (drop m) (drop_append xs ys)

module _ (w : SliceWriter) (bs : List ℕ) (fits : w.position + length bs ≤ length w.bytes) where
  length_written : length (written w) ≡ w.position
  length_written = length-take w.position w.bytes ∙ omega arith

  length_front : length (written w ++ bs) ≡ w.position + length bs
  length_front = length-append (written w) bs ∙ omega (arith, length_written)

  -- What was written stays, and the new bytes stand behind it.
  pub written-put : written (put w bs) ≡ written w ++ bs
  written-put =
      ap (take (w.position + length bs)) (sym (append_assoc (written w) bs _))
      ∙ take-append_eq (w.position + length bs) (written w ++ bs) _ length_front

  pub length-put : length (put w bs).bytes ≡ length w.bytes
  length-put = omega (
    arith,
    length-append (written w) (bs ++ drop (w.position + length bs) w.bytes),
    length-append bs (drop (w.position + length bs) w.bytes),
    length_written,
    length-drop (w.position + length bs) w.bytes,
  )

  -- The bytes behind the new ones are untouched.
  drop-put :
      (m : ℕ)
      → drop (w.position + length bs + m) (put w bs).bytes
        ≡ drop (w.position + length bs + m) w.bytes
  drop-put m =
      ap (drop (w.position + length bs + m)) (sym (append_assoc (written w) bs _))
      ∙ drop-append_add (w.position + length bs) m (written w ++ bs) _ length_front
      ∙ drop-drop_add (w.position + length bs) m w.bytes

  pub put-put : (cs : List ℕ) → put (put w bs) cs ≡ put w (bs ++ cs)
  put-put cs =
      let far : w.position + length bs + length cs ≡ w.position + length (bs ++ cs) =
        omega (arith, length-append bs cs) in
      let tail = drop (w.position + length bs + length cs) w.bytes in
      let body : (put (put w bs) cs).bytes ≡ (put w (bs ++ cs)).bytes =
        ap (λ front. front ++ (cs ++ drop (w.position + length bs + length cs) (put w bs).bytes))
          written-put
        ∙ ap (λ rest. (written w ++ bs) ++ (cs ++ rest)) (drop-put (length cs))
        ∙ append_assoc (written w) bs (cs ++ tail)
        ∙ ap (λ rest. written w ++ rest) (sym (append_assoc bs cs tail))
        ∙ ap (λ k. written w ++ ((bs ++ cs) ++ drop k w.bytes)) far in
      λ i. record { bytes = body i; failed = w.failed; position = far i }

  pub HasRoom-put : (n : ℕ) → HasRoom w (length bs + n) → HasRoom (put w bs) n
  HasRoom-put n h = record {
    live = h.live;
    room = omega (arith, length-put);
    small = rw length-put h.small;
  }

pub Writes-then :
    (m k : Encoder (Unit {0})) (bs cs : List ℕ)
    → Writes m bs
    → Writes k cs
    → Writes (m >> k) (bs ++ cs)
Writes-then m k bs cs h g w room =
    let whole : HasRoom w (length bs + length cs) = record {
      live = room.live;
      room = omega (arith, length-append bs cs);
      small = room.small;
    } in
    let fits : w.position + length bs ≤ length w.bytes = omega arith in
    rw (h w (record { live = room.live; room = fits; small = room.small })) (
      g (put w bs) (HasRoom-put w bs fits (length cs) whole)
      ∙ ap (λ v. (ok tt, v)) (put-put w bs fits cs))

pub return-Writes : Writes (return tt) []
return-Writes w h =
    let here : w.position ≡ w.position + 0 = omega arith in
    let same : w.bytes ≡ written w ++ drop (w.position + 0) w.bytes =
      sym (take-append-drop w.position w.bytes) ∙ ap (λ k. written w ++ drop k w.bytes) here in
    λ i. (ok tt, record { bytes = same i; failed = w.failed; position = here i })

pub write_byte-Writes : (b : ℕ) → Writes (write_byte b) (b ∷ [])
unfolding write_byte
write_byte-Writes b = write-Writes (b ∷ [])

-- The written part is what `finish` returns.
pub finish-written : (w : SliceWriter) → HasRoom w 0 → finish w ≡ ok (written w)
unfolding finish
finish-written w h = ground (arith, h.live, h.room)
