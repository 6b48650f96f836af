-- ===== src/Der/Reader/Nested.antt =====
-- `read_nested` of der/src/reader/slice.rs: the callback and its window.
use formats.Common.{
  ℕ, ◌+◌, ◌≤◌, ◌<◌, ◌≡◌, ◌⊎◌, ◌↔◌, refl, sym, ap, ◌∙◌, arith, List, ok, err, length, length-take,
  take, take_all, inl, inr, Result-cases,
}
use formats.Der.Data.{DerResult, Length, Error, nesting_depth, at_position}
use native.Mathlib.Decide.{dec_lt, dec_le}
use formats.Der.Bytes
use formats.Der.Length.{IsLength, add}
use formats.Der.Length.Arithmetic.{add_ok, add-eq_ok}
use formats.Der.Position
use formats.Der.Position.{Position, Resumption}
use formats.Der.Reader.Ready.{IsValid}
use formats.Der.Reader.Keeps.{Keeps, Safe, Keeps-refl, sticky_refl}
use formats.Der.Reader.{SliceReader, Decoder, read_nested, after_nested}

prefix_ok :
    (bytes : List ℕ) (n : Length) {p : List ℕ}
    → Bytes.prefix bytes n ≡ ok p
    → (p ≡ take n bytes) × (n ≤ length bytes)
unfolding Bytes.prefix
prefix_ok bytes n e = ground arith

-- The state in which the callback runs.
abbrev pub window : SliceReader → Length → SliceReader
window r len = record r {
  bytes = take (r.position.position + len) r.bytes;
  position = record r.position {
    input_len = r.position.position + len;
    depth = r.position.depth + 1;
  };
}

after_nested-Keeps {ℓ} :
    {A : Type ℓ} (r : SliceReader) (len : Length) (p : DerResult A × SliceReader)
    → IsValid r
    → r.position.position + len ≤ length r.bytes
    → Keeps (window r len) p.1
    → Keeps r (after_nested r.bytes (record { outer_len = r.position.input_len }) p).1
unfolding Position.resume_nested
after_nested-Keeps r len (ok a, q) v fits k =
    ground (arith, k.forward, k.same_len, k.same_depth, k.valid, k.sticky)
after_nested-Keeps r len (err e, q) v fits k =
    ground (arith, k.forward, k.same_len, k.same_depth, k.valid, k.sticky)

pub window-IsValid :
    (r : SliceReader) (len : Length)
    → IsValid r
    → r.position.position + len ≤ length r.bytes
    → r.position.depth < 64
    → IsValid (window r len)
window-IsValid r len v fits room =
    let cut = length-take (r.position.position + len) r.bytes in
    record {
      inside = omega arith;
      window = omega arith;
      small = omega arith;
      shallow = omega arith;
    }

cut-Keeps :
    (r : SliceReader) (len : Length)
    → IsValid r
    → r.position.position + len ≤ length r.bytes
    → Keeps r (record r { bytes = take (r.position.position + len) r.bytes })
cut-Keeps r len v fits =
    let cut = length-take (r.position.position + len) r.bytes in
    record {
      valid = record {
        inside = omega arith;
        window = omega arith;
        small = v.small;
        shallow = v.shallow;
      };
      same_len = refl;
      same_depth = refl;
      forward = omega arith;
      sticky = sticky_refl r.failed;
    }

split_nested_fits :
    (p : Position) (len : Length)
    → p.depth < 64
    → p.position + len ≤ p.input_len
    → IsLength p.input_len
    → Position.split_nested p len ≡ (
      ok (record { outer_len = p.input_len }),
      record p { input_len = p.position + len; depth = p.depth + 1 },
    )
unfolding Position.split_nested add
split_nested_fits p len h fits small = ground arith

split_nested_deep :
    (p : Position) (len : Length)
    → 64 ≤ p.depth
    → Position.split_nested p len ≡ (err (at_position nesting_depth p.position), p)
unfolding Position.split_nested
split_nested_deep p len h = ground arith

prefix_fits :
    (bytes : List ℕ) (n : Length) → n ≤ length bytes → Bytes.prefix bytes n ≡ ok (take n bytes)
unfolding Bytes.prefix
prefix_fits bytes n h = ground arith

prefix_past :
    (bytes : List ℕ) (n : Length)
    → length bytes < n
    → Bytes.prefix bytes n ≡ err (Position.incomplete_error (Bytes.slice_len bytes))
unfolding Bytes.prefix
prefix_past bytes n h = ground arith

-- Behind the callback, whatever it did.
restored {ℓ} :
    {A : Type ℓ} (bytes : List ℕ) (resumption : Resumption) (p : DerResult A × SliceReader)
    → (after_nested bytes resumption p).1.bytes ≡ bytes
restored bytes resumption (ok a, q) = ground arith
restored bytes resumption (err e, q) = ground arith

whole_window : {depth m n : ℕ} → (depth < 64) ⊎ (m ≤ n) → 64 ≤ depth → m ≤ n
whole_window (inl room) deep = absurd (omega arith)
whole_window (inr h) deep = h

module _ {ℓ} {A : Type ℓ} (f : Decoder A) (r : SliceReader) (len : Length) (v : IsValid r) where
  -- The callback runs in its window exactly where that fits and the nesting is not too deep.
  pub read_nested_enters :
      r.position.position + len ≤ length r.bytes
      → r.position.depth < 64
      → read_nested len f r
        ≡ after_nested r.bytes (record { outer_len = r.position.input_len }) (f (window r len))
  unfolding read_nested
  read_nested_enters fits room = rw (
    add-eq_ok r.position.position len (omega arith),
    prefix_fits r.bytes (r.position.position + len) fits,
    split_nested_fits r.position len room (omega arith) v.small,
    read_nested,
  )

  -- Refused at a depth of 64 or more, behind the cut of the slice.
  pub read_nested_deep :
      r.position.position + len ≤ length r.bytes
      → 64 ≤ r.position.depth
      → read_nested len f r ≡ (
        err (at_position nesting_depth r.position.position),
        record r { bytes = take (r.position.position + len) r.bytes },
      )
  unfolding read_nested
  read_nested_deep fits deep = rw (
    add-eq_ok r.position.position len (omega arith),
    prefix_fits r.bytes (r.position.position + len) fits,
    split_nested_deep r.position len deep,
    read_nested,
  )

  -- A window that passes the end of the slice is an error that changes nothing.
  pub read_nested_past :
      length r.bytes < r.position.position + len → (e : Error) × (read_nested len f r ≡ (err e, r))
  unfolding read_nested
  read_nested_past past = elim (Result-cases (add r.position.position len)) [
    | inl (n, made) ↦ (
      Position.incomplete_error (Bytes.slice_len r.bytes),
      rw (
        made,
        prefix_past r.bytes n (omega (arith, add_ok r.position.position len made)),
        read_nested,
      ),
    )
    | inr (e, made) ↦ (e, rw (made, read_nested))
  ]

  -- A nested read, whatever the callback does, gives the reader its slice back exactly where the depth
  -- is less than 64 or the window does not end in front of the end of the slice: refused for the
  -- depth, with a window that ends before, it leaves the slice cut to the window.
  pub read_nested_restores :
      ((read_nested len f r).1.bytes ≡ r.bytes)
      ↔ ((r.position.depth < 64) ⊎ (length r.bytes ≤ r.position.position + len))
  read_nested_restores = elim (dec_le (r.position.position + len) (length r.bytes)) [
    | no past ↦ (
      λ e. inr (omega arith),
      λ h. let (e, stays) = read_nested_past (omega arith) in rw stays refl,
    )
    | yes fits ↦ elim (dec_lt r.position.depth 64) [
      | yes room ↦ (
        λ e. inl room,
        λ h.
            rw (read_nested_enters fits room)
              (restored r.bytes (record { outer_len = r.position.input_len }) (f (window r len))),
      )
      | no deep ↦
          let left : (read_nested len f r).1.bytes ≡ take (r.position.position + len) r.bytes =
            ap (λ p. p.1.bytes) (read_nested_deep fits (omega arith)) in
          (
            λ e. inr (
                omega (
                  arith,
                  ap length (sym left ∙ e),
                  length-take (r.position.position + len) r.bytes,
                )),
            λ h. left ∙ take_all (r.position.position + len) r.bytes (whole_window h (omega arith)),
          )
    ]
  ]

  -- Where the callback keeps every valid reader, so does a nested read of a valid reader, on all its
  -- branches: the outer window and depth come back.
  pub read_nested-Keeps : Safe f → Keeps r (read_nested len f r).1
  read_nested-Keeps safe = elim (dec_le (r.position.position + len) (length r.bytes)) [
    | no past ↦ let (e, stays) = read_nested_past (omega arith) in rw stays (Keeps-refl r v)
    | yes fits ↦ elim (dec_lt r.position.depth 64) [
      | yes room ↦ rw (read_nested_enters fits room) (
          after_nested-Keeps r len (f (window r len)) v fits
            (safe (window r len) (window-IsValid r len v fits room)))
      | no deep ↦ rw (read_nested_deep fits (omega arith)) (cut-Keeps r len v fits)
    ]
  ]
