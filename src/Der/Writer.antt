-- ===== src/Der/Writer.antt =====
-- der/src/writer.rs and der/src/writer/slice.rs: the `Writer` trait at `SliceWriter`.
pub mod Room
use formats.Common.{
  ℕ, ◌+◌, Bool, true, false, List, [], ◌∷◌, ◌++◌, ok, err, leb, if◌then◌else◌, length, take, drop,
  ◌==◌, Option, some, none,
}
use formats.Der.Data.{
  Length, ErrorKind, Error, failed, overflow, overlength, at_position, DerResult,
}
use formats.Der.Length.{add, new_usize}

-- `bytes` is the buffer that is written to.
pub record SliceWriter : Type 0 where
  pub bytes : List ℕ
  pub failed : Bool
  pub position : Length

abbrev pub Encoder {ℓ} : Type ℓ → Type ℓ
Encoder A = SliceWriter → DerResult A × SliceWriter

abbrev pub continue {ℓ κ} :
    {A : Type ℓ} {B : Type κ}
    → DerResult A × SliceWriter
    → (A → Encoder B)
    → DerResult B × SliceWriter
continue (ok a, w) f = f a w
continue (err e, w) f = (err e, w)

infixl 5 ◌>>=◌ ◌>>◌
abbrev pub ◌>>=◌ {ℓ κ} : {A : Type ℓ} {B : Type κ} → Encoder A → (A → Encoder B) → Encoder B
◌>>=◌ m f w = continue (m w) f

abbrev pub ◌>>◌ {ℓ} : {B : Type ℓ} → Encoder (Unit {0}) → Encoder B → Encoder B
m >> k = m >>= λ _. k

abbrev pub return {ℓ} : {A : Type ℓ} → A → Encoder A
return a w = (ok a, w)

abbrev pub lift {ℓ} : {A : Type ℓ} → DerResult A → Encoder A
lift res w = (res, w)

unfoldable pub new : List ℕ → SliceWriter
new bytes = record { bytes = bytes; failed = false; position = 0 }

-- `self.error(kind)`: the writer is marked as failed.
abbrev pub error {ℓ} : {A : Type ℓ} → ErrorKind → Encoder A
error kind w = (err (at_position kind w.position), record w { failed = true })

-- The end of the reserved slice: `get_mut(position..end)`, and the new position.
abbrev claim : DerResult Length → Encoder Length
claim (ok end) w =
    if leb end (length w.bytes)
    then (ok w.position, record w { position = end })
    else (err (at_position overlength end), w)
claim (err e) w = error e.kind w

abbrev claim_len : DerResult Length → Encoder Length
claim_len (ok len) w = claim (add w.position len) w
claim_len (err _) w = error overflow w

-- `reserve`: the result is where the reserved slice begins.
unfoldable pub reserve : ℕ → Encoder Length
reserve len w =
    if w.failed then (err (at_position failed w.position), w) else claim_len (new_usize len) w

-- `copy_from_slice` into the buffer from `start` on.
unfoldable pub copy_from_slice : ℕ → List ℕ → Encoder (Unit {0})
copy_from_slice start slice w = (
  ok tt,
  record w { bytes = take start w.bytes ++ (slice ++ drop (start + length slice) w.bytes) },
)

unfoldable pub write : List ℕ → Encoder (Unit {0})
unfolding reserve copy_from_slice
write slice = do start ← reserve (length slice); copy_from_slice start slice

unfoldable pub write_byte : ℕ → Encoder (Unit {0})
write_byte byte = write (byte ∷ [])

-- `Error::nested`
abbrev nested : Error → Length → Error
nested e at =
    let sum = add at (elim e.position [ none ↦ 0 | some p ↦ p ]) in
    record { kind = e.kind; position = elim sum [ ok p ↦ some p | err _ ↦ none ] }

abbrev mark_failed : DerResult (Unit {0}) × SliceWriter → DerResult (Unit {0}) × SliceWriter
mark_failed (ok a, w) = (ok a, w)
mark_failed (err e, w) = (err (nested e w.position), record w { failed = true })

-- `SliceWriter::encode`
unfoldable pub encode : Encoder (Unit {0}) → Encoder (Unit {0})
encode m w = if w.failed then error failed w else mark_failed (m w)

-- `finish`: the written part of the buffer.
unfoldable pub finish : SliceWriter → DerResult (List ℕ)
finish w =
    if w.failed
    then err (at_position failed w.position)
    else if leb w.position (length w.bytes)
    then ok (take w.position w.bytes)
    else err (at_position overlength w.position)
