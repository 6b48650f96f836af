-- ===== src/Der/Reader.antt =====
-- der/src/reader.rs and der/src/reader/slice.rs: the `Reader` trait at `SliceReader`. A method by
-- `&mut self` takes the reader and returns its result with the reader's new state, which an error
-- leaves as the code left it. `usize` is at least as wide as u32, so those conversions succeed.
pub mod Ready
pub mod Slices
pub mod Keeps
pub mod Nested
pub mod Nesting
pub mod Whole
pub mod Draining
use formats.Common.{
  ℕ, zero, suc, ◌+◌, ◌-◌, Bool, true, false, not, ◌&&◌, Option, none, some, List, [], ◌∷◌, ok, err,
  and_then, leb, ◌==◌, if◌then◌else◌, length, take, drop,
}
use formats.Der.Bytes
use formats.Der.Data.{
  Length, ErrorKind, Error, EncodingRules, der, failed, incomplete, trailing_data, at_position,
  DerResult,
}
use formats.Der.Length.{add, sub, new_usize}
use formats.Der.Position
use formats.Der.Position.{Position, Resumption, incomplete_error}

pub record SliceReader : Type 0 where
  pub bytes : List ℕ
  pub encoding_rules : EncodingRules
  pub failed : Bool
  pub position : Position

-- A method by `&mut self` with the result `Result<A, Error>`.
abbrev pub Decoder {ℓ} : Type ℓ → Type ℓ
Decoder A = SliceReader → DerResult A × SliceReader

-- What follows a `?` runs in the state that the call left.
abbrev pub continue {ℓ κ} :
    {A : Type ℓ} {B : Type κ}
    → DerResult A × SliceReader
    → (A → Decoder B)
    → DerResult B × SliceReader
continue (ok a, r) f = f a r
continue (err e, r) f = (err e, r)

infixl 5 ◌>>=◌
abbrev pub ◌>>=◌ {ℓ κ} : {A : Type ℓ} {B : Type κ} → Decoder A → (A → Decoder B) → Decoder B
◌>>=◌ m f r = continue (m r) f

abbrev pub return {ℓ} : {A : Type ℓ} → A → Decoder A
return a r = (ok a, r)

abbrev pub lift {ℓ} : {A : Type ℓ} → DerResult A → Decoder A
lift res r = (res, r)

-- `SliceReader::new_with_encoding_rules`
unfoldable pub new_with_encoding_rules : List ℕ → EncodingRules → DerResult SliceReader
new_with_encoding_rules bytes rules = and_then (Bytes.new bytes) (λ b.
    and_then (new_usize (length bytes)) (λ n.
      ok (record { bytes = b; encoding_rules = rules; failed = false; position = Position.new n })))

unfoldable pub new : List ℕ → DerResult SliceReader
unfolding new_with_encoding_rules
new bytes = new_with_encoding_rules bytes der

-- `Err(reader.error(kind))`: the reader is marked as failed.
abbrev pub error {ℓ} : {A : Type ℓ} → ErrorKind → Decoder A
error kind r = (err (at_position kind r.position.position), record r { failed = true })

unfoldable pub input_len : SliceReader → Length
input_len r = Bytes.slice_len r.bytes

unfoldable pub remaining : SliceReader → DerResult (List ℕ)
unfolding input_len
remaining r =
    if r.failed
    then err (at_position failed r.position.position)
    else if leb r.position.position (length r.bytes)
    then ok (drop r.position.position r.bytes)
    else err (incomplete_error (input_len r))

unfoldable pub remaining_len : SliceReader → Length
remaining_len r = Position.remaining_len r.position

unfoldable pub is_finished : SliceReader → Bool
unfolding remaining_len
is_finished r = remaining_len r == 0

-- The `Some` arm and the `None` arm of `read_slice`.
abbrev advanced :
    List ℕ → SliceReader → DerResult Length × Position → DerResult (List ℕ) × SliceReader
advanced slice r (ok _, p) = (ok slice, record r { position = p })
advanced slice r (err e, p) = (err e, record r { position = p })

abbrev past_end : DerResult Length → Decoder (List ℕ)
past_end (ok expected_len) r = error (incomplete expected_len (input_len r)) r
past_end (err e) r = (err e, r)

abbrev read_from : DerResult (List ℕ) → Length → Decoder (List ℕ)
read_from (err e) len r = (err e, r)
read_from (ok rest) len r =
    if leb len (length rest)
    then advanced (take len rest) r (Position.advance r.position len)
    else past_end (add r.position.position len) r

unfoldable pub read_slice : Length → Decoder (List ℕ)
unfolding remaining
read_slice len r = if r.failed then error failed r else read_from (remaining r) len r

-- The buffer of `n` bytes is given by its length and returned filled.
unfoldable pub read_into : ℕ → Decoder (List ℕ)
read_into n = do len ← lift (new_usize n); read_slice len

-- `buf[0]` of the buffer `[0]` into which the slice was copied.
abbrev first : List ℕ → ℕ
first [] = 0
first (b ∷ _) = b

unfoldable pub read_byte : Decoder ℕ
unfolding read_into
read_byte = do buf ← read_into 1; return (first buf)

unfoldable pub read_vec : Length → Decoder (List ℕ)
unfolding read_into
read_vec len = read_into len

-- The reader is a clone, so its new state is dropped.
unfoldable pub peek_byte : SliceReader → Option ℕ
peek_byte r = elim (read_byte r).0 [ ok b ↦ some b | err _ ↦ none ]

-- `drain`: 16 bytes a round, the last round what is left. The fuel bounds the rounds.
drain_loop : ℕ → Length → Decoder (Unit {0})
drain_loop zero amount = return tt
drain_loop (suc fuel) amount =
    let nbytes = if leb 16 amount then 16 else amount in
    let more : Decoder (Unit {0}) = do
      _ ← read_into nbytes
      left ← lift (sub amount nbytes)
      drain_loop fuel left
    in if amount == 0 then return tt else more

unfoldable pub drain : Length → Decoder (Unit {0})
unfolding drain_loop
drain amount = drain_loop amount amount

-- What `read_nested` does once the callback has returned.
abbrev after_nested {ℓ} :
    {A : Type ℓ} → List ℕ → Resumption → DerResult A × SliceReader → DerResult A × SliceReader
after_nested bytes resumption (ok a, r) =
    let outer = record r {
      bytes = bytes;
      position = Position.resume_nested r.position resumption;
    } in
    if not (is_finished r)
    then error (trailing_data r.position.position (remaining_len r)) outer
    else (ok a, outer)
after_nested bytes resumption (err e, r) =
    (err e, record r { bytes = bytes; position = Position.resume_nested r.position resumption })

-- `read_nested` with `self.bytes` cut to the prefix.
abbrev enter_nested {ℓ} :
    {A : Type ℓ}
    → Decoder A
    → List ℕ
    → SliceReader
    → DerResult Resumption × Position
    → DerResult A × SliceReader
enter_nested f prefix r (err e, p) = (err e, record r { bytes = prefix; position = p })
enter_nested f prefix r (ok resumption, p) =
    after_nested r.bytes resumption (f (record r { bytes = prefix; position = p }))

unfoldable pub read_nested {ℓ} : {A : Type ℓ} → Length → Decoder A → Decoder A
unfolding is_finished
read_nested len f r = elim (add r.position.position len) [
  | err e ↦ (err e, r)
  | ok prefix_len ↦ elim (Bytes.prefix r.bytes prefix_len) [
    | err e ↦ (err e, r)
    | ok prefix ↦ enter_nested f prefix r (Position.split_nested r.position len)
  ]
]

-- `SliceReader::decode`: an error of the decoder marks the reader as failed.
abbrev mark_failed {ℓ} : {A : Type ℓ} → DerResult A × SliceReader → DerResult A × SliceReader
mark_failed (ok a, r) = (ok a, r)
mark_failed (err e, r) = (err e, record r { failed = true })

unfoldable pub decode {ℓ} : {A : Type ℓ} → Decoder A → Decoder A
decode m r = if r.failed then error failed r else mark_failed (m r)

unfoldable pub finish : SliceReader → DerResult (Unit {0})
unfolding is_finished
finish r =
    if r.failed
    then err (at_position failed r.position.position)
    else if not (is_finished r)
    then err (at_position (trailing_data r.position.position (remaining_len r)) r.position.position)
    else ok tt
