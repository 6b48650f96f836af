-- ===== src/Der/Reader/Whole.antt =====
-- A reader over a whole message: `SliceReader::new`, `drain` and `finish`.
use formats.Common.{ℕ, ◌≡◌, refl, ◌↔◌, arith, false, List, ok, length}
use formats.Der.Bytes
use formats.Der.Data.{der}
use formats.Der.Length.{IsLength, new_usize}
use formats.Der.Position
use formats.Der.Reader.Ready.{IsValid, Ready}
use formats.Der.Reader.{SliceReader, new, finish}

-- The reader that `new` makes.
abbrev pub start : List ℕ → SliceReader
start bytes = record {
  bytes = bytes;
  encoding_rules = der;
  failed = false;
  position = record { input_len = length bytes; position = 0; depth = 0 };
}

-- A message of up to u32::MAX bytes gets a valid reader in front of all its bytes; a longer one is
-- refused.
pub new-eq_start : (bytes : List ℕ) → IsLength (length bytes) → new bytes ≡ ok (start bytes)
unfolding new Bytes.new new_usize Position.new
new-eq_start bytes h = ground arith

pub start-Ready : (bytes : List ℕ) → IsLength (length bytes) → Ready (start bytes) bytes
start-Ready bytes h = record {
  live = refl;
  next = refl;
  valid = record { inside = omega arith; window = omega arith; small = h; shallow = omega arith };
}

pub new_ok :
    (bytes : List ℕ) {r : SliceReader}
    → new bytes ≡ ok r
    → (r ≡ start bytes) × IsLength (length bytes)
unfolding new Bytes.new new_usize Position.new
new_ok bytes e = ground arith

-- `finish` accepts exactly a reader that has not failed and stands at the end of its input.
pub finish_ok :
    (r : SliceReader)
    → IsValid r
    → finish r ≡ ok tt
    → (r.failed ≡ false) × (r.position.position ≡ r.position.input_len)
unfolding finish Position.remaining_len
finish_ok r v e = ground arith

pub finish_end :
    (r : SliceReader)
    → r.failed ≡ false
    → r.position.position ≡ r.position.input_len
    → finish r ≡ ok tt
unfolding finish Position.remaining_len
finish_end r live done = ground arith

-- `finish` of a valid reader succeeds exactly where it has not failed and stands at the end of its
-- input.
pub finish_iff :
    (r : SliceReader)
    → IsValid r
    → (finish r ≡ ok tt) ↔ ((r.failed ≡ false) × (r.position.position ≡ r.position.input_len))
finish_iff r v = (finish_ok r v, λ (live, done). finish_end r live done)
