-- ===== src/Der/Position.antt =====
-- der/src/reader/position.rs: the position in a message and its nesting. A method by `&mut self`
-- returns its result with the new state.
use formats.Common.{ℕ, ◌+◌, ◌-◌, ok, err, ltb, leb, if◌then◌else◌}
use formats.Der.Data.{Length, Error, incomplete, nesting_depth, at_position, DerResult}
use formats.Der.Length.{add, saturating_sub}

pub record Position : Type 0 where
  pub input_len : Length
  pub position : Length
  pub depth : ℕ

-- `Resumption`: what `resume_nested` restores.
pub record Resumption : Type 0 where
  pub outer_len : Length

abbrev pub max_depth : ℕ
max_depth = 64

-- `Error::incomplete`
unfoldable pub incomplete_error : Length → Error
incomplete_error actual_len = elim (add actual_len 1) [
  | ok expected_len ↦ at_position (incomplete expected_len actual_len) actual_len
  | err e ↦ at_position e.kind actual_len
]

unfoldable pub new : Length → Position
new input_len = record { input_len = input_len; position = 0; depth = 0 }

unfoldable pub advance : Position → Length → DerResult Length × Position
unfolding add
advance p amount = elim (add p.position amount) [
  | err e ↦ (err e, p)
  | ok new_position ↦
      if ltb p.input_len new_position
      then (err (at_position (incomplete new_position p.input_len) p.position), p)
      else (ok new_position, record p { position = new_position })
]

unfoldable pub remaining_len : Position → Length
unfolding saturating_sub
remaining_len p = saturating_sub p.input_len p.position

-- The part of `split_nested` behind the depth test, at the new depth. (`usize` does not overflow:
-- the depth is at most 64.)
split_window : Position → Length → DerResult Resumption × Position
unfolding add incomplete_error
split_window p len = elim (add p.position len) [
  | err e ↦ (err e, p)
  | ok nested_input_len ↦
      if ltb p.input_len nested_input_len
      then (err (incomplete_error p.input_len), p)
      else (ok (record { outer_len = p.input_len }), record p { input_len = nested_input_len })
]

unfoldable pub split_nested : Position → Length → DerResult Resumption × Position
unfolding split_window
split_nested p len =
    if leb (p.depth + 1) max_depth
    then split_window (record p { depth = p.depth + 1 }) len
    else (err (at_position nesting_depth p.position), p)

unfoldable pub resume_nested : Position → Resumption → Position
resume_nested p r = record p { input_len = r.outer_len; depth = p.depth - 1 }
