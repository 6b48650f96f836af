-- ===== src/Der/Data.antt =====
-- der/src/tag.rs, der/src/tag/class.rs, der/src/error.rs, der/src/encoding_rules.rs: the data that
-- the decoders and encoders share, in the crate's default configuration (no `ber`, no `std`).
-- A `Length` is its inner u32 and a `TagNumber` its u32, each a natural number.
use native.Mathlib.Decide.{ℕ_discrete}
use formats.Common.{ℕ, ◌/◌, ◌%◌, Bool, true, false, Option, none, some, Result, ◌==◌, if◌then◌else◌}

abbrev pub Length : Type 0
Length = ℕ

abbrev pub TagNumber : Type 0
TagNumber = ℕ

pub data Class : Type 0 where
  universal application context_specific private : Class

pub data Tag : Type 0 where
  boolean integer bit_string octet_string null object_identifier real enumerated : Tag
  utf8_string relative_oid sequence set_tag numeric_string printable_string teletex_string : Tag
  videotex_string ia5_string utc_time generalized_time visible_string general_string : Tag
  bmp_string : Tag
  application_tag : (constructed : Bool) (number : TagNumber) → Tag
  context_specific_tag : (constructed : Bool) (number : TagNumber) → Tag
  private_tag : (constructed : Bool) (number : TagNumber) → Tag

pub data EncodingRules : Type 0 where
  der : EncodingRules

-- `utf8` carries the two numbers of a `core::str::Utf8Error`.
pub data ErrorKind : Type 0 where
  date_time encoding_rules failed indefinite_length nesting_depth oid_malformed : ErrorKind
  set_duplicate set_ordering overflow overlength reader tag_mode_unknown : ErrorKind
  tag_number_invalid : ErrorKind
  incomplete : (expected_len actual_len : Length) → ErrorKind
  length : Tag → ErrorKind
  noncanonical : Tag → ErrorKind
  tag_unexpected : (expected : Option Tag) (actual : Tag) → ErrorKind
  tag_unknown : (byte : ℕ) → ErrorKind
  trailing_data : (decoded remaining : Length) → ErrorKind
  utf8 : (valid_up_to : ℕ) (error_len : Option ℕ) → ErrorKind
  value : Tag → ErrorKind

pub record Error : Type 0 where
  pub kind : ErrorKind
  pub position : Option Length

-- `ErrorKind::at` and `Error::from_kind`.
abbrev pub at_position : ErrorKind → Length → Error
at_position kind position = record { kind = kind; position = some position }

abbrev pub from_kind : ErrorKind → Error
from_kind kind = record { kind = kind; position = none }

abbrev pub DerResult {ℓ} : Type ℓ → Type ℓ
DerResult A = Result A Error

unfoldable pub class : Tag → Class
class (application_tag _ _) = application
class (context_specific_tag _ _) = context_specific
class (private_tag _ _) = private
class _ = universal

unfoldable pub number : Tag → TagNumber
number boolean = 1
number integer = 2
number bit_string = 3
number octet_string = 4
number null = 5
number object_identifier = 6
number real = 9
number enumerated = 10
number utf8_string = 12
number relative_oid = 13
number sequence = 16
number set_tag = 17
number numeric_string = 18
number printable_string = 19
number teletex_string = 20
number videotex_string = 21
number ia5_string = 22
number utc_time = 23
number generalized_time = 24
number visible_string = 26
number general_string = 27
number bmp_string = 30
number (application_tag _ n) = n
number (context_specific_tag _ n) = n
number (private_tag _ n) = n

unfoldable pub is_constructed : Tag → Bool
is_constructed sequence = true
is_constructed set_tag = true
is_constructed (application_tag c _) = c
is_constructed (context_specific_tag c _) = c
is_constructed (private_tag c _) = c
is_constructed _ = false

-- The discriminant of a class, `Class::bits`.
unfoldable pub bits : Class → ℕ
bits universal = 0b00000000
bits application = 0b01000000
bits context_specific = 0b10000000
bits private = 0b11000000

-- The `_` arm, which the mask makes unreachable, stands with the last class.
unfoldable pub from_bits : ℕ → Class
from_bits b =
    let top = b / 64 % 4 in
    if top == 0
    then universal
    else if top == 1
    then application
    else if top == 2
    then context_specific
    else private

pub Class-discrete : Discrete Class
Class-discrete = hlevel

unfoldable pub Tag-discrete : Discrete Tag
Tag-discrete = hlevel ℕ_discrete
