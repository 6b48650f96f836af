-- ===== src/Oid/Parser.antt =====
-- const-oid/src/parser.rs: object identifiers from text, arcs in decimal with dots between them.
pub mod Decimal
pub mod Text
use formats.Common.{
  ℕ, zero, suc, ◌+◌, ◌-◌, ◌*◌, ◌/◌, ◌%◌, ◌^◌, Bool, true, false, ◌&&◌, Option, none, some, List, [],
  ◌∷◌, ok, err, leb, ◌==◌, if◌then◌else◌,
}
use formats.Oid.Data.{
  Arc, OidResult, ◌>>=◌, arc_too_big, digit_expected, empty, repeated_dot, trailing_dot,
  checked_add, checked_mul, Buffer,
}
use formats.Oid.Encoder.{Encoder, encoder_new, push, encoder_finish}

pub record Parser : Type 0 where
  pub current_arc : Option Arc
  pub encoder : Encoder

unfoldable pub is_digit : ℕ → Bool
is_digit byte = leb b'0' byte && leb byte b'9'

abbrev is_empty : List ℕ → Bool
is_empty [] = true
is_empty (b ∷ bs) = false

abbrev arc_or_zero : Option Arc → Arc
arc_or_zero none = 0
arc_or_zero (some arc) = arc

-- The arc with one digit more, where that is a u32.
unfoldable pub push_digit : Arc → ℕ → Option Arc
push_digit arc digit = elim (checked_mul arc 10) [
  | none ↦ none
  | some tens ↦ checked_add tens digit
]

-- The arm of a digit; `more` is the parser on the remaining bytes.
abbrev after_digit : (Option Arc → OidResult Parser) → Option Arc → OidResult Parser
after_digit more none = err arc_too_big
after_digit more (some arc) = more (some arc)

-- The arm of a dot.
abbrev after_dot : (Encoder → OidResult Parser) → Bool → Option Arc → Encoder → OidResult Parser
after_dot more ends none e = err repeated_dot
after_dot more true (some arc) e = err trailing_dot
after_dot more false (some arc) e = push e arc >>= more

-- The arm of the end.
abbrev at_end : Option Arc → Encoder → OidResult Parser
at_end none e = err trailing_dot
at_end (some arc) e = push e arc >>= λ e'. ok (record { current_arc = some arc; encoder = e' })

-- The parts of the parser are given apart.
pub parse_bytes : List ℕ → Option Arc → Encoder → OidResult Parser
parse_bytes [] current e = at_end current e
parse_bytes (byte ∷ remaining) current e =
    if is_digit byte
    then after_digit (λ arc. parse_bytes remaining arc e)
        (push_digit (arc_or_zero current) (byte - b'0'))
    else if byte == b'.'
    then after_dot (parse_bytes remaining none) (is_empty remaining) current e
    else err (digit_expected byte)

-- The buffer of the parser's encoder has the default size.
abbrev pub default_max_size : ℕ
default_max_size = 39

abbrev parse_text : List ℕ → OidResult Parser
parse_text [] = err empty
parse_text (actual ∷ remaining) =
    let parsed = parse_bytes (actual ∷ remaining) none (encoder_new default_max_size) in
    if is_digit actual then parsed else err (digit_expected actual)

unfoldable pub parse : List ℕ → OidResult Parser
unfolding parse_bytes is_digit push_digit
parse s = parse_text s

unfoldable pub parser_finish : Parser → OidResult Buffer
unfolding encoder_finish
parser_finish p = encoder_finish p.encoder
