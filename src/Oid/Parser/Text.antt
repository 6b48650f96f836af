-- ===== src/Oid/Parser/Text.antt =====
-- const-oid/src/parser.rs on the text that `Display` in const-oid/src/lib.rs writes.
use formats.Common.{
  ℕ, ◌≡◌, ◌≢◌, refl, sym, ap, ◌∙◌, arith, false, none, some, List, [], ◌∷◌, ◌++◌, append-nil,
  Result-cases, inl, inr, ok, All,
}
use formats.Oid.Data.{Arc, ◌>>=◌, >>=_assoc, >>=_same, Buffer}
use formats.Oid.Encoder.{Encoder, encoder_new, push, encoder_finish}
use formats.Oid.Parser.{is_digit, parse_bytes, parse, parser_finish, default_max_size}
use formats.Oid.Identifier.{
  oid_new, push_all, encode_arcs, from_arcs, decimal, dotted, oid_arcs, oid_display,
}
use formats.Oid.Identifier.Encoding.{encoding, encode_arcs-encoding}
use formats.Oid.Identifier.RoundTrip.{IsArc, from_bytes-encode_arcs}
use formats.Oid.Parser.Decimal.{parse_decimal, Digits, decimal-Digits}

dotted-Digits : (arc : Arc) (arcs : List Arc) → IsArc arc → Digits (dotted (arc ∷ arcs))
dotted-Digits arc [] h = decimal-Digits 9 arc (omega arith)
dotted-Digits arc (next ∷ arcs) h =
    let d = decimal-Digits 9 arc (omega arith) in
    record {
      first = d.first;
      others = d.others ++ (b'.' ∷ dotted (next ∷ arcs));
      is = ap (λ t. t ++ (b'.' ∷ dotted (next ∷ arcs))) d.is;
      digit = d.digit;
    }

not-digit_dot : is_digit b'.' ≡ false
unfolding is_digit
not-digit_dot = refl

parse_dot :
    (arc : Arc) (rest : List ℕ) (e : Encoder)
    → Digits rest
    → parse_bytes (b'.' ∷ rest) (some arc) e ≡ (push e arc >>= parse_bytes rest none)
unfolding parse_bytes
parse_dot arc rest e d = rw (not-digit_dot, d.is)

parse_end :
    (arc : Arc) (e : Encoder)
    → (parse_bytes [] (some arc) e >>= parser_finish) ≡ (push e arc >>= encoder_finish)
unfolding parse_bytes parser_finish
parse_end arc e = elim (Result-cases (push e arc)) [ inl (e', is) ↦ rw is | inr (d, is) ↦ rw is ]

push_all_one : (arc : Arc) (e : Encoder) → push_all (arc ∷ []) e ≡ push e arc
unfolding push_all
push_all_one arc e = elim (Result-cases (push e arc)) [ inl (e', is) ↦ rw is | inr (d, is) ↦ rw is ]

-- From any encoder, the text of arcs is parsed as encoding the arcs one by one.
parse_dotted :
    (arc : Arc) (arcs : List Arc) (e : Encoder)
    → All IsArc (arc ∷ arcs)
    → (parse_bytes (dotted (arc ∷ arcs)) none e >>= parser_finish)
      ≡ (push_all (arc ∷ arcs) e >>= encoder_finish)
unfolding push_all
parse_dotted arc [] e all =
    let read : parse_bytes (decimal 10 arc) none e ≡ parse_bytes [] (some arc) e =
      ap (λ t. parse_bytes t none e) (sym (append-nil (decimal 10 arc)))
      ∙ parse_decimal 9 arc [] e (omega arith) all.0 in
    ap (λ r. r >>= parser_finish) read
    ∙ parse_end arc e
    ∙ ap (λ r. r >>= encoder_finish) (sym (push_all_one arc e))
parse_dotted arc (next ∷ arcs) e all =
    let rest = dotted (next ∷ arcs) in
    let read : parse_bytes (decimal 10 arc ++ (b'.' ∷ rest)) none e
        ≡ (push e arc >>= parse_bytes rest none) =
      parse_decimal 9 arc (b'.' ∷ rest) e (omega arith) all.0
      ∙ parse_dot arc rest e (dotted-Digits next arcs all.1.0) in
    ap (λ r. r >>= parser_finish) read
    ∙ >>=_assoc (push e arc) (parse_bytes rest none) parser_finish
    ∙ >>=_same (push e arc) (λ e'. parse_bytes rest none e' >>= parser_finish)
        (λ e'. push_all (next ∷ arcs) e' >>= encoder_finish) (λ e'. parse_dotted next arcs e' all.1)
    ∙ sym (>>=_assoc (push e arc) (push_all (next ∷ arcs)) encoder_finish)

parse_start :
    (text : List ℕ)
    → Digits text
    → parse text ≡ parse_bytes text none (encoder_new default_max_size)
unfolding parse
parse_start text d = rw (d.is, d.digit)

oid_new-parse : (text : List ℕ) → oid_new text ≡ (parse text >>= parser_finish)
unfolding oid_new
oid_new-parse text = refl

from_arcs-push_all :
    (arcs : List Arc)
    → from_arcs arcs ≡ (push_all arcs (encoder_new default_max_size) >>= encoder_finish)
unfolding from_arcs encode_arcs
from_arcs-push_all arcs = refl

-- The text of one u32 arc or more, in decimal with dots between them, is parsed as `from_arcs`
-- encodes the arcs, errors included.
pub oid_new-dotted :
    (arc : Arc) (arcs : List Arc)
    → All IsArc (arc ∷ arcs)
    → oid_new (dotted (arc ∷ arcs)) ≡ from_arcs (arc ∷ arcs)
oid_new-dotted arc arcs all =
    let text = dotted (arc ∷ arcs) in
    oid_new-parse text
    ∙ ap (λ r. r >>= parser_finish) (parse_start text (dotted-Digits arc arcs all.0))
    ∙ parse_dotted arc arcs (encoder_new default_max_size) all
    ∙ sym (from_arcs-push_all (arc ∷ arcs))

display_arcs :
    (oid : Buffer) (arcs : List Arc)
    → oid_arcs oid ≡ some arcs
    → oid_display oid ≡ some (dotted arcs)
unfolding oid_display
display_arcs oid arcs h = ground (arith, h)

from_arcs-nil : (oid : Buffer) → from_arcs [] ≢ ok oid
unfolding from_arcs encoding
from_arcs-nil oid e = cc (sym (encode_arcs-encoding default_max_size [] (omega arith)) ∙ e)

-- What `Display` writes of an identifier that `from_arcs` made of u32 arcs is parsed as that
-- identifier.
pub oid_new-oid_display :
    (arcs : List Arc) (oid : Buffer)
    → All IsArc arcs
    → from_arcs arcs ≡ ok oid
    → (text : List ℕ) × (oid_display oid ≡ some text) × (oid_new text ≡ ok oid)
oid_new-oid_display [] oid all e = absurd (from_arcs-nil oid e)
oid_new-oid_display (arc ∷ arcs) oid all e =
    let back =
      from_bytes-encode_arcs default_max_size (arc ∷ arcs) oid (omega arith) (omega arith) all
        (unfold from_arcs in e) in
    (dotted (arc ∷ arcs), display_arcs oid (arc ∷ arcs) back.0, oid_new-dotted arc arcs all ∙ e)
