-- ===== src/Oid/Identifier.antt =====
-- const-oid/src/lib.rs: `ObjectIdentifier`, which is its buffer, and `ObjectIdentifierRef`, which is its
-- bytes.
pub mod Encoding
pub mod RoundTrip
pub mod Bytes
pub mod Children
pub mod Prefix
use formats.Common.{
  ℕ, zero, suc, ◌+◌, ◌-◌, ◌/◌, ◌%◌, ◌^◌, Bool, true, false, ◌&&◌, Option, none, some, List, [], ◌∷◌,
  ◌++◌, ok, err, ltb, ◌==◌, if◌then◌else◌, length, take, replicate,
}
use formats.Oid.Data.{Arc, OidResult, ◌>>=◌, length_error, Buffer, buffer_as_bytes}
use formats.Oid.Arcs.{arcs_of}
use formats.Oid.Encoder.{Encoder, encoder_new, extend, push, encoder_finish}
use formats.Oid.Parser.{parse, parser_finish, default_max_size}

-- From text.
unfoldable pub oid_new : List ℕ → OidResult Buffer
unfolding parse parser_finish
oid_new s = parse s >>= parser_finish

-- `for arc in arcs { encoder = encoder.arc(arc)? }`
unfoldable pub push_all : List Arc → Encoder → OidResult Encoder
push_all [] e = ok e
push_all (arc ∷ arcs) e = push e arc >>= push_all arcs

unfoldable pub encode_arcs : ℕ → List Arc → OidResult Buffer
unfolding push_all
encode_arcs max_size arcs = push_all arcs (encoder_new max_size) >>= encoder_finish

unfoldable pub from_arcs : List Arc → OidResult Buffer
unfolding encode_arcs
from_arcs arcs = encode_arcs default_max_size arcs

-- `ObjectIdentifierRef::from_bytes`: the arcs are only checked.
unfoldable pub ref_from_bytes : List ℕ → OidResult (List ℕ)
ref_from_bytes ber = arcs_of ber >>= λ _. ok ber

-- `try_from` an `ObjectIdentifierRef`, by its bytes.
unfoldable pub oid_from_ref : ℕ → List ℕ → OidResult Buffer
oid_from_ref max_size ber =
    if ltb max_size (length ber)
    then err length_error
    else ok
        (record { length = length ber % 2 ^ 8; bytes = ber ++ replicate (max_size - length ber) 0 })

unfoldable pub from_bytes_sized : ℕ → List ℕ → OidResult Buffer
unfolding ref_from_bytes oid_from_ref
from_bytes_sized max_size ber = ref_from_bytes ber >>= oid_from_ref max_size

-- `Result::ok`
abbrev pub ok_of : {A : Type 0} → OidResult A → Option A
ok_of (ok a) = some a
ok_of (err e) = none

-- `arcs`: what the iterator gives on the bytes of the identifier; `none` is its panic.
unfoldable pub oid_arcs : Buffer → Option (List Arc)
oid_arcs oid = ok_of (arcs_of (buffer_as_bytes oid))

-- `parent`; the outer `none` is the panic of the iterator.
abbrev parent_of : ℕ → List Arc → Option Buffer
parent_of max_size [] = none
parent_of max_size (arc ∷ arcs) = ok_of (encode_arcs max_size (take (length arcs) (arc ∷ arcs)))

unfoldable pub parent : Buffer → Option (Option Buffer)
parent oid = elim (oid_arcs oid) [
  | none ↦ none
  | some arcs ↦ some (parent_of (length oid.bytes) arcs)
]

unfoldable pub push_arc : Buffer → Arc → OidResult Buffer
push_arc oid arc = push (extend oid) arc >>= encoder_finish

-- The loop over the bytes of the other.
abbrev pub starts : List ℕ → List ℕ → Bool
starts bytes [] = true
starts [] (b ∷ others) = false
starts (a ∷ bytes) (b ∷ others) = a == b && starts bytes others

unfoldable pub starts_with : Buffer → Buffer → Bool
starts_with oid other =
    if ltb (length (buffer_as_bytes oid)) (length (buffer_as_bytes other))
    then false
    else starts (buffer_as_bytes oid) (buffer_as_bytes other)

-- `Display`: the arcs in decimal, as `fmt` writes a u32, with dots between them.
unfoldable pub decimal : ℕ → ℕ → List ℕ
decimal zero n = []
decimal (suc digits) n =
    if ltb n 10 then (b'0' + n) ∷ [] else decimal digits (n / 10) ++ ((b'0' + n % 10) ∷ [])

abbrev pub dotted : List Arc → List ℕ
dotted [] = []
dotted (arc ∷ []) = decimal 10 arc
dotted (arc ∷ next ∷ arcs) = decimal 10 arc ++ (b'.' ∷ dotted (next ∷ arcs))

unfoldable pub oid_display : Buffer → Option (List ℕ)
unfolding decimal
oid_display oid = elim (oid_arcs oid) [ none ↦ none | some arcs ↦ some (dotted arcs) ]
