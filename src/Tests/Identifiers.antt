-- ===== src/Tests/Identifiers.antt =====
-- Object identifiers between arcs, bytes and text.
use formats.Common.{
  ℕ, ◌%◌, ◌≡◌, ◌≢◌, ◌↔◌, ◌⊎◌, ◌<◌, ◌≤◌, refl, arith, true, some, List, [], ◌∷◌, ◌++◌, ok, err, take,
  length, replicate, All, IsByte,
}
use formats.Oid.Data.{Arc, Buffer, buffer_as_bytes, overflow, base128, trailing_dot}
use formats.Oid.Arcs.{arcs_of, try_next}
use formats.Oid.Arcs.Spelling.{IsSpelling}
use formats.Oid.Arcs.Accepted.{arcs_of_iff}
use formats.Oid.Arcs.Checked.{checked_arcs_of, checked_arcs_of-arcs_of}
use formats.Tests.{all_bytes_sound}
use formats.Oid.Encoder.{
  encoder_new, encode_base128, base128_len, base128_byte, push, encoder_finish, extend,
}
use formats.Oid.Identifier.{
  oid_new, encode_arcs, from_arcs, from_bytes_sized, oid_arcs, parent, push_arc, starts_with,
  dotted, oid_display,
}
use formats.Oid.Identifier.Encoding.{encoding, encode_arcs-encoding}
use formats.Oid.Identifier.RoundTrip.{from_bytes-encode_arcs}
use formats.Oid.Identifier.Bytes.{from_bytes_sized_ok, from_bytes_sized_cut, arcs_of_padded}
use formats.Oid.Identifier.Children.{push_arc-encode_arcs, parent-push_arc}
use formats.Oid.Identifier.Prefix.{starts_with_iff}
use formats.Oid.Parser.Text.{oid_new-dotted, oid_new-oid_display}

-- 1.2.840.10045
abbrev ecc : List Arc
ecc = 1 ∷ 2 ∷ 840 ∷ 10045 ∷ []

abbrev ecc_bytes : List ℕ
ecc_bytes = 0x2a ∷ 0x86 ∷ 0x48 ∷ 0xce ∷ 0x3d ∷ []

abbrev ecc_oid : Buffer
ecc_oid = record { length = 5; bytes = ecc_bytes ++ replicate 34 0 }

-- 1.2.840.10045.2
abbrev key_oid : Buffer
key_oid = record { length = 6; bytes = ecc_bytes ++ (2 ∷ replicate 33 0) }

ecc_encoded : encode_arcs 39 ecc ≡ ok ecc_oid
unfolding encode_arcs encoder_new push encode_base128 base128_len base128_byte encoder_finish
ecc_encoded = refl

ecc-from_arcs : from_arcs ecc ≡ ok ecc_oid
unfolding from_arcs
ecc-from_arcs = ecc_encoded

ecc_read : from_bytes_sized 39 ecc_bytes ≡ ok ecc_oid
unfolding from_bytes_sized arcs_of try_next
ecc_read = refl

key_pushed : push_arc ecc_oid 2 ≡ ok key_oid
unfolding push_arc extend push encode_base128 base128_len base128_byte encoder_finish
key_pushed = refl

ecc_parsed :
    oid_new (b'1' ∷ b'.' ∷ b'2' ∷ b'.' ∷ b'8' ∷ b'4' ∷ b'0' ∷ []) ≡ from_arcs (1 ∷ 2 ∷ 840 ∷ [])
unfolding oid_new from_arcs encode_arcs encoder_new push encode_base128 base128_len base128_byte
    encoder_finish
ecc_parsed = refl

dot_at_end : oid_new (b'1' ∷ b'.' ∷ []) ≡ err trailing_dot
unfolding oid_new
dot_at_end = refl

cut_arc : arcs_of (0x2a ∷ 0x86 ∷ []) ≡ err base128
unfolding arcs_of try_next
cut_arc = refl

ecc-All_bytes : All IsByte ecc_bytes
ecc-All_bytes = omega arith

encode_arcs-encoding_example : encode_arcs 39 ecc ≡ encoding 39 ecc
encode_arcs-encoding_example = encode_arcs-encoding 39 ecc (omega arith)

from_bytes-encode_arcs_example :
    (oid_arcs ecc_oid ≡ some ecc) × (from_bytes_sized 39 (buffer_as_bytes ecc_oid) ≡ ok ecc_oid)
from_bytes-encode_arcs_example =
    from_bytes-encode_arcs 39 ecc ecc_oid (omega arith) (omega arith) (omega arith) ecc_encoded

from_bytes_sized_ok_example :
    (buffer_as_bytes ecc_oid ≡ ecc_bytes)
    × (arcs : List Arc) × IsSpelling ecc_bytes arcs
    × (oid_arcs ecc_oid ≡ some arcs)
    × (shortest : Buffer) × (encode_arcs 39 arcs ≡ ok shortest)
    × ((shortest ≡ ecc_oid) ⊎ (shortest.length < 5))
from_bytes_sized_ok_example =
    from_bytes_sized_ok 39 ecc_bytes ecc_oid ecc-All_bytes (omega arith) ecc_read

-- 300 bytes, for an array of 300.
abbrev long_bytes : List ℕ
long_bytes = 0x2a ∷ replicate 299 1

from_bytes_sized_cut_example :
    ((oid : Buffer) × (from_bytes_sized 300 long_bytes ≡ ok oid)
      × (buffer_as_bytes oid ≡ take (length long_bytes % 256) long_bytes)
      × (buffer_as_bytes oid ≢ long_bytes))
    ↔ ((arcs : List Arc) × IsSpelling long_bytes arcs × (length long_bytes ≤ 300))
from_bytes_sized_cut_example =
    from_bytes_sized_cut 300 long_bytes (all_bytes_sound long_bytes refl) (omega arith)

two_spellings : IsSpelling (0x2a ∷ 0x86 ∷ 0x48 ∷ []) (1 ∷ 2 ∷ 840 ∷ [])
two_spellings = (omega arith, omega arith, refl, (1, [], refl, omega arith, omega arith, refl))

arcs_of_padded_example :
    (arcs_of (0x2a ∷ 0x86 ∷ 0x48 ∷ []) ≡ ok (1 ∷ 2 ∷ 840 ∷ []))
    × (arcs_of (0x2a ∷ 0x80 ∷ 0x86 ∷ 0x48 ∷ []) ≡ ok (1 ∷ 2 ∷ 840 ∷ []))
    × (◌≢◌ {A = List ℕ} (0x2a ∷ 0x80 ∷ 0x86 ∷ 0x48 ∷ []) (0x2a ∷ 0x86 ∷ 0x48 ∷ []))
arcs_of_padded_example = arcs_of_padded 0x2a (0x86 ∷ 0x48 ∷ []) 1 2 840 [] two_spellings

arcs_of_iff_example : (arcs_of ecc_bytes ≡ ok ecc) ↔ IsSpelling ecc_bytes ecc
arcs_of_iff_example = arcs_of_iff ecc_bytes ecc ecc-All_bytes

checked_arcs_of-arcs_of_example :
    (checked_arcs_of ecc_bytes ≡ some (arcs_of ecc_bytes)) × (arcs_of ecc_bytes ≢ err overflow)
checked_arcs_of-arcs_of_example = checked_arcs_of-arcs_of ecc_bytes ecc-All_bytes (omega arith)

oid_new-dotted_example : oid_new (dotted ecc) ≡ from_arcs ecc
oid_new-dotted_example = oid_new-dotted 1 (2 ∷ 840 ∷ 10045 ∷ []) (omega arith)

oid_new-oid_display_example :
    (text : List ℕ) × (oid_display ecc_oid ≡ some text) × (oid_new text ≡ ok ecc_oid)
oid_new-oid_display_example = oid_new-oid_display ecc ecc_oid (omega arith) ecc-from_arcs

push_arc-encode_arcs_example : push_arc ecc_oid 2 ≡ encode_arcs 39 (1 ∷ 2 ∷ 840 ∷ 10045 ∷ 2 ∷ [])
push_arc-encode_arcs_example =
    push_arc-encode_arcs 39 ecc ecc_oid 2 (omega arith) (omega arith) ecc_encoded

parent-push_arc_example : parent key_oid ≡ some (some ecc_oid)
parent-push_arc_example =
    parent-push_arc 39 ecc ecc_oid key_oid 2 (omega arith) (omega arith) (omega arith) (omega arith)
      ecc_encoded key_pushed

starts_with_iff_example :
    (starts_with ecc_oid ecc_oid ≡ true) ↔ ((more : List Arc) × (ecc ≡ ecc ++ more))
starts_with_iff_example =
    starts_with_iff 39 39 ecc ecc ecc_oid ecc_oid (omega arith) (omega arith) (omega arith)
      (omega arith) (omega arith) (omega arith) ecc_encoded ecc_encoded
