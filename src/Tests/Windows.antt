-- ===== src/Tests/Windows.antt =====
-- Readers, nested windows and writers on a few bytes.
use formats.Common.{ℕ, ◌≡◌, ◌<◌, ◌≤◌, ◌⊎◌, ◌↔◌, refl, arith, List, [], ◌∷◌, ok}
use formats.Der.Length.{new_usize}
use formats.Der.Position
use formats.Der.Reader.{SliceReader, read_slice, read_nested}
use formats.Der.Reader.Keeps.{read_slice-Safe}
use formats.Der.Reader.Nested.{window, read_nested_restores}
use formats.Der.Reader.Nesting.{read_nested_ok}
use formats.Der.Reader.Ready.{IsValid, Ready, skip}
use formats.Der.Reader.Whole.{start, start-Ready}

abbrev five : List ℕ
five = 1 ∷ 2 ∷ 3 ∷ 4 ∷ 5 ∷ []

abbrev five_reader : SliceReader
five_reader = start five

five-Ready : Ready five_reader five
five-Ready = start-Ready five (omega arith)

-- The same reader at the largest nesting depth.
abbrev deep_reader : SliceReader
deep_reader = record five_reader { position = record five_reader.position { depth = 64 } }

deep_reader-IsValid : IsValid deep_reader
deep_reader-IsValid = record {
  inside = omega arith;
  window = omega arith;
  small = omega arith;
  shallow = omega arith;
}

read_three : read_slice 3 five_reader ≡ (ok (1 ∷ 2 ∷ 3 ∷ []), skip five_reader 3)
unfolding read_slice Position.advance
read_three = refl

nested_three : read_nested 3 (read_slice 3) five_reader ≡ (ok (1 ∷ 2 ∷ 3 ∷ []), skip five_reader 3)
unfolding read_nested read_slice Position.advance Position.split_nested Position.resume_nested
    formats.Der.Bytes.prefix formats.Der.Length.add Position.remaining_len
nested_three = refl

read_nested_ok_example :
    ((read_slice 3 (window five_reader 3)).0 ≡ ok (1 ∷ 2 ∷ 3 ∷ []))
    × ((read_slice 3 (window five_reader 3)).1.position.position ≡ 3)
    × ((skip five_reader 3).position.position ≡ 3)
    × ((skip five_reader 3).bytes ≡ five)
read_nested_ok_example =
    read_nested_ok (read_slice 3) five_reader 3 five-Ready.valid (read_slice-Safe 3) nested_three

read_nested_restores_example :
    ((read_nested 3 (read_slice 3) deep_reader).1.bytes ≡ five) ↔ ((64 < 64) ⊎ (5 ≤ 3))
read_nested_restores_example = read_nested_restores (read_slice 3) deep_reader 3 deep_reader-IsValid
