-- ===== src/Der/Tag/Tables.antt =====
-- Facts about the bits of one octet, and the table of universal tags, checked value by value.
use formats.Common.{
  ℕ, ◌+◌, ◌-◌, ◌*◌, ◌/◌, ◌%◌, ◌≤◌, ◌<◌, ◌≡◌, refl, sym, ap, ◌∙◌, arith, Bool, true, false, ◌&&◌,
  Option, none, some, bit_and, ◌==◌,
}
use formats.Common.Bits.{agree_below, holds_below, holds_below_at}
use formats.Der.Data.{
  Tag, Class, universal, class, number, is_constructed, application_tag, context_specific_tag,
  private_tag, bits,
}
use formats.Der.Tag.{universal_tag, has_flag}
use formats.Der.Tag.Octets.{leading}

flag_bit : (b : ℕ) → b < 256 → bit_and b 0x20 ≡ b / 32 % 2 * 32
flag_bit b h = agree_below 256 (λ y. bit_and y 0x20) (λ y. y / 32 % 2 * 32) refl b h

pub has_flag_bit : (b : ℕ) → b < 256 → has_flag b ≡ (b / 32 % 2 == 1)
has_flag_bit b h = ground (arith, flag_bit b h)

abbrev is_none : Option Tag → Bool
is_none none = true
is_none (some _) = false

is_none→eq : (o : Option Tag) → is_none o ≡ true → o ≡ none
is_none→eq none e = refl
is_none→eq (some _) e = cc

-- No octet with a class bit set is a universal tag.
pub universal_tag-none : (b : ℕ) → 64 ≤ b → b < 256 → universal_tag b ≡ none
unfolding universal_tag
universal_tag-none b lo hi =
    let table : holds_below (λ x. is_none (universal_tag (x + 64))) 192 ≡ true = refl in
    let there : b - 64 + 64 ≡ b = omega arith in
    is_none→eq (universal_tag b) (
      ap (λ k. is_none (universal_tag k)) (sym there)
      ∙ holds_below_at (λ x. is_none (universal_tag (x + 64))) 192 (b - 64) (omega arith) table)

-- The octet of a universal tag is read as that tag.
pub universal_tag_octet :
    (t : Tag)
    → class t ≡ universal
    → universal_tag (leading universal (is_constructed t) + number t) ≡ some t
unfolding universal_tag class is_constructed number bits
universal_tag_octet (application_tag c n) e = cc
universal_tag_octet (context_specific_tag c n) e = cc
universal_tag_octet (private_tag c n) e = cc
universal_tag_octet _ e = refl

pub number_universal : (t : Tag) → class t ≡ universal → (1 ≤ number t) × (number t < 31)
unfolding class number
number_universal (application_tag c n) e = cc
number_universal (context_specific_tag c n) e = cc
number_universal (private_tag c n) e = cc
number_universal _ e = omega arith

abbrev is_universal : Class → Bool
is_universal universal = true
is_universal _ = false

abbrev is_octet_of : ℕ → Option Tag → Bool
is_octet_of b none = true
is_octet_of b (some t) =
    (leading universal (is_constructed t) + number t == b) && is_universal (class t)

universal_table : holds_below (λ b. is_octet_of b (universal_tag b)) 256 ≡ true
unfolding universal_tag class is_constructed number bits
universal_table = refl

is_octet_of_ok :
    (b : ℕ) (t : Tag)
    → is_octet_of b (some t) ≡ true
    → (class t ≡ universal) × (leading universal (is_constructed t) + number t ≡ b)
is_octet_of_ok b t e = ground arith

-- An octet that is read as a universal tag is the octet of that tag.
pub universal_tag-some :
    (b : ℕ) (t : Tag)
    → b < 256
    → universal_tag b ≡ some t
    → (class t ≡ universal) × (leading universal (is_constructed t) + number t ≡ b)
universal_tag-some b t h e =
    let entry : is_octet_of b (universal_tag b) ≡ true =
      holds_below_at (λ y. is_octet_of y (universal_tag y)) 256 b h universal_table in
    is_octet_of_ok b t (sym (ap (is_octet_of b) e) ∙ entry)
