-- ===== src/Der/Tag/RoundTrip.antt =====
-- der/src/tag.rs: decoding the identifier octets of a tag.
use formats.Common.{
  ℕ, suc, ◌+◌, ◌*◌, ◌/◌, ◌^◌, ◌≤◌, ◌<◌, ◌≡◌, ◌≢◌, refl, sym, ap, ◌∙◌, arith, Bool, List, [], ◌∷◌,
  ◌++◌, ok, bit_and, length,
}
use formats.Common.Bits.{bit_and_0x1f}
use mathlib.Core.Path.{subst}
use native.Mathlib.Decide.{dec_lt}
use formats.Der.Data.{
  TagNumber, Tag, Class, universal, application, context_specific, private, class, number,
  is_constructed, bits, application_tag, context_specific_tag, private_tag, Class-discrete,
}
use formats.Der.Reader
use formats.Der.Reader.{SliceReader, Decoder, ◌>>=◌, read_byte}
use formats.Der.Reader.Ready.{Ready, skip, Reads, Reads-bind, Reads-end, Reads-eq, return-Reads}
use formats.Der.Reader.Slices.{read_byte-Reads}
use formats.Der.Tag.{
  has_flag, number_loop, parse_parts, other_tag, tag_from, universal_tag,
  decode_with_constructed_bit, decode,
}
use formats.Common.Base128.{group_count, groups, group_count-Groups}
use formats.Der.Tag.Numbers.{number_loop-Reads}
use formats.Der.Tag.Octets.{IsTag, leading, tag_octets, tag_octets_short, tag_octets_long}
use formats.Der.Tag.Tables.{has_flag_bit, universal_tag-none, universal_tag_octet, number_universal}

number-Reads :
    (n : ℕ) → 31 ≤ n → n < 2 ^ 32 → Reads (number_loop 5 0 0) (groups (group_count n) n) n
number-Reads n lo hi =
    let g = group_count-Groups n hi in
    let start : n / 128 ^ suc g.high * 2 ^ 7 ≡ 0 = omega (arith, g.whole) in
    subst (λ k. Reads (number_loop 5 0 0) (groups k n) n) (sym g.count)
      (subst (λ acc. Reads (number_loop 5 0 acc) (groups (suc g.high) n) n) start
        (number_loop-Reads g.high 5 0 n g.few lo hi (g.top (omega arith))))

pub leading_flag : (k : Class) (c : Bool) (m : ℕ) → m < 32 → has_flag (leading k c + m) ≡ c
unfolding bits
leading_flag universal c m h = ground (arith, has_flag_bit (leading universal c + m))
leading_flag application c m h = ground (arith, has_flag_bit (leading application c + m))
leading_flag context_specific c m h = ground (arith, has_flag_bit (leading context_specific c + m))
leading_flag private c m h = ground (arith, has_flag_bit (leading private c + m))

leading_low : (k : Class) (c : Bool) (m : ℕ) → m < 32 → bit_and (leading k c + m) 0x1f ≡ m
unfolding bits
leading_low universal c m h = ground (arith, bit_and_0x1f (leading universal c + m))
leading_low application c m h = ground (arith, bit_and_0x1f (leading application c + m))
leading_low context_specific c m h = ground (arith, bit_and_0x1f (leading context_specific c + m))
leading_low private c m h = ground (arith, bit_and_0x1f (leading private c + m))

-- The tag of a class that is not universal, a form and a number.
abbrev pub make_tag : Class → Bool → TagNumber → Tag
make_tag context_specific c n = context_specific_tag c n
make_tag private c n = private_tag c n
make_tag _ c n = application_tag c n

pub other_tag_arm :
    (k : Class) (c : Bool) (m : ℕ)
    → k ≢ universal
    → m < 32
    → other_tag (leading k c + m)
      ≡ (parse_parts (leading k c + m) >>= λ p. Reader.return (make_tag k p.0 p.1))
unfolding bits
other_tag_arm universal c m ne h = absurd (ne refl)
other_tag_arm application c m ne h = ground arith
other_tag_arm context_specific c m ne h = ground arith
other_tag_arm private c m ne h = ground arith

pub parse_parts_short :
    (k : Class) (c : Bool) (m : ℕ) → m < 31 → parse_parts (leading k c + m) ≡ Reader.return (c, m)
parse_parts_short k c m h =
    ground (arith, leading_flag k c m (omega arith), leading_low k c m (omega arith))

pub parse_parts_long :
    (k : Class) (c : Bool)
    → parse_parts (leading k c + 31) ≡ (number_loop 5 0 0 >>= λ n. Reader.return (c, n))
parse_parts_long k c =
    ground (arith, leading_flag k c 31 (omega arith), leading_low k c 31 (omega arith))

pub leading-IsByte : (k : Class) (c : Bool) (m : ℕ) → m < 32 → leading k c + m < 256
unfolding bits
leading-IsByte universal c m h = ground arith
leading-IsByte application c m h = ground arith
leading-IsByte context_specific c m h = ground arith
leading-IsByte private c m h = ground arith

leading_high : (k : Class) (c : Bool) (m : ℕ) → k ≢ universal → 64 ≤ leading k c + m
unfolding bits
leading_high universal c m ne = absurd (ne refl)
leading_high application c m ne = omega arith
leading_high context_specific c m ne = omega arith
leading_high private c m ne = omega arith

tag_from_other :
    (k : Class) (c : Bool) (m : ℕ)
    → k ≢ universal
    → m < 32
    → tag_from (universal_tag (leading k c + m)) (leading k c + m)
      ≡ (parse_parts (leading k c + m) >>= λ p. Reader.return (make_tag k p.0 p.1))
tag_from_other k c m ne h =
    ap (λ o. tag_from o (leading k c + m))
      (universal_tag-none (leading k c + m) (leading_high k c m ne) (leading-IsByte k c m h))
    ∙ other_tag_arm k c m ne h

make_tag-eq : (t : Tag) → class t ≢ universal → make_tag (class t) (is_constructed t) (number t) ≡ t
unfolding class is_constructed number
make_tag-eq (application_tag c n) ne = refl
make_tag-eq (context_specific_tag c n) ne = refl
make_tag-eq (private_tag c n) ne = refl
make_tag-eq _ ne = absurd (ne refl)

module _ (k : Class) (c : Bool) (n : ℕ) where
  parts_short-Reads : n < 31 → Reads (parse_parts (leading k c + n)) [] (c, n)
  parts_short-Reads h = Reads-eq [] (c, n) (parse_parts_short k c n h) (return-Reads (c, n))

  parts_long-Reads :
      31 ≤ n → n < 2 ^ 32 → Reads (parse_parts (leading k c + 31)) (groups (group_count n) n) (c, n)
  parts_long-Reads lo hi =
      Reads-eq (groups (group_count n) n) (c, n) (parse_parts_long k c)
        (Reads-end (number_loop 5 0 0) (λ m. Reader.return (c, m)) (groups (group_count n) n) n
          (c, n) (number-Reads n lo hi) (return-Reads (c, n)))

-- The first octet with `m` in its low bits, then the bytes that `parse_parts` reads.
tagged-Reads :
    (t : Tag) (m : ℕ) (bs : List ℕ)
    → class t ≢ universal
    → m < 32
    → Reads (parse_parts (leading (class t) (is_constructed t) + m)) bs (is_constructed t, number t)
    → Reads decode_with_constructed_bit
        ((leading (class t) (is_constructed t) + m) ∷ bs)
        (t, is_constructed t)
unfolding decode_with_constructed_bit
tagged-Reads t m bs ne h parts =
    let b : ℕ = leading (class t) (is_constructed t) + m in
    let flagged = λ (u : Tag). Reader.return (u, has_flag b) in
    let made : Reads (tag_from (universal_tag b) b) bs t =
      Reads-eq bs t (tag_from_other (class t) (is_constructed t) m ne h) (
        Reads-end (parse_parts b) (λ p. Reader.return (make_tag (class t) p.0 p.1)) bs
          (is_constructed t, number t) t parts
          (Reads-eq [] t (ap Reader.return (make_tag-eq t ne)) (return-Reads t))) in
    Reads-bind read_byte (λ x. tag_from (universal_tag x) x >>= λ u. Reader.return (u, has_flag x))
      (b ∷ []) bs b (t, is_constructed t) (read_byte-Reads b)
      (Reads-end (tag_from (universal_tag b) b) flagged bs t (t, is_constructed t) made
        (Reads-eq [] (t, is_constructed t)
          (ap (λ f. Reader.return (t, f)) (leading_flag (class t) (is_constructed t) m h))
          (return-Reads (t, is_constructed t))))

universal-Reads :
    (t : Tag)
    → class t ≡ universal
    → Reads decode_with_constructed_bit (tag_octets t) (t, is_constructed t)
unfolding decode_with_constructed_bit
universal-Reads t u =
    let n : ℕ = number t in
    let short = (number_universal t u).1 in
    let b : ℕ = leading universal (is_constructed t) + n in
    let known : tag_from (universal_tag b) b ≡ Reader.return t =
      ap (λ o. tag_from o b) (universal_tag_octet t u) in
    let octets : tag_octets t ≡ b ∷ [] =
      tag_octets_short t short ∙ ap (λ k. (leading k (is_constructed t) + n) ∷ []) u in
    subst (λ bs. Reads decode_with_constructed_bit bs (t, is_constructed t)) (sym octets)
      (Reads-end read_byte
        (λ x. tag_from (universal_tag x) x >>= λ v. Reader.return (v, has_flag x)) (b ∷ []) b
        (t, is_constructed t) (read_byte-Reads b)
        (Reads-end (tag_from (universal_tag b) b) (λ v. Reader.return (v, has_flag b)) [] t
          (t, is_constructed t) (Reads-eq [] t known (return-Reads t))
          (Reads-eq [] (t, is_constructed t)
            (ap (λ f. Reader.return (t, f))
              (leading_flag universal (is_constructed t) n (omega arith)))
            (return-Reads (t, is_constructed t)))))

numbered-Reads :
    (t : Tag)
    → class t ≢ universal
    → IsTag t
    → Reads decode_with_constructed_bit (tag_octets t) (t, is_constructed t)
numbered-Reads t ne h = elim (dec_lt (number t) 31) [
  | yes short ↦ rw (tag_octets_short t short) (
      tagged-Reads t (number t) [] ne (omega arith)
        (parts_short-Reads (class t) (is_constructed t) (number t) short))
  | no long ↦
      let lo : 31 ≤ number t = omega arith in
      rw (tag_octets_long t lo) (
        tagged-Reads t 31 (groups (group_count (number t)) (number t)) ne (omega arith)
          (parts_long-Reads (class t) (is_constructed t) (number t) lo h))
]

-- A reader in front of the identifier octets of a tag whose number is a u32, and any further
-- bytes, decodes that tag with its constructed bit and stands behind the octets.
pub decode_with_constructed_bit-Reads :
    (t : Tag)
    → IsTag t
    → (r : SliceReader) (rest : List ℕ) → Ready r (tag_octets t ++ rest)
    → decode_with_constructed_bit r ≡ (ok (t, is_constructed t), skip r (length (tag_octets t)))
decode_with_constructed_bit-Reads t h = elim (Class-discrete (class t) universal) [
  | yes u ↦ universal-Reads t u
  | no ne ↦ numbered-Reads t ne h
]

pub tag_decode-Reads : (t : Tag) → IsTag t → Reads decode (tag_octets t) t
unfolding decode
tag_decode-Reads t h =
    Reads-end decode_with_constructed_bit (λ p. Reader.return p.0) (tag_octets t)
      (t, is_constructed t) t (decode_with_constructed_bit-Reads t h) (return-Reads t)
