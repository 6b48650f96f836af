-- ===== src/Der/Tag/Canonical.antt =====
-- der/src/tag.rs: which identifier octets `Decode for Tag` accepts.
use formats.Common.{
  ℕ, ◌+◌, ◌/◌, ◌%◌, ◌≤◌, ◌<◌, ◌≡◌, ◌≢◌, refl, sym, ap, ◌∙◌, arith, Bool, some, List, [], ◌∷◌, ◌++◌,
  ok, ◌==◌, if◌then◌else◌, length, ◌⊎◌, inl, inr, All, IsByte, Option-cases,
}
use mathlib.Core.Path.{subst, subst₂, subst₃}
use native.Mathlib.Decide.{dec_lt, ℕ_discrete}
use formats.Der.Data.{
  TagNumber, Tag, Class, universal, application, context_specific, private, class, number,
  is_constructed, bits, ErrorKind, tag_number_invalid, tag_unknown,
}
use formats.Der.Reader
use formats.Der.Reader.{SliceReader, Decoder, ◌>>=◌, read_byte}
use formats.Der.Reader.Ready.{
  IsValid, Ready, Ready-skip, Ready-extend, Ready-IsByte, skip, skip-skip, >>=-ok,
}
use formats.Der.Reader.Slices.{read_byte_ok}
use formats.Der.Tag.{
  has_flag, number_loop, parse_parts, other_tag, tag_from, universal_tag,
  decode_with_constructed_bit,
}
use formats.Common.Base128.{group_count, groups}
use formats.Der.Tag.LongForm.{number_ok}
use formats.Der.Tag.Octets.{IsTag, leading, tag_octets, tag_octets_short}
use formats.Der.Tag.RoundTrip.{
  make_tag, other_tag_arm, parse_parts_short, parse_parts_long, leading_flag,
}
use formats.Der.Tag.Tables.{universal_tag-some, number_universal}

-- An octet in front of a class tag has the class, the form and five bits of the number.
record Octet (b : ℕ) : Type 0 where
  kind : Class
  form : Bool
  low : ℕ
  above : kind ≢ universal
  small : low < 32
  joined : leading kind form + low ≡ b

split_octet :
    (b lo : ℕ)
    → lo ≤ b
    → b < lo + 64
    → lo % 64 ≡ 0
    → lo + (if b / 32 % 2 == 1 then 32 else 0) + b % 32 ≡ b
split_octet b lo h k even = ground arith

Octet-cases : (b : ℕ) → b < 256 → Octet b ⊎ ((kind : ErrorKind) × (other_tag b ≡ Reader.error kind))
unfolding bits
Octet-cases b h = elim (dec_lt b 64) [
  | yes low ↦ elim (ℕ_discrete b 0x1f) [
    | yes long ↦ inr (tag_number_invalid, ground arith)
    | no other ↦ inr (tag_unknown b, ground arith)
  ]
  | no high ↦ elim (dec_lt b 128) [
    | yes second ↦ inl (record {
      kind = application;
      form = b / 32 % 2 == 1;
      low = b % 32;
      above = λ e. cc;
      small = omega arith;
      joined = split_octet b 64 (omega arith) (omega arith) refl;
    })
    | no up ↦ elim (dec_lt b 192) [
      | yes third ↦ inl (record {
        kind = context_specific;
        form = b / 32 % 2 == 1;
        low = b % 32;
        above = λ e. cc;
        small = omega arith;
        joined = split_octet b 128 (omega arith) (omega arith) refl;
      })
      | no last ↦ inl (record {
        kind = private;
        form = b / 32 % 2 == 1;
        low = b % 32;
        above = λ e. cc;
        small = omega arith;
        joined = split_octet b 192 (omega arith) (omega arith) refl;
      })
    ]
  ]
]

-- What a successful decoding tells of the reader it started from.
pub record Decoded (r : SliceReader) (t : Tag) (constructed : Bool) (r' : SliceReader)
    : Type 0 where
  pub rest : List ℕ
  pub ready : Ready r (tag_octets t ++ rest)
  pub moved : r' ≡ skip r (length (tag_octets t))
  pub fits : IsTag t
  pub form : constructed ≡ is_constructed t

make_tag_octets_short :
    (k : Class) (c : Bool) (n : ℕ)
    → k ≢ universal
    → n < 31
    → (tag_octets (make_tag k c n) ≡ (leading k c + n) ∷ [])
      × (is_constructed (make_tag k c n) ≡ c)
      × (number (make_tag k c n) ≡ n)
unfolding tag_octets class is_constructed number
make_tag_octets_short universal c n ne h = absurd (ne refl)
make_tag_octets_short application c n ne h = ground arith
make_tag_octets_short context_specific c n ne h = ground arith
make_tag_octets_short private c n ne h = ground arith

make_tag_octets_long :
    (k : Class) (c : Bool) (n : ℕ)
    → k ≢ universal
    → 31 ≤ n
    → (tag_octets (make_tag k c n) ≡ (leading k c + 31) ∷ groups (group_count n) n)
      × (is_constructed (make_tag k c n) ≡ c)
      × (number (make_tag k c n) ≡ n)
unfolding tag_octets class is_constructed number
make_tag_octets_long universal c n ne h = absurd (ne refl)
make_tag_octets_long application c n ne h = ground arith
make_tag_octets_long context_specific c n ne h = ground arith
make_tag_octets_long private c n ne h = ground arith

-- Behind the first octet, which is `leading k c + m`.
module _ (r : SliceReader) (k : Class) (c : Bool) (m : ℕ) (rest : List ℕ) (ne : k ≢ universal)
    (ready : Ready r ((leading k c + m) ∷ rest)) (bytes : All IsByte r.bytes) where
  parts_short :
      (p : Bool × TagNumber) (q : SliceReader)
      → m < 31
      → parse_parts (leading k c + m) (skip r 1) ≡ (ok p, q)
      → Decoded r (make_tag k p.0 p.1) c q
  parts_short p q short e =
      let is : parse_parts (leading k c + m) ≡ Reader.return (c, m) =
        parse_parts_short k c m short in
      let done = sym (ap (λ d. d (skip r 1)) is) ∙ e in
      let pair : p ≡ (c, m) = ground arith in
      let (octets, form, number_is) = make_tag_octets_short k c m ne short in
      subst (λ (x : Bool × TagNumber). Decoded r (make_tag k x.0 x.1) c q) (sym pair)
        (record {
          rest = rest;
          ready = rw octets ready;
          moved = rw octets (sym (ap (λ x. x.1) done));
          fits = omega (arith, number_is);
          form = sym form;
        })

  parts_long :
      (p : Bool × TagNumber) (q : SliceReader)
      → m ≡ 31
      → parse_parts (leading k c + m) (skip r 1) ≡ (ok p, q)
      → Decoded r (make_tag k p.0 p.1) c q
  parts_long p q long e =
      let is : parse_parts (leading k c + m) ≡ (number_loop 5 0 0 >>= λ n. Reader.return (c, n)) =
        ap (λ x. parse_parts (leading k c + x)) long ∙ parse_parts_long k c in
      let (n, s, loop, closed) =
        >>=-ok (number_loop 5 0 0) (λ n. Reader.return (c, n)) (skip r 1)
          (sym (ap (λ d. d (skip r 1)) is) ∙ e) in
      let next = Ready-skip r ((leading k c + m) ∷ []) rest ready in
      let (least, fits, tail, there, moved) = number_ok (skip r 1) n s next.valid bytes loop in
      let pair : p ≡ (c, n) = ground arith in
      let gs = groups (group_count n) n in
      let first : leading k c + m ≡ leading k c + 31 = ap (λ x. leading k c + x) long in
      let (octets, form, number_is) = make_tag_octets_long k c n ne least in
      subst (λ (x : Bool × TagNumber). Decoded r (make_tag k x.0 x.1) c q) (sym pair)
        (record {
          rest = tail;
          ready =
              rw (octets, ← first)
                (Ready-extend r ((leading k c + m) ∷ []) gs tail rest ready there);
          moved = rw octets (
              sym (ap (λ x. x.1) closed)
              ∙ moved
              ∙ skip-skip r 1 (length gs)
              ∙ ap (skip r) (omega arith));
          fits = omega (arith, number_is);
          form = sym form;
        })

  other_Decoded :
      (t : Tag) (q : SliceReader)
      → m < 32
      → other_tag (leading k c + m) (skip r 1) ≡ (ok t, q)
      → Decoded r t c q
  other_Decoded t q small e =
      let arm = other_tag_arm k c m ne small in
      let (p, s, parts, closed) =
        >>=-ok (parse_parts (leading k c + m)) (λ p. Reader.return (make_tag k p.0 p.1)) (skip r 1)
          (sym (ap (λ d. d (skip r 1)) arm) ∙ e) in
      let here : s ≡ q = ap (λ x. x.1) closed in
      let made : make_tag k p.0 p.1 ≡ t = ground arith in
      let found : Decoded r (make_tag k p.0 p.1) c s = elim (dec_lt m 31) [
        | yes short ↦ parts_short p s short parts
        | no long ↦ parts_long p s (omega arith) parts
      ] in
      subst₂ (λ u v. Decoded r u c v) made here found

universal_Decoded :
    (r : SliceReader) (b : ℕ) (rest : List ℕ) (t : Tag)
    → Ready r (b ∷ rest)
    → b < 256
    → universal_tag b ≡ some t
    → Decoded r t (has_flag b) (skip r 1)
universal_Decoded r b rest t ready small e =
    let (kind, joined) = universal_tag-some b t small e in
    let short = (number_universal t kind).1 in
    let octets : tag_octets t ≡ b ∷ [] =
      tag_octets_short t short
      ∙ ap (λ k. (leading k (is_constructed t) + number t) ∷ []) kind
      ∙ ap (λ x. x ∷ []) joined in
    record {
      rest = rest;
      ready = rw octets ready;
      moved = rw octets;
      fits = omega arith;
      form =
          ap has_flag (sym joined)
          ∙ leading_flag universal (is_constructed t) (number t) (omega arith);
    }

tag_from-Decoded :
    (r : SliceReader) (b : ℕ) (rest : List ℕ) (t : Tag) (q : SliceReader)
    → Ready r (b ∷ rest)
    → All IsByte r.bytes
    → b < 256
    → tag_from (universal_tag b) b (skip r 1) ≡ (ok t, q)
    → Decoded r t (has_flag b) q
tag_from-Decoded r b rest t q ready bytes small e = elim (Option-cases (universal_tag b)) [
  | inr (u, known) ↦
      let done : Reader.return u (skip r 1) ≡ (ok t, q) =
        sym (ap (λ o. tag_from o b (skip r 1)) known) ∙ e in
      let same : u ≡ t = ground arith in
      subst₂ (λ x s. Decoded r x (has_flag b) s) same (ap (λ p. p.1) done)
        (universal_Decoded r b rest u ready small known)
  | inl unknown ↦
      let open_arm : other_tag b (skip r 1) ≡ (ok t, q) =
        sym (ap (λ o. tag_from o b (skip r 1)) unknown) ∙ e in
      elim (Octet-cases b small) [
        | inr (kind, is) ↦ cc (sym (ap (λ d. d (skip r 1)) is) ∙ open_arm)
        | inl o ↦
            let flag : has_flag b ≡ o.form =
              ap has_flag (sym o.joined) ∙ leading_flag o.kind o.form o.low o.small in
            let front : Ready r ((leading o.kind o.form + o.low) ∷ rest) = rw o.joined ready in
            let arm : other_tag (leading o.kind o.form + o.low) (skip r 1) ≡ (ok t, q) =
              rw o.joined open_arm in
            rw flag (other_Decoded r o.kind o.form o.low rest o.above front bytes t q o.small arm)
      ]
]

-- Where a valid reader over bytes decodes a tag, its number is a u32, the reader stood in front of
-- the tag's own identifier octets (the shortest form) and stands behind them, and the constructed
-- bit that is returned is the tag's own.
pub decode_with_constructed_bit_ok :
    (r : SliceReader) (t : Tag) (constructed : Bool) (r' : SliceReader)
    → IsValid r
    → All IsByte r.bytes
    → decode_with_constructed_bit r ≡ (ok (t, constructed), r')
    → Decoded r t constructed r'
unfolding decode_with_constructed_bit
decode_with_constructed_bit_ok r t constructed r' valid bytes e =
    let rest_of = λ (b : ℕ). tag_from (universal_tag b) b >>= λ u. Reader.return (u, has_flag b) in
    let (b, s, read, later) = >>=-ok read_byte rest_of r e in
    let (rest, ready, moved) = read_byte_ok r valid read in
    let small = (Ready-IsByte r (b ∷ []) rest bytes ready).0 in
    let after : rest_of b (skip r 1) ≡ (ok (t, constructed), r') = rw (← moved) later in
    let (u, q, arm, closed) =
      >>=-ok (tag_from (universal_tag b) b) (λ u. Reader.return (u, has_flag b)) (skip r 1) after in
    let tag_is : u ≡ t = ground arith in
    let flag_is : has_flag b ≡ constructed = ground arith in
    subst₃ (λ x f v. Decoded r x f v) tag_is flag_is (ap (λ p. p.1) closed)
      (tag_from-Decoded r b rest u q ready bytes small arm)
