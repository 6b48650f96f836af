-- ===== src/Tls/Codec/Options.antt =====
-- tls_codec/src/primitives.rs: options.
use formats.Common.{
  ℕ, zero, suc, ◌+◌, ◌^◌, ◌<◌, ◌≡◌, refl, sym, ap, ◌∙◌, arith, Option, none, some, List, [], ◌∷◌,
  ◌++◌, ok, err, length, All, IsByte,
}
use mathlib.Core.Path.{subst}
use formats.Common.BigEndian.{be_number}
use formats.Tls.Data.{
  Codec, ◌>>=◌, >>=-ok, ok_inj, checked_alloc_len, checked_capacity, end_of_stream,
}
use formats.Tls.Codec.{
  deserialize_unsigned, option_len, serialize_option, option_from, some_element, deserialize_option,
  option_codec,
}
use formats.Tls.Codec.Lawful.{Lawful, Canonical}
use formats.Tls.Codec.Primitives.{unsigned_reads}

pub checked_alloc_len_ok : (a b : ℕ) → a + b < 2 ^ 63 → checked_alloc_len a b ≡ ok (a + b)
unfolding checked_alloc_len checked_capacity
checked_alloc_len_ok a b h = ground arith

one_byte : (b : ℕ) → be_number 0 (b ∷ []) ≡ b
unfolding be_number
one_byte b = omega arith

module _ {A : Type 0} (c : Codec A) (InRange : A → Type 0) (octets : A → List ℕ) where
  -- The value is in range, and with its tag it is not longer than memory may be.
  abbrev pub OptionInRange : Option A → Type 0
  OptionInRange none = Unit {0}
  OptionInRange (some a) = InRange a × (c.tls_serialized_len a + 1 < 2 ^ 63)

  abbrev pub option_octets : Option A → List ℕ
  option_octets none = 0 ∷ []
  option_octets (some a) = 1 ∷ octets a

  read_tag :
      (tag : ℕ) (rest : List ℕ) → deserialize_option c (tag ∷ rest) ≡ option_from c (tag, rest)
  unfolding deserialize_option
  read_tag tag rest =
      ap (λ r. r >>= option_from c) (unsigned_reads 1 (tag ∷ []) rest refl)
      ∙ ap (λ n. option_from c (n, rest)) (one_byte tag)

  no_tag : deserialize_option c [] ≡ err end_of_stream
  unfolding deserialize_option deserialize_unsigned
  no_tag = refl

  module _ (l : Lawful c InRange octets) where
    option_written : (o : Option A) → OptionInRange o → serialize_option c o ≡ ok (option_octets o)
    unfolding serialize_option
    option_written none h = refl
    option_written (some a) h =
        rw (checked_alloc_len_ok (c.tls_serialized_len a) 1 h.1, l.written a h.0) refl

    option_announced : (o : Option A) → OptionInRange o → option_len c o ≡ length (option_octets o)
    unfolding option_len
    option_announced none h = omega arith
    option_announced (some a) h = omega (arith, l.announced a h.0)

    option_reads :
        (o : Option A) (rest : List ℕ)
        → OptionInRange o
        → deserialize_option c (option_octets o ++ rest) ≡ ok (o, rest)
    option_reads none rest h = read_tag 0 rest
    option_reads (some a) rest h = read_tag 1 (octets a ++ rest) ∙ rw (l.reads a rest h.0) refl

    pub option-Lawful : Lawful (option_codec c) OptionInRange option_octets
    option-Lawful = record {
      written = option_written;
      announced = option_announced;
      reads = option_reads;
    }

  -- The tag is 0 or 1.
  option_from_ok :
      (tag : ℕ) (bytes : List ℕ) (o : Option A) (rest : List ℕ)
      → Canonical c InRange octets
      → ((a : A) → InRange a → c.tls_serialized_len a + 1 < 2 ^ 63)
      → All IsByte bytes
      → option_from c (tag, bytes) ≡ ok (o, rest)
      → OptionInRange o × (tag ∷ bytes ≡ option_octets o ++ rest)
  option_from_ok zero bytes o rest k small all e =
      subst (λ q. OptionInRange q.0 × (0 ∷ bytes ≡ option_octets q.0 ++ q.1)) (ok_inj e) (tt, refl)
  option_from_ok (suc zero) bytes o rest k small all e =
      let ((a, next), read, same) = >>=-ok (c.tls_deserialize_bytes bytes) (some_element c) e in
      let (range, is) = k.only bytes a next all read in
      subst (λ q. OptionInRange q.0 × (1 ∷ bytes ≡ option_octets q.0 ++ q.1)) (ok_inj same)
        ((range, small a range), ap (◌∷◌ 1) is)
  option_from_ok (suc (suc tag)) bytes o rest k small all e = absurd (ground arith)

  option_only :
      (bytes : List ℕ) (o : Option A) (rest : List ℕ)
      → Canonical c InRange octets
      → ((a : A) → InRange a → c.tls_serialized_len a + 1 < 2 ^ 63)
      → All IsByte bytes
      → deserialize_option c bytes ≡ ok (o, rest)
      → OptionInRange o × (bytes ≡ option_octets o ++ rest)
  option_only [] o rest k small all e = cc (sym no_tag ∙ e)
  option_only (tag ∷ bytes) o rest k small all e =
      option_from_ok tag bytes o rest k small all.1 (sym (read_tag tag bytes) ∙ e)

  -- An option of a canonical type is canonical, where no value fills the memory.
  pub option-Canonical :
      Canonical c InRange octets
      → ((a : A) → InRange a → c.tls_serialized_len a + 1 < 2 ^ 63)
      → Canonical (option_codec c) OptionInRange option_octets
  option-Canonical k small = record {
    only = λ bytes o rest all e. option_only bytes o rest k small all e;
  }
