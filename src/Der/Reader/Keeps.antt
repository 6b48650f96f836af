-- ===== src/Der/Reader/Keeps.antt =====
-- der/src/reader/slice.rs: well-formedness across the operations of the reader.
use formats.Common.{
  ℕ, zero, suc, ◌≤◌, ◌≡◌, refl, ◌∙◌, arith, Bool, not, ◌||◌, true, false, ok, err, length-drop,
  if◌then◌else◌, leb, ◌==◌,
}
use formats.Der.Data.{DerResult, Length, ErrorKind, failed}
use formats.Der.Length.{sub, new_usize}
use formats.Der.Position
use formats.Der.Position.{Position, Resumption}
use formats.Der.Reader.Ready.{IsValid}
use formats.Der.Reader.{
  SliceReader, Decoder, ◌>>=◌, continue, return, lift, error, first, read_slice, read_into,
  read_byte, drain_loop, drain, decode, mark_failed,
}

-- What every operation leaves alone: a valid reader stays valid in the same window at the same
-- depth, moves only forward, and does not recover from a failure.
pub record Keeps (r r' : SliceReader) : Type 0 where
  pub valid : IsValid r'
  pub same_len : r'.position.input_len ≡ r.position.input_len
  pub same_depth : r'.position.depth ≡ r.position.depth
  pub forward : r.position.position ≤ r'.position.position
  pub sticky : (not r.failed || r'.failed) ≡ true

abbrev pub Safe {ℓ} : {A : Type ℓ} → Decoder A → Type 0
Safe m = (r : SliceReader) → IsValid r → Keeps r (m r).1

pub sticky_refl : (b : Bool) → (not b || b) ≡ true
sticky_refl true = refl
sticky_refl false = refl

sticky_true : (b : Bool) → (not b || true) ≡ true
sticky_true true = refl
sticky_true false = refl

sticky_trans : (a b c : Bool) → (not a || b) ≡ true → (not b || c) ≡ true → (not a || c) ≡ true
sticky_trans false b c h k = refl
sticky_trans true true c h k = k
sticky_trans true false c h k = absurd (cc)

pub Keeps-refl : (r : SliceReader) → IsValid r → Keeps r r
Keeps-refl r v = record {
  valid = v;
  same_len = refl;
  same_depth = refl;
  forward = omega arith;
  sticky = sticky_refl r.failed;
}

pub Keeps-trans : {r s t : SliceReader} → Keeps r s → Keeps s t → Keeps r t
Keeps-trans {r = r} {s = s} {t = t} h k = record {
  valid = k.valid;
  same_len = k.same_len ∙ h.same_len;
  same_depth = k.same_depth ∙ h.same_depth;
  forward = omega arith;
  sticky = sticky_trans r.failed s.failed t.failed h.sticky k.sticky;
}

pub return-Safe {ℓ} : {A : Type ℓ} (a : A) → Safe (return a)
return-Safe a r v = Keeps-refl r v

pub lift-Safe {ℓ} : {A : Type ℓ} (res : DerResult A) → Safe (lift res)
lift-Safe res r v = Keeps-refl r v

pub error-Safe {ℓ} : (A : Type ℓ) (kind : ErrorKind) → Safe (error {A = A} kind)
error-Safe A kind r v = record {
  valid = record { inside = v.inside; window = v.window; small = v.small; shallow = v.shallow };
  same_len = refl;
  same_depth = refl;
  forward = omega arith;
  sticky = sticky_true r.failed;
}

continue-Keeps {ℓ κ} :
    {A : Type ℓ} {B : Type κ} (r : SliceReader) (p : DerResult A × SliceReader) (f : A → Decoder B)
    → Keeps r p.1
    → ((a : A) → Safe (f a))
    → Keeps r (continue p f).1
continue-Keeps r (ok a, q) f h k = Keeps-trans h (k a q h.valid)
continue-Keeps r (err e, q) f h k = h

pub >>=-Safe {ℓ κ} :
    {A : Type ℓ} {B : Type κ} (m : Decoder A) (f : A → Decoder B)
    → Safe m
    → ((a : A) → Safe (f a))
    → Safe (m >>= f)
>>=-Safe m f h k r v = continue-Keeps r (m r) f (h r v) k

pub read_slice-Safe : (len : Length) → Safe (read_slice len)
unfolding read_slice Position.advance
read_slice-Safe len r v = ground (arith, length-drop r.position.position r.bytes)

pub if-Safe {ℓ} :
    {A : Type ℓ} (b : Bool) (m k : Decoder A) → Safe m → Safe k → Safe (if b then m else k)
if-Safe true m k h g = h
if-Safe false m k h g = g

pub read_into-Safe : (n : ℕ) → Safe (read_into n)
unfolding read_into
read_into-Safe n =
    >>=-Safe (lift (new_usize n)) read_slice (lift-Safe (new_usize n)) read_slice-Safe

pub read_byte-Safe : Safe read_byte
unfolding read_byte
read_byte-Safe =
    >>=-Safe (read_into 1) (λ buf. return (first buf)) (read_into-Safe 1)
      (λ buf. return-Safe (first buf))

drain_loop-Safe : (fuel : ℕ) (amount : Length) → Safe (drain_loop fuel amount)
unfolding drain_loop
drain_loop-Safe zero amount = return-Safe (tt {0})
drain_loop-Safe (suc fuel) amount =
    let nbytes = if leb 16 amount then 16 else amount in
    let rest : Decoder (Unit {0}) = lift (sub amount nbytes) >>= drain_loop fuel in
    if-Safe (amount == 0) (return tt) (read_into nbytes >>= λ _. rest) (return-Safe (tt {0})) (
      >>=-Safe (read_into nbytes) (λ _. rest) (read_into-Safe nbytes)
        (λ _.
          >>=-Safe (lift (sub amount nbytes)) (drain_loop fuel) (lift-Safe (sub amount nbytes))
            (drain_loop-Safe fuel)))

pub drain-Safe : (amount : Length) → Safe (drain amount)
unfolding drain
drain-Safe amount = drain_loop-Safe amount amount

if-Keeps {ℓ} :
    {A : Type ℓ} (r : SliceReader) (b : Bool) (p q : DerResult A × SliceReader)
    → Keeps r p.1
    → Keeps r q.1
    → Keeps r (if b then p else q).1
if-Keeps r true p q h k = h
if-Keeps r false p q h k = k

mark_failed-Keeps {ℓ} :
    {A : Type ℓ} (r : SliceReader) (p : DerResult A × SliceReader)
    → Keeps r p.1
    → Keeps r (mark_failed p).1
mark_failed-Keeps r (ok a, q) h = h
mark_failed-Keeps {A = A} r (err e, q) h = Keeps-trans h (error-Safe A failed q h.valid)

pub decode-Safe {ℓ} : {A : Type ℓ} (m : Decoder A) → Safe m → Safe (decode m)
unfolding decode
decode-Safe {A = A} m h r v =
    if-Keeps r r.failed (error failed r) (mark_failed (m r)) (error-Safe A failed r v)
      (mark_failed-Keeps r (m r) (h r v))
