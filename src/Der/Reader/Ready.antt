-- ===== src/Der/Reader/Ready.antt =====
-- A reader that stands in front of known bytes, and what reading does to it.
use formats.Common.{
  ℕ, ◌+◌, ◌≤◌, ◌≡◌, refl, sym, ap, ◌∙◌, arith, false, List, [], ◌++◌, ok, err, length, drop,
  length-append, length-drop, drop_append, drop-drop_add, append_assoc, append-nil, All, All-drop,
  All-front, IsByte,
}
use mathlib.Core.Path.{subst}
use formats.Der.Data.{DerResult}
use formats.Der.Length.{IsLength}
use formats.Der.Reader.{SliceReader, Decoder, ◌>>=◌, continue, return}

-- The positions, lengths and nesting of a reader fit together.
pub record IsValid (r : SliceReader) : Type 0 where
  pub inside : r.position.position ≤ length r.bytes
  pub window : length r.bytes ≤ r.position.input_len
  pub small : IsLength r.position.input_len
  pub shallow : r.position.depth ≤ 64

-- The bytes from the position to the end of the slice.
abbrev pub ahead : SliceReader → List ℕ
ahead r = drop r.position.position r.bytes

pub record Ready (r : SliceReader) (bs : List ℕ) : Type 0 where
  pub live : r.failed ≡ false
  pub next : ahead r ≡ bs
  pub valid : IsValid r

-- The reader `n` bytes further on.
abbrev pub skip : SliceReader → ℕ → SliceReader
skip r n = record r { position = record r.position { position = r.position.position + n } }

pub Ready-fits :
    (r : SliceReader) (a b : List ℕ)
    → Ready r (a ++ b)
    → r.position.position + length a + length b ≡ length r.bytes
Ready-fits r a b h = omega (
  arith,
  ap length h.next,
  length-append a b,
  length-drop r.position.position r.bytes,
  h.valid.inside,
)

pub Ready-skip : (r : SliceReader) (a b : List ℕ) → Ready r (a ++ b) → Ready (skip r (length a)) b
Ready-skip r a b h = record {
  live = h.live;
  next =
      sym (drop-drop_add r.position.position (length a) r.bytes)
      ∙ ap (drop (length a)) h.next
      ∙ drop_append a b;
  valid = record {
    inside = omega (arith, Ready-fits r a b h);
    window = h.valid.window;
    small = h.valid.small;
    shallow = h.valid.shallow;
  };
}

pub skip-skip : (r : SliceReader) (n m : ℕ) → skip (skip r n) m ≡ skip r (n + m)
skip-skip r n m =
    ap (λ k. record r { position = record r.position { position = k } })
      {x = r.position.position + n + m} {y = r.position.position + (n + m)} (omega arith)

-- `m` reads exactly the bytes `bs`, whatever follows them, and returns `a`.
abbrev pub Reads {ℓ} : {A : Type ℓ} → Decoder A → List ℕ → A → Type ℓ
Reads m bs a =
    (r : SliceReader) (rest : List ℕ) → Ready r (bs ++ rest) → m r ≡ (ok a, skip r (length bs))

pub Reads-bind {ℓ κ} :
    {A : Type ℓ} {B : Type κ} (m : Decoder A) (f : A → Decoder B) (bs cs : List ℕ) (a : A) (b : B)
    → Reads m bs a
    → Reads (f a) cs b
    → Reads (m >>= f) (bs ++ cs) b
Reads-bind m f bs cs a b h k r rest ready =
    let whole : Ready r (bs ++ (cs ++ rest)) = rw (append_assoc bs cs rest) at ready in
    rw (h r (cs ++ rest) whole) (
      k (skip r (length bs)) rest (Ready-skip r bs (cs ++ rest) whole)
      ∙ ap (λ q. (ok b, q))
          (skip-skip r (length bs) (length cs) ∙ ap (skip r) (sym (length-append bs cs))))

continue_ok {ℓ κ} :
    {A : Type ℓ} {B : Type κ} (p : DerResult A × SliceReader) (f : A → Decoder B) {b : B}
    {r' : SliceReader}
    → continue p f ≡ (ok b, r')
    → (a : A) × (q : SliceReader) × (p ≡ (ok a, q)) × (f a q ≡ (ok b, r'))
continue_ok (ok a, q) f e = (a, q, refl, e)
continue_ok (err x, q) f e = absurd (cc)

-- Inversion of a successful sequence.
pub >>=-ok {ℓ κ} :
    {A : Type ℓ} {B : Type κ} (m : Decoder A) (f : A → Decoder B) (r : SliceReader) {b : B}
    {r' : SliceReader}
    → (m >>= f) r ≡ (ok b, r')
    → (a : A) × (q : SliceReader) × (m r ≡ (ok a, q)) × (f a q ≡ (ok b, r'))
>>=-ok m f r e = continue_ok (m r) f e

-- The reader after the bytes `bs`, where `m` succeeds only in front of them.
pub IsValid-skip : (r : SliceReader) (a b : List ℕ) → Ready r (a ++ b) → IsValid (skip r (length a))
IsValid-skip r a b h = (Ready-skip r a b h).valid

-- `m` succeeds only in front of the bytes that `octets` gives for its result, and takes just them.
abbrev pub Parses {ℓ} : {A : Type ℓ} → Decoder A → (A → List ℕ) → Type ℓ
Parses {A} m octets =
    (r : SliceReader) (a : A) (r' : SliceReader)
    → IsValid r
    → All IsByte r.bytes
    → m r ≡ (ok a, r')
    → (rest : List ℕ) × Ready r (octets a ++ rest) × (r' ≡ skip r (length (octets a)))

-- What stands before a reader of bytes is bytes.
pub Ready-IsByte :
    (r : SliceReader) (a b : List ℕ) → All IsByte r.bytes → Ready r (a ++ b) → All IsByte a
Ready-IsByte r a b bytes h =
    All-front IsByte a b (rw h.next at (All-drop IsByte r.position.position r.bytes bytes))

pub skip-zero : (r : SliceReader) → r ≡ skip r 0
skip-zero r =
    ap (λ k. record r { position = record r.position { position = k } }) {x = r.position.position}
      {y = r.position.position + 0} (omega arith)

pub return-Reads {ℓ} : {A : Type ℓ} (a : A) → Reads (return a) [] a
return-Reads a r rest h = ap (λ q. (ok a, q)) (skip-zero r)

-- What stands between two places is read in two steps.
pub Ready-append :
    (r : SliceReader) (a b c : List ℕ) → Ready r (a ++ (b ++ c)) → Ready r ((a ++ b) ++ c)
Ready-append r a b c h = rw (append_assoc a b c) h

pub Ready-extend :
    (r : SliceReader) (a b c rest : List ℕ)
    → Ready r (a ++ rest)
    → Ready (skip r (length a)) (b ++ c)
    → Ready r ((a ++ b) ++ c)
Ready-extend r a b c rest h k =
    let same : rest ≡ b ++ c = sym (Ready-skip r a rest h).next ∙ k.next in
    Ready-append r a b c (rw same at h)

-- A sequence whose last step reads nothing.
pub Reads-end {ℓ κ} :
    {A : Type ℓ} {B : Type κ} (m : Decoder A) (f : A → Decoder B) (bs : List ℕ) (a : A) (b : B)
    → Reads m bs a
    → Reads (f a) [] b
    → Reads (m >>= f) bs b
Reads-end m f bs a b h k =
    subst (λ xs. Reads (m >>= f) xs b) (append-nil bs) (Reads-bind m f bs [] a b h k)

-- The same bytes are read by an equal decoder.
pub Reads-eq {ℓ} :
    {A : Type ℓ} {m k : Decoder A} (bs : List ℕ) (a : A) → m ≡ k → Reads k bs a → Reads m bs a
Reads-eq bs a e h = subst (λ d. Reads d bs a) (sym e) h
