-- ===== src/Common/Outcome.antt =====
-- Rust's `Result<T, E>`, with the `?` operator as bind.
use mathlib.Core.Path.{◌≡◌, refl, ap}
use mathlib.Core.Logic.{◌≢◌, ◌⊎◌, inl, inr}

pub data Result {ℓ} (A : Type ℓ) (E : Type 0) : Type ℓ where
  ok : A → Result A E
  err : E → Result A E

abbrev pub and_then {ℓ κ} :
    {A : Type ℓ} {B : Type κ} {E : Type 0} → Result A E → (A → Result B E) → Result B E
and_then (ok a) f = f a
and_then (err e) f = err e

pub Result-cases {ℓ} :
    {A : Type ℓ} {E : Type 0} (r : Result A E) → ((a : A) × (r ≡ ok a)) ⊎ ((e : E) × (r ≡ err e))
Result-cases (ok a) = inl (a, refl)
Result-cases (err e) = inr (e, refl)

module _ {E : Type 0} where
  infixl 5 ◌>>=◌
  abbrev pub ◌>>=◌ : {A B : Type 0} → Result A E → (A → Result B E) → Result B E
  ok a >>= f = f a
  err e >>= f = err e

  pub ok_inj : {A : Type 0} {a b : A} → ◌≡◌ {A = Result A E} (ok a) (ok b) → a ≡ b
  ok_inj h = cc

  pub err_inj : (A : Type 0) {d e : E} → ◌≡◌ {A = Result A E} (err d) (err e) → d ≡ e
  err_inj A h = cc

  -- Inversion of a chain that succeeds.
  pub >>=-ok :
      {A B : Type 0} (m : Result A E) (f : A → Result B E) {b : B}
      → (m >>= f) ≡ ok b
      → (a : A) × (m ≡ ok a) × (f a ≡ ok b)
  >>=-ok (ok a) f h = (a, refl, h)
  >>=-ok (err e) f h = cc

  -- An error of a chain whose last part does not give it.
  pub >>=-err :
      {A B : Type 0} (m : Result A E) (f : A → Result B E) {e : E}
      → ((a : A) → f a ≢ err e)
      → (m >>= f) ≡ err e
      → m ≡ err e
  >>=-err (ok a) f never h = absurd (never a h)
  >>=-err {B} (err d) f never h = ap err (err_inj B h)

  pub >>=_assoc :
      {A B C : Type 0} (m : Result A E) (f : A → Result B E) (g : B → Result C E)
      → ((m >>= f) >>= g) ≡ (m >>= λ a. f a >>= g)
  >>=_assoc (ok a) f g = refl
  >>=_assoc (err e) f g = refl

  pub >>=_same :
      {A B : Type 0} (m : Result A E) (f g : A → Result B E)
      → ((a : A) → f a ≡ g a)
      → (m >>= f) ≡ (m >>= g)
  >>=_same (ok a) f g h = h a
  >>=_same (err e) f g h = refl
