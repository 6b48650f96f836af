-- ===== src/Oid/Parser/Decimal.antt =====
-- const-oid/src/parser.rs on the digits of one number.
use formats.Common.{
  ℕ, zero, suc, ◌+◌, ◌-◌, ◌*◌, ◌/◌, ◌%◌, ◌^◌, ◌≤◌, ◌<◌, ◌≡◌, ap, ◌∙◌, arith, true, none, some, List,
  [], ◌∷◌, ◌++◌, append_assoc,
}
use native.Mathlib.Decide.{dec_lt}
use native.Mathlib.Nat.{pow-suc}
use formats.Oid.Encoder.{Encoder}
use formats.Oid.Parser.{is_digit, push_digit, parse_bytes}
use formats.Oid.Identifier.{decimal}

push_digit_fits : (arc d : ℕ) → arc * 10 + d < 2 ^ 32 → push_digit arc d ≡ some (arc * 10 + d)
unfolding push_digit
push_digit_fits arc d h = ground arith

is_digit_of : (d : ℕ) → d < 10 → is_digit (b'0' + d) ≡ true
unfolding is_digit
is_digit_of d h = ground arith

digit_value :
    (arc d : ℕ) → arc * 10 + d < 2 ^ 32 → push_digit arc (b'0' + d - b'0') ≡ some (arc * 10 + d)
digit_value arc d h = ap (push_digit arc) (omega arith) ∙ push_digit_fits arc d h

module _ (rest : List ℕ) (e : Encoder) where
  first_digit :
      (d : ℕ) → d < 10 → parse_bytes ((b'0' + d) ∷ rest) none e ≡ parse_bytes rest (some d) e
  unfolding parse_bytes
  first_digit d h =
      rw (is_digit_of d h, digit_value 0 d (omega arith))
        (ap (λ n. parse_bytes rest (some n) e) (omega arith))

  next_digit :
      (arc d : ℕ)
      → d < 10
      → arc * 10 + d < 2 ^ 32
      → parse_bytes ((b'0' + d) ∷ rest) (some arc) e ≡ parse_bytes rest (some (arc * 10 + d)) e
  unfolding parse_bytes
  next_digit arc d h fits = rw (is_digit_of d h, digit_value arc d fits)

decimal_one : (k n : ℕ) → n < 10 → decimal (suc k) n ≡ (b'0' + n) ∷ []
unfolding decimal
decimal_one k n h = ground arith

decimal_more : (k n : ℕ) → 10 ≤ n → decimal (suc k) n ≡ decimal k (n / 10) ++ ((b'0' + n % 10) ∷ [])
unfolding decimal
decimal_more k n h = ground arith

-- A number in decimal is parsed as that number.
pub parse_decimal :
    (k n : ℕ) (rest : List ℕ) (e : Encoder)
    → n < 10 ^ suc k
    → n < 2 ^ 32
    → parse_bytes (decimal (suc k) n ++ rest) none e ≡ parse_bytes rest (some n) e
parse_decimal zero n rest e h fits =
    rw (decimal_one 0 n (omega arith)) (first_digit rest e n (omega arith))
parse_decimal (suc k) n rest e h fits = elim (dec_lt n 10) [
  | yes one ↦ rw (decimal_one (suc k) n one) (first_digit rest e n one)
  | no more ↦
      let split : 10 ^ suc (suc k) ≡ 10 ^ suc k * 10 = pow-suc 10 (suc k) in
      let last : ℕ = b'0' + n % 10 in
      let whole : n / 10 * 10 + n % 10 ≡ n = omega arith in
      ap (λ t. parse_bytes (t ++ rest) none e) (decimal_more (suc k) n (omega arith))
      ∙ ap (λ t. parse_bytes t none e) (append_assoc (decimal (suc k) (n / 10)) (last ∷ []) rest)
      ∙ parse_decimal k (n / 10) (last ∷ rest) e (omega arith) (omega arith)
      ∙ next_digit rest e (n / 10) (n % 10) (omega arith) (omega arith)
      ∙ ap (λ m. parse_bytes rest (some m) e) whole
]

-- It begins with a digit.
pub record Digits (text : List ℕ) : Type 0 where
  pub first : ℕ
  pub others : List ℕ
  pub is : text ≡ first ∷ others
  pub digit : is_digit first ≡ true

pub decimal-Digits : (k n : ℕ) → n < 10 ^ suc k → Digits (decimal (suc k) n)
decimal-Digits zero n h = record {
  first = b'0' + n;
  others = [];
  is = decimal_one 0 n (omega arith);
  digit = is_digit_of n (omega arith);
}
decimal-Digits (suc k) n h = elim (dec_lt n 10) [
  | yes one ↦ record {
    first = b'0' + n;
    others = [];
    is = decimal_one (suc k) n one;
    digit = is_digit_of n (omega arith);
  }
  | no more ↦
      let split : 10 ^ suc (suc k) ≡ 10 ^ suc k * 10 = pow-suc 10 (suc k) in
      let d = decimal-Digits k (n / 10) (omega arith) in
      record {
        first = d.first;
        others = d.others ++ ((b'0' + n % 10) ∷ []);
        is = decimal_more (suc k) n (omega arith) ∙ ap (λ t. t ++ ((b'0' + n % 10) ∷ [])) d.is;
        digit = d.digit;
      }
]
