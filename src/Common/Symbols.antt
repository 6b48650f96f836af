-- ===== src/Common/Symbols.antt =====
-- Alphabets of text encodings as lists of symbols.
use formats.Common.Tests.{◌==◌, ==→eq, if◌then◌else◌}
use formats.Common.Lists.{length, IsByte}
use formats.Common.Bits.{holds_below, holds_below_at}
use mathlib.Core.Path.{◌≡◌}
use mathlib.Core.Bool.{true}
use mathlib.Core.List.{List, [], ◌∷◌}
use Prim.Native.Nat.{ℕ, zero, suc, ◌+◌, ◌<◌}

-- So many characters in a row.
abbrev pub run : ℕ → ℕ → List ℕ
run first zero = []
run first (suc n) = first ∷ run (first + 1) n

-- The place of a character, and 0xffff, the -1 of the code, where it is not in the list.
abbrev pub place : List ℕ → ℕ → ℕ → ℕ
place [] n c = 0xffff
place (s ∷ symbols) n c = let rest = place symbols (n + 1) c in if s == c then n else rest

abbrev pub symbol : List ℕ → ℕ → ℕ
symbol [] n = 0
symbol (s ∷ symbols) zero = s
symbol (s ∷ symbols) (suc n) = symbol symbols n

-- The decoder of characters gives each byte its place in the list of symbols, and the encoder gives
-- each place its symbol.
pub record Agrees (decode encode : ℕ → ℕ) (symbols : List ℕ) : Type 0 where
  pub decoder : (c : ℕ) → IsByte c → decode c ≡ place symbols 0 c
  pub encoder : (n : ℕ) → n < length symbols → encode n ≡ symbol symbols n

pub Agrees-table :
    (decode encode : ℕ → ℕ) (symbols : List ℕ)
    → holds_below (λ c. decode c == place symbols 0 c) 256 ≡ true
    → holds_below (λ n. encode n == symbol symbols n) (length symbols) ≡ true
    → Agrees decode encode symbols
Agrees-table decode encode symbols decodes encodes = record {
  decoder = λ c h.
      ==→eq (decode c) (place symbols 0 c)
        (holds_below_at (λ k. decode k == place symbols 0 k) 256 c h decodes);
  encoder = λ n h.
      ==→eq (encode n) (symbol symbols n)
        (holds_below_at (λ k. encode k == symbol symbols k) (length symbols) n h encodes);
}
