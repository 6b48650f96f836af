-- ===== src/Der/Length/Arithmetic.antt =====
-- der/src/length.rs: bounds of lengths, and `+` against `-`.
use formats.Common.{◌+◌, ◌≡◌, ok, arith, ℕ}
use formats.Der.Data.{Length}
use formats.Der.Length.{IsLength, new_usize, add, sub}

pub add_ok : (a b : Length) {c : Length} → add a b ≡ ok c → (c ≡ a + b) × IsLength c
unfolding add
add_ok a b h = ground arith

pub add-eq_ok : (a b : Length) → IsLength (a + b) → add a b ≡ ok (a + b)
unfolding add
add-eq_ok a b h = ground arith

pub sub-add : (a b : Length) {c : Length} → add a b ≡ ok c → sub c b ≡ ok a
unfolding add sub
sub-add a b h = ground arith

pub new_usize_ok : (n : ℕ) {c : Length} → new_usize n ≡ ok c → (c ≡ n) × IsLength c
unfolding new_usize
new_usize_ok n h = ground arith

pub new_usize-eq_ok : (n : ℕ) → IsLength n → new_usize n ≡ ok n
unfolding new_usize
new_usize-eq_ok n h = ground arith
