-- ===== src/Base/Words.antt =====
-- `uint64_t`, `size_t` and `ADDR_T` as native numbers below 2 ^ 64, with the wrap-around written out.
use Prim.Native.Nat.{ℕ, ◌+◌, ◌-◌, ◌*◌, ◌%◌, ◌^◌, ◌≤◌, ◌<◌}
use mathlib.Core.Path.{◌≡◌}
use native.Mathlib.Nat.{mod-eq_of_lt}
use native.Mathlib.Omega.{arith}

abbrev pub word : ℕ
word = 2 ^ 64

-- UINT64_MAX
abbrev pub word_max : ℕ
word_max = 2 ^ 64 - 1

unfoldable pub add64 : ℕ → ℕ → ℕ
add64 a b = (a + b) % word

unfoldable pub sub64 : ℕ → ℕ → ℕ
sub64 a b = (a + word - b) % word

unfoldable pub mul64 : ℕ → ℕ → ℕ
mul64 a b = (a * b) % word

-- Where the true value fits, the machine computes it.
pub add64-eq : (a b : ℕ) → a + b < word → add64 a b ≡ a + b
unfolding add64
add64-eq a b h = omega arith

pub sub64-eq : (a b : ℕ) → b ≤ a → a < word → sub64 a b ≡ a - b
unfolding sub64
sub64-eq a b h k = omega arith

pub mul64-eq : (a b : ℕ) → a * b < word → mul64 a b ≡ a * b
unfolding mul64
mul64-eq a b h = mod-eq_of_lt h

pub add64-lt : (a b : ℕ) → add64 a b < word
unfolding add64
add64-lt a b = omega arith

pub sub64-lt : (a b : ℕ) → sub64 a b < word
unfolding sub64
sub64-lt a b = omega arith
