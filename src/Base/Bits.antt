-- ===== src/Base/Bits.antt =====
-- `&` on words at variables: one binary digit at a time, against a mask of ones, and below a shift.
use Prim.Native.Nat.{
  ℕ, zero, suc, ◌+◌, ◌-◌, ◌*◌, ◌/◌, ◌%◌, ◌^◌, ◌≤◌, ◌<◌, min, bit_and, digits, bit_and-bitwise,
}
use mathlib.Core.Path.{◌≡◌, refl, ap, ◌∙◌}
use native.Mathlib.Nat.{
  add-zero, mul_comm, mul_assoc, div-one, one-mul, pow-suc, one-le-pow, div-add-mod',
  div-div-eq-div-mul,
}
use native.Mathlib.Decide.{ℕ_discrete}
use native.Mathlib.Omega.{arith}

-- What the native operation stands for, with its fuel apart from its argument.
abbrev and_upto : ℕ → ℕ → ℕ → ℕ
and_upto fuel x y = digits (λ d. zero) min fuel x y

and_upto-enough : (fuel x y : ℕ) → x ≤ fuel → and_upto fuel x y ≡ bit_and x y
and_upto-enough fuel x y h = spare fuel x x y h (omega arith) ∙ back
  where
    spare : (f g u v : ℕ) → u ≤ f → u ≤ g → and_upto f u v ≡ and_upto g u v
    spare zero zero u v p q = refl
    spare zero (suc g) zero v p q = refl
    spare zero (suc g) (suc u) v p q = absurd (omega arith)
    spare (suc f) zero zero v p q = refl
    spare (suc f) zero (suc u) v p q = absurd (omega arith)
    spare (suc f) (suc g) zero v p q = refl
    spare (suc f) (suc g) (suc u) v p q =
        omega (arith, spare f g (suc u / 2) (v / 2) (omega arith) (omega arith))

    back : and_upto x x y ≡ bit_and x y
    back = omega (arith, bit_and-bitwise x y)

-- The law for the lowest digit.
pub bit_and-digit : (x y : ℕ) → bit_and x y ≡ bit_and (x / 2) (y / 2) * 2 + min (x % 2) (y % 2)
bit_and-digit zero y = omega (arith, bit_and-bitwise 0 y, bit_and-bitwise 0 (y / 2))
bit_and-digit (suc x) y =
    omega (arith, bit_and-bitwise (suc x) y, and_upto-enough x (suc x / 2) (y / 2) (omega arith))

and_none : (fuel x : ℕ) → x ≤ fuel → bit_and x 0 ≡ 0
and_none fuel zero h = omega (arith, bit_and-bitwise 0 0)
and_none zero (suc x) h = absurd (omega arith)
and_none (suc fuel) (suc x) h =
    omega (arith, bit_and-digit (suc x) 0, and_none fuel (suc x / 2) (omega arith))

pub bit_and-zero : (x : ℕ) → bit_and x 0 ≡ 0
bit_and-zero x = and_none x x (omega arith)

and_same : (fuel x : ℕ) → x ≤ fuel → bit_and x x ≡ x
and_same fuel zero h = omega (arith, bit_and-bitwise 0 0)
and_same zero (suc x) h = absurd (omega arith)
and_same (suc fuel) (suc x) h =
    omega (arith, bit_and-digit (suc x) (suc x), and_same fuel (suc x / 2) (omega arith))

pub bit_and_self : (x : ℕ) → bit_and x x ≡ x
bit_and_self x = and_same x x (omega arith)

low_digits : (x m : ℕ) → x / 2 % m * 2 + x % 2 ≡ x % (2 * m)
low_digits x m = omega (
  arith,
  div-add-mod' x (2 * m),
  div-add-mod' (x / 2) m,
  ap (λ (q : ℕ). q * m) (div-div-eq-div-mul x 2 m),
)

-- A mask of `k` ones keeps the remainder.
pub bit_and-mask : (k x : ℕ) → bit_and x (2 ^ k - 1) ≡ x % 2 ^ k
bit_and-mask zero x = omega (arith, bit_and-zero x)
bit_and-mask (suc k) x = ground (
  arith,
  pow-suc 2 k,
  one-le-pow k 2,
  bit_and-digit x (2 ^ suc k - 1),
  bit_and-mask k (x / 2),
  low_digits x (2 ^ k),
)

-- The digits of a shifted mask are those of the shifted word.
pub bit_and-even : (x m : ℕ) → bit_and x (2 * m) ≡ 2 * bit_and (x / 2) m
bit_and-even x m = ground (arith, bit_and-digit x (2 * m))

-- `n & (n - 1)`, for n > 0, clears the lowest digit that is set.
power_of : (fuel n : ℕ) → n ≤ fuel → 0 < n → bit_and n (n - 1) ≡ 0 → (k : ℕ) × (n ≡ 2 ^ k)
power_of zero n h p e = absurd (omega arith)
power_of (suc fuel) n h p e = elim (ℕ_discrete (n % 2) 0) [
  | yes even ↦
      let (k, pow) = power_of fuel (n / 2) (omega arith) (omega arith) (
        omega (
          arith,
          bit_and-digit n (n - 1),
          ap (bit_and (n / 2)) {x = (n - 1) / 2} {y = n / 2 - 1} (omega arith),
        )) in
      (suc k, omega (arith, pow-suc 2 k))
  | no odd ↦ (
    0,
    omega (
      arith,
      bit_and-digit n (n - 1),
      bit_and_self (n / 2),
      ap (bit_and (n / 2)) {x = (n - 1) / 2} {y = n / 2} (omega arith),
    ),
  )
]

-- Only the powers of two among the positive numbers have no digit left.
pub power_of_and-pred : (n : ℕ) → 0 < n → bit_and n (n - 1) ≡ 0 → (k : ℕ) × (n ≡ 2 ^ k)
power_of_and-pred n p e = power_of n n (omega arith) p e

pub pow-add : (a b : ℕ) → 2 ^ (a + b) ≡ 2 ^ a * 2 ^ b
pow-add a zero = simp (add-zero) (omega arith)
pow-add a (suc b) = omega (
  arith,
  pow-suc 2 (a + b),
  pow-suc 2 b,
  pow-add a b,
  ap (λ (t : ℕ). 2 ^ t) {x = a + suc b} {y = suc (a + b)} (omega arith),
  ap (λ (t : ℕ). 2 ^ a * t) (pow-suc 2 b),
)

-- A mask that is shifted left reads the digits of the word shifted right.
pub bit_and-shift : (s x m : ℕ) → bit_and x (2 ^ s * m) ≡ 2 ^ s * bit_and (x / 2 ^ s) m
bit_and-shift zero x m = simp (div-one, one-mul)
bit_and-shift (suc s) x m =
    rw
      (
        pow-suc,
        mul_comm (2 ^ s) 2,
        mul_assoc 2 (2 ^ s) m,
        mul_assoc 2 (2 ^ s),
        ← div-div-eq-div-mul x 2 (2 ^ s),
      )
      (bit_and-even x (2 ^ s * m) ∙ ap (λ (t : ℕ). 2 * t) (bit_and-shift s (x / 2) m))

-- A mask of the low digits finds nothing in a word that has none.
pub bit_and-above : (s x m : ℕ) → m < 2 ^ s → bit_and (2 ^ s * x) m ≡ 0
bit_and-above zero x m h =
    omega (arith, bit_and-zero (1 * x), ap (bit_and (1 * x)) {x = m} {y = 0} (omega arith))
bit_and-above (suc s) x m h = omega (
  arith,
  pow-suc 2 s,
  bit_and-digit (2 ^ suc s * x) m,
  ap (λ (t : ℕ). t * x) (pow-suc 2 s),
  ap (λ (t : ℕ). bit_and t (m / 2)) {x = 2 ^ suc s * x / 2} {y = 2 ^ s * x}
      (omega (arith, ap (λ (t : ℕ). t * x) (pow-suc 2 s))),
  bit_and-above s x (m / 2) (omega (arith, pow-suc 2 s)),
)

pub zero-bit_and : (m : ℕ) → bit_and 0 m ≡ 0
zero-bit_and m = omega (arith, bit_and-bitwise 0 m)
