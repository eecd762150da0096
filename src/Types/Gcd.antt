-- ===== src/Types/Gcd.antt =====
-- The greatest common divisor, for gcd of engine/ar_typedef.h.
use native.Mathlib.Nat.{div-add-mod', mod-lt, mul-sub}
use mathlib.Core.Path.{subst}
use siena_mem.Base.{
  ℕ, zero, suc, ◌+◌, ◌-◌, ◌*◌, ◌/◌, ◌%◌, ◌≤◌, ◌<◌, ◌≡◌, sym, ap, inl, inr, arith, ◌==◌, Bool-cases,
  ==→eq, ==→ne,
}
use siena_mem.Types.{gcd, gcd_steps}

-- `g` divides `a`.
abbrev pub Divides : ℕ → ℕ → Type 0
Divides g a = (q : ℕ) × (a ≡ q * g)

-- `g` divides both, and whatever divides both divides it.
pub record IsGcd (g a b : ℕ) : Type 0 where
  pub left : Divides g a
  pub right : Divides g b
  pub greatest : (d : ℕ) → Divides d a → Divides d b → Divides d g

Divides-sum : (g a b k : ℕ) → Divides g a → Divides g b → Divides g (k * b + a)
Divides-sum g a b k (p, e) (q, f) = (k * q + p, omega (arith, ap (λ (t : ℕ). k * t) f, e))

Divides-rest : (g a b k : ℕ) → Divides g (k * b + a) → Divides g b → Divides g a
Divides-rest g a b k (p, e) (q, f) =
    let product : k * b ≡ k * q * g = omega (arith, ap (λ (t : ℕ). k * t) f) in
    let below : k * q * g ≤ p * g = omega (arith, e, product) in
    (p - k * q, omega (arith, e, product, below, mul-sub g p (k * q)))

IsGcd-step : (g a b : ℕ) → 0 < b → IsGcd g b (a % b) → IsGcd g a b
IsGcd-step g a b pos h =
    let exact = div-add-mod' a b in
    record {
      left = subst (Divides g) exact (Divides-sum g (a % b) b (a / b) h.right h.left);
      right = h.left;
      greatest = λ d p q.
          h.greatest d q (Divides-rest d (a % b) b (a / b) (subst (Divides d) (sym exact) p) q);
    }

gcd_steps-IsGcd : (fuel a b : ℕ) → b < fuel → IsGcd (gcd_steps fuel a b) a b
unfolding gcd_steps
gcd_steps-IsGcd zero a b h = absurd (omega arith)
gcd_steps-IsGcd (suc fuel) a b h = elim (Bool-cases (b == 0)) [
  | inl e ↦
      rw (e, ==→eq b 0 e)
        (record { left = (1, omega arith); right = (0, omega arith); greatest = λ d p q. p })
  | inr e ↦
      let pos : 0 < b = omega (arith, ==→ne b 0 e) in
      rw e (IsGcd-step _ a b pos (gcd_steps-IsGcd fuel b (a % b) (omega (arith, mod-lt a pos))))
]

-- gcd returns the greatest common divisor of its arguments.
pub gcd-IsGcd : (a b : ℕ) → IsGcd (gcd a b) a b
unfolding gcd
gcd-IsGcd a b = gcd_steps-IsGcd (suc b) a b (omega arith)
