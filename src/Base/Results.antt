-- ===== src/Base/Results.antt =====
-- Results that can fail: division, the chaining of results, and postconditions.
use Prim.Native.Nat.{ℕ, ◌/◌, ◌%◌}
use mathlib.Core.Path.{◌≡◌, refl, subst}
use mathlib.Core.Logic.{◌⊎◌, inl, inr}
use mathlib.Core.List.{List, [], ◌∷◌}
use mathlib.Core.Bool.{Bool, true, false}
use mathlib.Core.Option.{Option, none, some}
use siena_mem.Base.Tests.{◌==◌, if◌then◌else◌}

abbrev pub div? : ℕ → ℕ → Option ℕ
div? a b = if b == 0 then none else some (a / b)

abbrev pub mod? : ℕ → ℕ → Option ℕ
mod? a b = if b == 0 then none else some (a % b)

infixl 5 ◌>>=◌
abbrev pub ◌>>=◌ {ℓ κ} : {A : Type ℓ} {B : Type κ} → Option A → (A → Option B) → Option B
none >>= f = none
some a >>= f = f a

-- A postcondition of a result, which holds of a failure.
abbrev pub Ok {ℓ} : {A : Type ℓ} → (A → Type 0) → Option A → Type 0
Ok P none = Unit
Ok P (some a) = P a

module _ {ℓ κ} {A : Type ℓ} {B : Type κ} where
  pub Ok-bind :
      (P : B → Type 0) (o : Option A) (g : A → Option B) → ((a : A) → Ok P (g a)) → Ok P (o >>= g)
  Ok-bind P none g h = tt
  Ok-bind P (some a) g h = h a

  pub Ok-bind_eq :
      (P : B → Type 0) (o : Option A) (g : A → Option B)
      → ((a : A) → o ≡ some a → Ok P (g a))
      → Ok P (o >>= g)
  Ok-bind_eq P none g h = tt
  Ok-bind_eq P (some a) g h = h a refl

  pub Ok-then :
      (P : B → Type 0) (Q : A → Type 0) (o : Option A) (g : A → Option B)
      → Ok Q o
      → ((a : A) → Q a → Ok P (g a))
      → Ok P (o >>= g)
  Ok-then P Q none g k h = tt
  Ok-then P Q (some a) g k h = h a k

pub Ok-if {ℓ} :
    {A : Type ℓ} (P : A → Type 0) (b : Bool) (x y : Option A)
    → (b ≡ true → Ok P x)
    → (b ≡ false → Ok P y)
    → Ok P (if b then x else y)
Ok-if P true x y f g = f refl
Ok-if P false x y f g = g refl

pub Ok-some {ℓ} : {A : Type ℓ} (P : A → Type 0) (o : Option A) (a : A) → Ok P o → o ≡ some a → P a
Ok-some P o a k e = subst (λ x. Ok P x) e k

pub some_inj {ℓ} : {A : Type ℓ} (a b : A) → some a ≡ some b → a ≡ b
some_inj a b e = cc e

pub List-cases {ℓ} : {A : Type ℓ} (l : List A) → (l ≡ []) ⊎ ((x : A) × (xs : List A) × (l ≡ x ∷ xs))
List-cases [] = inl refl
List-cases (x ∷ xs) = inr (x, xs, refl)

module _ {ℓ κ} {A : Type ℓ} {B : Type κ} where
  pub bind_congr :
      (o : Option A) (f g : A → Option B) → ((a : A) → f a ≡ g a) → (o >>= f) ≡ (o >>= g)
  bind_congr none f g h = refl
  bind_congr (some a) f g h = h a

module _ {ℓ κ μ} {A : Type ℓ} {B : Type κ} {C : Type μ} where
  pub bind_assoc :
      (o : Option A) (f : A → Option B) (g : B → Option C)
      → ((o >>= f) >>= g) ≡ (o >>= (λ a. f a >>= g))
  bind_assoc none f g = refl
  bind_assoc (some a) f g = refl

module _ {ℓ κ} {A : Type ℓ} {B : Type κ} where
  pub bind-some :
      (o : Option A) (g : A → Option B) (b : B)
      → (o >>= g) ≡ some b
      → (a : A) × (o ≡ some a) × (g a ≡ some b)
  bind-some none g b h = absurd (cc h)
  bind-some (some a) g b h = (a, refl, h)

-- A guarded result that is there.
pub guarded-some {ℓ} :
    {A : Type ℓ} (t : Bool) (o : Option A) (a : A)
    → (if t then o else none) ≡ some a
    → (t ≡ true) × (o ≡ some a)
guarded-some true o a e = (refl, e)
guarded-some false o a e = absurd (cc e)

-- What holds of both branches.
pub if_both {ℓ} :
    {A : Type ℓ} (P : A → Type 0) (b : Bool) (x y : A) → P x → P y → P (if b then x else y)
if_both P true x y h k = h
if_both P false x y h k = k
