-- ===== src/Base/Maps.antt =====
-- The maps of the standard library as association lists with natural keys: `find`, `m[k] = v` and `erase`.
use Prim.Native.Nat.{ℕ}
use mathlib.Core.Path.{◌≡◌, refl, sym, ap, ◌∙◌}
use mathlib.Core.Logic.{◌≢◌, inl, inr}
use mathlib.Core.List.{List, [], ◌∷◌}
use mathlib.Core.Option.{Option, none, some}
use siena_mem.Base.Tests.{◌==◌, if◌then◌else◌, Bool-cases, ==→eq, ==→ne}
use native.Mathlib.Omega.{arith}

module _ {ℓ} {V : Type ℓ} where
  unfoldable pub find : ℕ → List (ℕ × V) → Option V
  find k [] = none
  find k (e ∷ m) = if k == e.0 then some e.1 else find k m

  unfoldable pub put : ℕ → V → List (ℕ × V) → List (ℕ × V)
  put k v [] = (k, v) ∷ []
  put k v (e ∷ m) = let rest = put k v m in if k == e.0 then (k, v) ∷ m else e ∷ rest

  unfoldable pub erase : ℕ → List (ℕ × V) → List (ℕ × V)
  erase k [] = []
  erase k (e ∷ m) = let rest = erase k m in if k == e.0 then rest else e ∷ rest

  pub find-put_self : (k : ℕ) (v : V) (m : List (ℕ × V)) → find k (put k v m) ≡ some v
  unfolding find put
  find-put_self k v [] = ground arith
  find-put_self k v (e ∷ m) = let ih = find-put_self k v m in ground arith

  pub find-put_ne : (k j : ℕ) (v : V) (m : List (ℕ × V)) → j ≢ k → find j (put k v m) ≡ find j m
  unfolding find put
  find-put_ne k j v [] h = ground arith
  find-put_ne k j v (e ∷ m) h = let ih = find-put_ne k j v m h in ground arith

  pub find-erase_self : (k : ℕ) (m : List (ℕ × V)) → find k (erase k m) ≡ none
  unfolding find erase
  find-erase_self k [] = refl
  find-erase_self k (e ∷ m) = let ih = find-erase_self k m in ground arith

  pub find-erase_ne : (k j : ℕ) (m : List (ℕ × V)) → j ≢ k → find j (erase k m) ≡ find j m
  unfolding find erase
  find-erase_ne k j [] h = refl
  find-erase_ne k j (e ∷ m) h = let ih = find-erase_ne k j m h in ground arith

  -- Erasing a key that is not there changes nothing.
  pub erase-none : (k : ℕ) (m : List (ℕ × V)) → find k m ≡ none → erase k m ≡ m
  unfolding find erase
  erase-none k [] h = refl
  erase-none k (e ∷ m) h = let ih = erase-none k m in ground arith

  -- A new key goes to the end, and erasing it gives the map back.
  pub erase-put : (k : ℕ) (v : V) (m : List (ℕ × V)) → find k m ≡ none → erase k (put k v m) ≡ m
  unfolding find put erase
  erase-put k v [] h = ground arith
  erase-put k v (e ∷ m) h = let ih = erase-put k v m in ground arith

  -- No key twice.
  abbrev pub Distinct : List (ℕ × V) → Type ℓ
  Distinct [] = Unit
  Distinct (e ∷ m) = (find e.0 m ≡ none) × Distinct m

  pub Distinct-put : (k : ℕ) (v : V) (m : List (ℕ × V)) → Distinct m → Distinct (put k v m)
  unfolding find put
  Distinct-put k v [] d = (refl, tt)
  Distinct-put k v (e ∷ m) (d, ds) = elim (Bool-cases (k == e.0)) [
    | inl q ↦ rw q (ap (λ (j : ℕ). find j m) (==→eq k e.0 q) ∙ d, ds)
    | inr q ↦ rw q (find-put_ne k e.0 v m (λ r. ==→ne k e.0 q (sym r)) ∙ d, Distinct-put k v m ds)
  ]

  pub Distinct-erase : (k : ℕ) (m : List (ℕ × V)) → Distinct m → Distinct (erase k m)
  unfolding find erase
  Distinct-erase k [] d = tt
  Distinct-erase k (e ∷ m) (d, ds) = elim (Bool-cases (k == e.0)) [
    | inl q ↦ rw q (Distinct-erase k m ds)
    | inr q ↦ rw q (find-erase_ne k e.0 m (λ r. ==→ne k e.0 q (sym r)) ∙ d, Distinct-erase k m ds)
  ]
