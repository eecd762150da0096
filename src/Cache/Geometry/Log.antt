-- ===== src/Cache/Geometry/Log.antt =====
-- What FloorLog2 and IsPower2 compute.
use Prim.Native.Nat.{bit_and}
use native.Mathlib.Nat.{
  div-one, div-div-eq-div-mul, mod-eq_of_lt, div-lt_iff_lt-mul, one-le-pow, div-add-mod, mod-lt,
  mod_self,
}
use native.Mathlib.Decide.{ℕ_discrete}
use siena_mem.Base.Bits.{
  bit_and-mask, bit_and-shift, power_of_and-pred, pow-add, bit_and-above, zero-bit_and,
}
use siena_mem.Base.{
  ℕ, ◌+◌, ◌-◌, ◌*◌, ◌/◌, ◌^◌, ◌≤◌, ◌<◌, ◌≡◌, ◌∙◌, refl, ap, sym, ◌≢◌, ne→==, eq→==, true, ◌⊎◌, ◌↔◌,
  inl, inr, ◌==◌, arith, word, sub64, sub64-eq, Bool-cases, ==→eq, ==→ne,
}
use siena_mem.Cache.Geometry.{is_power2, log_step, log_steps, floor_log2}

-- After some lines: `n` is the argument shifted right by `p`, is not 0, and has `w` digits at most.
abbrev Shifted : ℕ → ℕ → ℕ × ℕ → Type 0
Shifted x w r = (r.1 ≡ x / 2 ^ r.0) × (0 < r.1) × (r.1 < 2 ^ w)

high_digits : (s n : ℕ) → n < 2 ^ (s + s) → bit_and n (2 ^ s * (2 ^ s - 1)) ≡ 2 ^ s * (n / 2 ^ s)
high_digits s n h =
    bit_and-shift s n (2 ^ s - 1)
    ∙ ap (λ (t : ℕ). 2 ^ s * t) (bit_and-mask s (n / 2 ^ s) ∙ mod-eq_of_lt below)
  where
    one_le : 0 < 2 ^ s
    one_le = one-le-pow s 2 (omega arith)

    below : n / 2 ^ s < 2 ^ s
    below = (div-lt_iff_lt-mul one_le).1 (rw (← pow-add s s) h)

zero_of_mul : (a b : ℕ) → 0 < a → a * b ≡ 0 → b ≡ 0
zero_of_mul a b h e = grind arith

-- The mask of a line finds a digit exactly where the shifted word is not 0.
clear_digits : (s n : ℕ) → n < 2 ^ (s + s) → bit_and n (2 ^ s * (2 ^ s - 1)) ≡ 0 → n < 2 ^ s
clear_digits s n h e = omega (
  arith,
  div-add-mod n (2 ^ s),
  mod-lt n {m = 2 ^ s} (one-le-pow s 2 (omega arith)),
  ap (λ (t : ℕ). 2 ^ s * t)
      (zero_of_mul (2 ^ s) (n / 2 ^ s) (one-le-pow s 2 (omega arith))
        (sym (high_digits s n h) ∙ e)),
)

some_digits : (s n : ℕ) → n < 2 ^ (s + s) → bit_and n (2 ^ s * (2 ^ s - 1)) ≢ 0 → 0 < n / 2 ^ s
some_digits s n h e = elim (ℕ_discrete (n / 2 ^ s) 0) [
  | yes z ↦ absurd (e (high_digits s n h ∙ rw z (omega arith)))
  | no z ↦ omega arith
]

log_step-Shifted :
    (x s mask : ℕ) (r : ℕ × ℕ)
    → mask ≡ 2 ^ s * (2 ^ s - 1)
    → Shifted x (s + s) r
    → Shifted x s (log_step mask s r)
unfolding log_step
log_step-Shifted x s mask r e (q, pos, small) = elim (Bool-cases (bit_and r.1 mask == 0)) [
  | inl clear ↦ rw clear (q, pos, clear_digits s r.1 small (rw e at (==→eq _ _ clear)))
  | inr some ↦ rw some (
    ap (λ (t : ℕ). t / 2 ^ s) q
        ∙ div-div-eq-div-mul x (2 ^ r.0) (2 ^ s)
        ∙ ap (λ (t : ℕ). x / t) (sym (pow-add r.0 s)),
    some_digits s r.1 small (rw e at (==→ne _ _ some)),
    (div-lt_iff_lt-mul (one-le-pow s 2 (omega arith))).1 (rw (← pow-add s s) small),
  )
]

log_steps-Shifted : (n : ℕ) → 0 < n → n < 2 ^ 32 → Shifted n 1 (log_steps n)
unfolding log_steps
log_steps-Shifted n pos small = log_step-Shifted n 1 2 _ refl (
    log_step-Shifted n 2 0x0000000c _ refl (
      log_step-Shifted n 4 0x000000f0 _ refl (
        log_step-Shifted n 8 0x0000ff00 _ refl
          (log_step-Shifted n 16 0xffff0000 (0, n) refl (sym (div-one n), pos, small)))))

Shifted-bounds : (x : ℕ) (r : ℕ × ℕ) → Shifted x 1 r → (2 ^ r.0 ≤ x) × (x < 2 ^ (r.0 + 1))
Shifted-bounds x r (q, pos, small) = omega (
  arith,
  ap (λ (t : ℕ). 2 ^ r.0 * t) {x = x / 2 ^ r.0} {y = 1} (omega arith),
  div-add-mod x (2 ^ r.0),
  mod-lt x {m = 2 ^ r.0} (one-le-pow r.0 2 (omega arith)),
  pow-add r.0 1,
)

-- FloorLog2 of a positive number below 2 ^ 32 is the position of its highest digit.
pub floor_log2_bounds :
    (n : ℕ) → 0 < n → n < 2 ^ 32 → (2 ^ floor_log2 n ≤ n) × (n < 2 ^ (floor_log2 n + 1))
unfolding floor_log2
floor_log2_bounds n pos small =
    rw (ne→== n 0 (omega arith)) (Shifted-bounds n (log_steps n) (log_steps-Shifted n pos small))

-- FloorLog2 gives 0 for every positive multiple of 2 ^ 32.
pub floor_log2_high : (k : ℕ) → 0 < k → floor_log2 (2 ^ 32 * k) ≡ 0
unfolding floor_log2 log_steps log_step
floor_log2_high k pos = rw (ne→== (2 ^ 32 * k) 0 (omega arith)) (
    rw (
      nothing 0xffff0000 (omega arith),
      nothing 0x0000ff00 (omega arith),
      nothing 0x000000f0 (omega arith),
      nothing 0x0000000c (omega arith),
      nothing 2 (omega arith),
    ))
  where
    nothing : (m : ℕ) → m < 2 ^ 32 → (bit_and (2 ^ 32 * k) m == 0) ≡ true
    nothing m h = eq→== _ 0 (bit_and-above 32 k m h)

-- IsPower2 holds of the powers of two and of 0, and of nothing else.
pub is_power2_iff : (n : ℕ) → n < word → (is_power2 n ≡ true) ↔ ((n ≡ 0) ⊎ ((k : ℕ) × (n ≡ 2 ^ k)))
unfolding is_power2
is_power2_iff n h = (to, from)
  where
    to : (bit_and n (sub64 n 1) == 0) ≡ true → (n ≡ 0) ⊎ ((k : ℕ) × (n ≡ 2 ^ k))
    to e = elim (ℕ_discrete n 0) [
      | yes z ↦ inl z
      | no z ↦
          inr
            (power_of_and-pred n (omega arith) (rw (← sub64-eq n 1 (omega arith) h) (==→eq _ _ e)))
    ]

    from : (n ≡ 0) ⊎ ((k : ℕ) × (n ≡ 2 ^ k)) → (bit_and n (sub64 n 1) == 0) ≡ true
    from (inl z) = eq→== _ 0 (rw z (zero-bit_and (sub64 0 1)))
    from (inr (k, z)) = eq→== _ 0 (
        rw (sub64-eq n 1 (omega (arith, one-le-pow k 2 (omega arith))) h, z)
          (bit_and-mask k (2 ^ k) ∙ mod_self (2 ^ k)))
