-- ===== src/Simulator/Ratio.antt =====
-- sync_core and get_next_event of the memory simulators' adapters.
use native.Mathlib.Nat.{lt-div-mul-add, div-mul-le_self, mul-div_cancel, div-le_self}
use siena_mem.Base.{
  ℕ, zero, suc, ◌+◌, ◌*◌, ◌/◌, ◌≤◌, ◌<◌, ◌≡◌, refl, ap, ◌∙◌, some, [], ◌∷◌, arith, ne→==, ltb,
  if◌then◌else◌, word, add64, add64-eq, mul64, mul64-eq,
}
use siena_mem.Types.{gcd}
use siena_mem.Types.Gcd.{Divides, IsGcd, gcd-IsGcd}
use siena_mem.Simulator.{MemSim, sync_core, get_next_event}

-- The common factor goes, and what is left has none but 1.
pub record IsRatio (core mem : ℕ) (s : MemSim) : Type 0 where
  pub same_ratio : s.cpu_ticks * mem ≡ s.mem_ticks * core
  pub cpu_part : Divides s.cpu_ticks core
  pub lowest : (d : ℕ) → Divides d s.cpu_ticks → Divides d s.mem_ticks → d ≡ 1

gcd_pos : (g a b : ℕ) → 0 < a → IsGcd g a b → 0 < g
gcd_pos zero a b pos h = let (q, e) = h.left in absurd (omega (arith, e))
gcd_pos (suc g) a b pos h = omega arith

reduced : (q g : ℕ) → 0 < g → q * g / g ≡ q
reduced q g pos = mul-div_cancel q pos

scaled_divisor : (d g q c : ℕ) → Divides d q → c ≡ q * g → Divides (d * g) c
scaled_divisor d g q c (k, e) f = (k, omega (arith, f, ap (λ (t : ℕ). t * g) e))

divisor_one : (d g : ℕ) → 0 < g → Divides (d * g) g → d ≡ 1
divisor_one zero g pos (k, e) = absurd (omega (arith, e))
divisor_one (suc zero) g pos (k, e) = refl
divisor_one (suc (suc d)) g pos (zero, e) = absurd (omega (arith, e))
divisor_one (suc (suc d)) g pos (suc k, e) = absurd (grind arith)

-- Synchronising with a core whose frequency is not 0 succeeds: the ticks are in the ratio of the two
-- frequencies, cpu_ticks divides the core's, and the two have no common divisor but 1.
pub sync_core-IsRatio :
    (core : ℕ) (s : MemSim)
    → 0 < core
    → (s' : MemSim) × (sync_core core s ≡ some s') × IsRatio core s.mem_frequency s'
unfolding sync_core
sync_core-IsRatio core s pos =
    let f = s.mem_frequency in
    let g = gcd core f in
    let h = gcd-IsGcd core f in
    let g_pos = gcd_pos g core f pos h in
    let (p, e) = h.left in
    let (q, e') = h.right in
    let cpu : core / g ≡ p = ap (λ (t : ℕ). t / g) e ∙ reduced p g g_pos in
    let mem : f / g ≡ q = ap (λ (t : ℕ). t / g) e' ∙ reduced q g g_pos in
    (
      record s { cpu_ticks = p; mem_ticks = q },
      rw (ne→== g 0 (omega (arith, g_pos)), cpu, mem) refl,
      record {
        same_ratio = omega (arith, ap (λ (t : ℕ). p * t) e', ap (λ (t : ℕ). q * t) e);
        cpu_part = (g, omega (arith, e));
        lowest = λ d m n.
            divisor_one d g g_pos
              (h.greatest (d * g) (scaled_divisor d g p core m e) (scaled_divisor d g q f n e'));
      },
    )

-- The next event of a simulator whose ratio is set and whose clock does not wrap within a tick exists and
-- is later than its CPU clock.
pub get_next_event-lt :
    (s : MemSim)
    → 0 < s.cpu_ticks
    → s.cpu_clock + s.cpu_ticks < word
    → (t : ℕ) × (get_next_event s ≡ some t) × (s.cpu_clock < t)
unfolding get_next_event
get_next_event-lt s pos fits =
    let now = s.cpu_clock / s.cpu_ticks in
    let below = div-mul-le_self s.cpu_clock s.cpu_ticks in
    let above = lt-div-mul-add {a = s.cpu_clock} pos in
    let small : now ≤ s.cpu_clock = div-le_self s.cpu_clock s.cpu_ticks in
    let next : add64 now 1 ≡ now + 1 = add64-eq now 1 (omega arith) in
    let tick : mul64 (now + 1) s.cpu_ticks ≡ (now + 1) * s.cpu_ticks =
      mul64-eq (now + 1) s.cpu_ticks (omega (arith, below)) in
    let t1 : ℕ = elim s.pending_ld_map [ [] ↦ 0 | e ∷ m ↦ e.0 ] in
    let t0 = (now + 1) * s.cpu_ticks in
    (
      if ltb t1 t0 then t0 else t1,
      rw (ne→== s.cpu_ticks 0 (omega arith), next, tick) refl,
      ground (arith, above),
    )
