-- ===== src/Level/Sweep.antt =====
-- The loop of `advance` of engine/ar_cacheobj.cpp over the pending lines.
use siena_mem.Base.{
  ℕ, zero, suc, ◌≤◌, ◌≡◌, refl, sym, ◌∙◌, inl, inr, Bool, true, false, ◌&&◌, Option, none, some,
  List, [], ◌∷◌, arith, if◌then◌else◌, ◌==◌, Bool-cases, ==→eq, ==→ne, eq→==, length, find, erase,
  find-erase_self, find-erase_ne,
}
use siena_mem.Simulator.{MemSim}
use siena_mem.Types.{Req}
use siena_mem.Level.{CacheObj, is_due, sweep, advance_pending, advance}

-- Every pending line has a time, and the time lies before the next cycle.
abbrev pub all_due : ℕ → List (ℕ × ℕ) → Bool
all_due now [] = true
all_due now (e ∷ d) = is_due now e.1 && all_due now d

-- The keys of a list of entries, erased one after the other.
abbrev pub erase_all {ℓ} : {V : Type ℓ} → List (ℕ × ℕ) → List (ℕ × V) → List (ℕ × V)
erase_all [] m = m
erase_all (e ∷ left) m = erase_all left (erase e.0 m)

module _ {ℓ} {V : Type ℓ} where
  find-erase_all :
      (k : ℕ) (left : List (ℕ × ℕ)) (m : List (ℕ × V))
      → (find k left ≡ none → find k m ≡ none)
      → find k (erase_all left m) ≡ none
  unfolding find
  find-erase_all k [] m h = h refl
  find-erase_all k (e ∷ left) m h = elim (Bool-cases (k == e.0)) [
    | inl q ↦ find-erase_all k left (erase e.0 m) (λ a. rw (==→eq k e.0 q) (find-erase_self e.0 m))
    | inr q ↦
        find-erase_all k left (erase e.0 m)
          (λ a. find-erase_ne e.0 k m (==→ne k e.0 q) ∙ h (rw (q, find) a))
  ]

  empty_of_find : (m : List (ℕ × V)) → ((k : ℕ) → find k m ≡ none) → m ≡ []
  unfolding find
  empty_of_find [] h = refl
  empty_of_find (e ∷ m) h =
      let found : find e.0 (e ∷ m) ≡ some e.1 = rw (eq→== e.0 e.0 refl) refl in
      absurd (cc (sym found ∙ h e.0))

sweep-stuck :
    (fuel now : ℕ) (e : ℕ × ℕ) (left d : List (ℕ × ℕ)) (q : List (ℕ × List Req))
    → is_due now e.1 ≡ false
    → sweep fuel now (e ∷ left) d q ≡ none
unfolding sweep
sweep-stuck zero now e left d q h = refl
sweep-stuck (suc fuel) now e left d q h = rw h (sweep-stuck fuel now e left d q h)

sweep_lem :
    (fuel now : ℕ) (left d : List (ℕ × ℕ)) (q : List (ℕ × List Req))
    → length left ≤ fuel
    → sweep fuel now left d q
      ≡ (if all_due now left then some (erase_all left d, erase_all left q) else none)
unfolding sweep
sweep_lem fuel now [] d q h = refl
sweep_lem zero now (e ∷ left) d q h = absurd (omega arith)
sweep_lem (suc fuel) now (e ∷ left) d q h = elim (Bool-cases (is_due now e.1)) [
  | inl k ↦ rw k (sweep_lem fuel now left (erase e.0 d) (erase e.0 q) (omega arith))
  | inr k ↦ rw k (sweep-stuck fuel now e left d q k)
]

elim-none :
    (o : Option MemSim) (x y : Option CacheObj) → o ≡ none → elim o [ some s ↦ x | none ↦ y ] ≡ y
elim-none none x y h = refl
elim-none (some s) x y h = absurd cc

advance_pending_lem :
    (fuel now : ℕ) (c : CacheObj)
    → c.simulator ≡ none
    → advance fuel now c ≡ advance_pending fuel now c
unfolding advance
advance_pending_lem fuel now c s = elim-none c.simulator (some c) (advance_pending fuel now c) s

-- On a level without a simulator, and with at least as much fuel as there are entries, `advance` returns
-- exactly if every pending line has a time that is not 0 and lies before the next cycle; no line is then
-- pending with a time, and the requests that wait are those of the other lines. Else, whatever the fuel,
-- the loop does not end.
pub advance-all_due :
    (fuel now : ℕ) (c : CacheObj)
    → c.simulator ≡ none
    → length c.pending_cl_delay_map ≤ fuel
    → advance fuel now c ≡ (
        if all_due now c.pending_cl_delay_map
        then some (record c {
          pending_cl_delay_map = [];
          pending_cl_req_map = erase_all c.pending_cl_delay_map c.pending_cl_req_map;
        })
        else none)
unfolding advance_pending
advance-all_due fuel now c s h =
    let d = c.pending_cl_delay_map in
    let nothing : erase_all d d ≡ [] =
      empty_of_find (erase_all d d) (λ k. find-erase_all k d d (λ e. e)) in
    let swept = sweep_lem fuel now d d c.pending_cl_req_map h in
    elim (Bool-cases (all_due now d)) [
      | inl a ↦
          rw a (advance_pending_lem fuel now c s ∙ rw (advance_pending, swept, a, nothing) refl)
      | inr a ↦ rw a (advance_pending_lem fuel now c s ∙ rw (advance_pending, swept, a) refl)
    ]
