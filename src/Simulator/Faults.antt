-- ===== src/Simulator/Faults.antt =====
-- DramSim::advance of engine/ar_dramsim.cpp and the queue that process_read_requests reads.
use mathlib.Core.Path.{subst}
use siena_mem.Base.{
  ◌>>=◌, ℕ, zero, suc, ◌+◌, ◌-◌, ◌/◌, ◌≡◌, refl, sym, ◌∙◌, inl, inr, Option, none, some, List, [],
  ◌∷◌, Bool-cases, add64, mul64, ◌==◌,
}
use siena_mem.Simulator.{
  Backend, MemSim, World, process_read, read_complete, read_completes, memory_cycles, dram_insert,
  dram_ticks, dram_advance, at_time,
}

no_value {ℓ} : {A : Type ℓ} {P : Type 0} (x : A) → ◌≡◌ {A = Option A} none (some x) → P
no_value x e = absurd (cc e)

>>=-some {ℓ} :
    {A B : Type ℓ} (o : Option A) (f : A → Option B) (y : B)
    → (o >>= f) ≡ some y
    → (x : A) × (o ≡ some x) × (f x ≡ some y)
>>=-some none f y e = absurd (cc e)
>>=-some (some x) f y e = (x, refl, e)

module _ {M : Type 0} (b : Backend M) where
  -- Nothing is queued and no further completion was passed on.
  pub record Silent (w w' : World M) : Type 0 where
    pub empty : w'.sim.dispatch_queue_read ≡ []
    pub same_calls : w'.calls ≡ w.calls

  Silent-trans : {w1 w2 w3 : World M} → Silent w1 w2 → Silent w2 w3 → Silent w1 w3
  Silent-trans p q = record { empty = q.empty; same_calls = q.same_calls ∙ p.same_calls }

  Silent-same : (w w' : World M) → w.sim.dispatch_queue_read ≡ [] → w ≡ w' → Silent w w'
  Silent-same w w' e p = subst (λ v. Silent w v) p (record { empty = e; same_calls = refl })

  process_read-fails : (x : ℕ) (s : MemSim) → s.dispatch_queue_read ≡ [] → process_read x s ≡ none
  unfolding process_read
  process_read-fails x s e = rw (e, process_read) refl

  read_completes-Silent :
      (l : List ℕ) (w w' : World M)
      → w.sim.dispatch_queue_read ≡ []
      → read_completes b l w ≡ some w'
      → Silent w w'
  unfolding read_completes read_complete
  read_completes-Silent [] w w' e run = Silent-same w w' e (cc run)
  read_completes-Silent (x ∷ l) w w' e run =
      let failed : read_completes b (x ∷ l) w ≡ none = rw (process_read-fails x w.sim e) refl in
      no_value w' (sym failed ∙ run)

  dram_insert-Silent : (w : World M) → w.sim.dispatch_queue_read ≡ [] → Silent w (dram_insert b w)
  unfolding dram_insert
  dram_insert-Silent w e = record { empty = e; same_calls = refl }

  memory_cycles-Silent :
      (n : ℕ) (w w' : World M)
      → w.sim.dispatch_queue_read ≡ []
      → memory_cycles b n w ≡ some w'
      → Silent w w'
  unfolding memory_cycles
  memory_cycles-Silent zero w w' e run = Silent-same w w' e (cc run)
  memory_cycles-Silent (suc n) w w' e run =
      let (w1, ran, rest) = >>=-some _ (memory_cycles b n) w' run in
      let first = read_completes-Silent _ _ w1 e ran in
      Silent-trans (record { empty = first.empty; same_calls = first.same_calls })
        (memory_cycles-Silent n w1 w' first.empty rest)

  dram_ticks-Silent :
      (n i : ℕ) (w w' : World M)
      → w.sim.dispatch_queue_read ≡ []
      → dram_ticks b n i w ≡ some w'
      → Silent w w'
  unfolding dram_ticks
  dram_ticks-Silent zero i w w' e run = Silent-same w w' e (cc run)
  dram_ticks-Silent (suc n) i w w' e run =
      let (w1, ran, rest) = >>=-some _ (dram_ticks b n (add64 i 1)) w' run in
      let w0 = at_time (mul64 i w.sim.cpu_ticks) w in
      let inserted = dram_insert-Silent w0 e in
      let first = memory_cycles-Silent w.sim.mem_ticks (dram_insert b w0) w1 inserted.empty ran in
      Silent-trans
        (record { empty = first.empty; same_calls = first.same_calls ∙ inserted.same_calls })
        (dram_ticks-Silent n (add64 i 1) w1 w' first.empty rest)

  -- From an empty queue of reads, as the constructor leaves it, DramSim::advance never passes a
  -- completed read on: where it returns, the queue is still empty and no further call of
  -- start_complete was made.
  pub dram_advance-Silent :
      (next : ℕ) (w w' : World M)
      → w.sim.dispatch_queue_read ≡ []
      → dram_advance b next w ≡ some w'
      → Silent w w'
  unfolding dram_advance
  dram_advance-Silent next w w' e run =
      let now = add64 w.sim.cpu_clock w.sim.cpu_ticks / w.sim.cpu_ticks in
      let count = next / w.sim.cpu_ticks + 1 - now in
      elim (Bool-cases (w.sim.cpu_ticks == 0)) [
        | inl z ↦
            let failed : dram_advance b next w ≡ none = rw (dram_advance, z) refl in
            no_value w' (sym failed ∙ run)
        | inr z ↦
            let done : (dram_ticks b count now w >>= (λ w1. some (at_time next w1))) ≡ some w' =
              rw z at run in
            let (w1, ran, last) =
              >>=-some (dram_ticks b count now w) (λ w1. some (at_time next w1)) w' done in
            let s = dram_ticks-Silent count now w w1 e ran in
            Silent-trans (record { empty = s.empty; same_calls = s.same_calls })
              (Silent-same (at_time next w1) w' s.empty (cc last))
      ]
