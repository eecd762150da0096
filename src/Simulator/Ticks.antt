-- ===== src/Simulator/Ticks.antt =====
-- The completions of engine/ar_memsim.cpp and engine/ar_ramulator.cpp, and the reads of an address before
-- and after them.
use mathlib.Core.Path.{subst}
use siena_mem.Base.{
  ℕ, suc, ◌+◌, ◌≤◌, ◌<◌, ◌≡◌, ◌≢◌, refl, sym, ap, ◌∙◌, ◌⊎◌, inl, inr, some, List, [], ◌∷◌, arith,
  ◌==◌, if◌then◌else◌, Bool-cases, ==→eq, ==→ne, eq→==, length, erase, put, add64, sub64,
}
use siena_mem.Simulator.{Backend, MemSim, World, waiting_at, process_read, read_completes}
use siena_mem.Simulator.Insert.{
  count, pending, queued, one_if, waiting-put_self, waiting-put_ne, waiting-erase_self,
  waiting-erase_ne,
}

-- How often the completion of a read of `a` was passed on.
abbrev pub completed : ℕ → List (ℕ × ℕ) → ℕ
completed a [] = 0
completed a (c ∷ l) = let n = completed a l in if a == c.1 then suc n else n

-- All reads of `a`: not yet taken, taken, and completed.
abbrev pub reads : {M : Type 0} → ℕ → World M → ℕ
reads a w =
    pending a w.sim.pending_ld_map + queued a w.sim.dispatch_queue_read + completed a w.calls

List-cases : (l : List ℕ) → (l ≡ []) ⊎ ((t : ℕ) × (r : List ℕ) × (l ≡ t ∷ r))
List-cases [] = inl refl
List-cases (t ∷ r) = inr (t, r, refl)

-- The queue after the first entry of `x` is taken away.
served :
    (a x t : ℕ) (v : List ℕ) (q q' : List (ℕ × List ℕ))
    → waiting_at x q ≡ t ∷ v
    → waiting_at x q' ≡ v
    → (a ≢ x → waiting_at a q' ≡ waiting_at a q)
    → queued a q' + one_if a x ≡ queued a q
served a x t v q q' before after others = elim (Bool-cases (a == x)) [
  | inl e ↦
      subst (λ (y : ℕ). queued y q' + one_if y x ≡ queued y q) (sym (==→eq a x e))
        (rw (before, after, eq→== x x refl) (omega arith))
  | inr e ↦ rw (e, others (==→ne a x e)) (omega arith)
]

-- What a completion changes.
pub record Served (x : ℕ) (s s' : MemSim) : Type 0 where
  pub same_mem_ticks : s'.mem_ticks ≡ s.mem_ticks
  pub same_cpu_ticks : s'.cpu_ticks ≡ s.cpu_ticks
  pub same_mem_clock : s'.mem_clock ≡ s.mem_clock
  pub same_cpu_clock : s'.cpu_clock ≡ s.cpu_clock
  pub same_pending : s'.pending_ld_map ≡ s.pending_ld_map
  pub one_fewer :
      (a : ℕ) → queued a s'.dispatch_queue_read + one_if a x ≡ queued a s.dispatch_queue_read

process_read_lem :
    (x : ℕ) (s : MemSim)
    → 0 < queued x s.dispatch_queue_read
    → (s' : MemSim) × (process_read x s ≡ some s') × Served x s s'
unfolding process_read
process_read_lem x s pos =
    let q = s.dispatch_queue_read in
    elim (List-cases (waiting_at x q)) [
      | inl e ↦ absurd (omega (arith, pos, ap length e))
      | inr (t, [], e) ↦ (
        (record s {
          total_read_latencies = add64 s.total_read_latencies (sub64 s.cpu_clock t);
          dispatch_queue_read = erase x q;
        }),
        rw (e, process_read) refl,
        record {
          same_mem_ticks = refl;
          same_cpu_ticks = refl;
          same_mem_clock = refl;
          same_cpu_clock = refl;
          same_pending = refl;
          one_fewer = λ a.
              served a x t [] q (erase x q) e (waiting-erase_self x q) (waiting-erase_ne x a q);
        },
      )
      | inr (t, t2 ∷ r, e) ↦ (
        (record s {
          total_read_latencies = add64 s.total_read_latencies (sub64 s.cpu_clock t);
          dispatch_queue_read = put x (t2 ∷ r) q;
        }),
        rw (e, process_read) refl,
        record {
          same_mem_ticks = refl;
          same_cpu_ticks = refl;
          same_mem_clock = refl;
          same_cpu_clock = refl;
          same_pending = refl;
          one_fewer = λ a.
              served a x t (t2 ∷ r) q (put x (t2 ∷ r) q) e (waiting-put_self x (t2 ∷ r) q)
                (waiting-put_ne x a (t2 ∷ r) q);
        },
      )
    ]

module _ {M : Type 0} (b : Backend M) where
  -- Between two states: the ratio of the clocks and the CPU's clock stay, and so does the number of reads.
  pub record Kept (w w' : World M) : Type 0 where
    pub same_mem_ticks : w'.sim.mem_ticks ≡ w.sim.mem_ticks
    pub same_cpu_ticks : w'.sim.cpu_ticks ≡ w.sim.cpu_ticks
    pub same_cpu_clock : w'.sim.cpu_clock ≡ w.sim.cpu_clock
    pub same_reads : (a : ℕ) → reads a w' ≡ reads a w

  pub record Completes (l : List ℕ) (w w' : World M) : Type 0 where
    pub kept : Kept w w'
    pub same_mem : w'.mem ≡ w.mem
    pub same_mem_clock : w'.sim.mem_clock ≡ w.sim.mem_clock
    pub fewer :
        (a : ℕ)
        → queued a w'.sim.dispatch_queue_read + count a l ≡ queued a w.sim.dispatch_queue_read

  -- Completions of reads that are in the queue do not fail.
  pub read_completes_lem :
      (l : List ℕ) (w : World M)
      → ((a : ℕ) → count a l ≤ queued a w.sim.dispatch_queue_read)
      → (w' : World M) × (read_completes b l w ≡ some w') × Completes l w w'
  unfolding read_completes
  read_completes_lem [] w enough = (
    w,
    refl,
    record {
      kept = record {
        same_mem_ticks = refl;
        same_cpu_ticks = refl;
        same_cpu_clock = refl;
        same_reads = λ a. refl;
      };
      same_mem = refl;
      same_mem_clock = refl;
      fewer = λ a. omega arith;
    },
  )
  read_completes_lem (x ∷ l) w enough =
      let (s', e, r) = process_read_lem x w.sim (ground (arith, enough x)) in
      let w1 : World M = record w { sim = s'; calls = (s'.cpu_clock, x) ∷ w.calls } in
      let (w', e', c) = read_completes_lem l w1 (λ a. ground (arith, enough a, r.one_fewer a)) in
      (
        w',
        rw e e',
        record {
          kept = record {
            same_mem_ticks = c.kept.same_mem_ticks ∙ r.same_mem_ticks;
            same_cpu_ticks = c.kept.same_cpu_ticks ∙ r.same_cpu_ticks;
            same_cpu_clock = c.kept.same_cpu_clock ∙ r.same_cpu_clock;
            same_reads = λ a.
                ground (arith, c.kept.same_reads a, r.one_fewer a, ap (pending a) r.same_pending);
          };
          same_mem = c.same_mem;
          same_mem_clock = c.same_mem_clock ∙ r.same_mem_clock;
          fewer = λ a. ground (arith, c.fewer a, r.one_fewer a);
        },
      )
