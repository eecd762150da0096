-- ===== src/Simulator/Advance.antt =====
-- RamulatorSim::advance and NVMSim::advance: the whole step of the memory simulator to a CPU cycle.
use native.Mathlib.Nat.{add-div_right, mul-le-mul_right}
use siena_mem.Base.{
  ℕ, zero, suc, ◌+◌, ◌-◌, ◌*◌, ◌/◌, ◌≤◌, ◌<◌, ◌≡◌, refl, ap, ◌∙◌, some, arith, ne→==, word, add64,
  add64-eq, mul64,
}
use siena_mem.Simulator.{
  Backend, World, try_insert_ld, try_insert_st, memory_cycles, ticks, at_time, advance, nvm_advance,
}
use siena_mem.Simulator.Insert.{Honest, queued, insert_map_reads, insert_map_writes}
use siena_mem.Simulator.Ticks.{reads, read_completes_lem}

module _ {M : Type 0} (b : Backend M) (h : Honest b) where
  -- The queue holds as many reads of every address as the memory simulator.
  abbrev pub Tracked : World M → Type 0
  Tracked w = (a : ℕ) → h.outstanding w.mem a ≡ queued a w.sim.dispatch_queue_read

  -- Between two states: the ratio of the clocks stays, no read is lost or made up, and the memory clock is
  -- `n` cycles further.
  pub record Steps (n : ℕ) (w w' : World M) : Type 0 where
    pub same_mem_ticks : w'.sim.mem_ticks ≡ w.sim.mem_ticks
    pub same_cpu_ticks : w'.sim.cpu_ticks ≡ w.sim.cpu_ticks
    pub same_reads : (a : ℕ) → reads a w' ≡ reads a w
    pub tracked : Tracked w'
    pub cycles : w'.sim.mem_clock ≡ w.sim.mem_clock + n

  Steps-trans : {m n : ℕ} {w1 w2 w3 : World M} → Steps m w1 w2 → Steps n w2 w3 → Steps (m + n) w1 w3
  Steps-trans p q = record {
    same_mem_ticks = q.same_mem_ticks ∙ p.same_mem_ticks;
    same_cpu_ticks = q.same_cpu_ticks ∙ p.same_cpu_ticks;
    same_reads = λ a. q.same_reads a ∙ p.same_reads a;
    tracked = q.tracked;
    cycles = omega (arith, p.cycles, q.cycles);
  }

  insert_st-Steps : (w : World M) → Tracked w → Steps 0 w (try_insert_st b w)
  unfolding try_insert_st
  insert_st-Steps w t =
      let s = w.sim in
      record {
        same_mem_ticks = refl;
        same_cpu_ticks = refl;
        same_reads = λ a. refl;
        tracked = λ a.
            insert_map_writes b h s.cpu_clock a s.pending_st_map w.mem s.dispatch_queue_write ∙ t a;
        cycles = omega arith;
      }

  insert_ld-Steps : (w : World M) → Tracked w → Steps 0 w (try_insert_ld b w)
  unfolding try_insert_ld
  insert_ld-Steps w t =
      let s = w.sim in
      let inserted = λ (a : ℕ).
        insert_map_reads b h s.cpu_clock a s.pending_ld_map w.mem s.dispatch_queue_read in
      record {
        same_mem_ticks = refl;
        same_cpu_ticks = refl;
        same_reads = λ a. omega (arith, (inserted a).0);
        tracked = λ a. omega (arith, (inserted a).1, t a);
        cycles = omega arith;
      }

  inserts-Steps : (w : World M) → Tracked w → Steps 0 w (try_insert_ld b (try_insert_st b w))
  inserts-Steps w t =
      let st = insert_st-Steps w t in
      Steps-trans st (insert_ld-Steps (try_insert_st b w) st.tracked)

  inserted_now :
      (w : World M) → (try_insert_ld b (try_insert_st b w)).sim.cpu_clock ≡ w.sim.cpu_clock
  unfolding try_insert_ld try_insert_st
  inserted_now w = refl

  memory_cycles-Steps :
      (n : ℕ) (w : World M)
      → Tracked w
      → w.sim.mem_clock + n < word
      → (w' : World M) × (memory_cycles b n w ≡ some w') × Steps n w w'
  unfolding memory_cycles
  memory_cycles-Steps zero w t fits = (
    w,
    refl,
    record {
      same_mem_ticks = refl;
      same_cpu_ticks = refl;
      same_reads = λ a. refl;
      tracked = t;
      cycles = omega arith;
    },
  )
  memory_cycles-Steps (suc n) w t fits =
      let w0 : World M = record w {
        sim = record w.sim { mem_clock = add64 w.sim.mem_clock 1 };
        mem = (b.tick w.mem).0;
      } in
      let next = add64-eq w.sim.mem_clock 1 (omega arith) in
      let done = λ (a : ℕ). h.completes w.mem a in
      let (w1, e1, c) =
        read_completes_lem b (b.tick w.mem).1 w0 (λ a. omega (arith, done a, t a)) in
      let (w2, e2, r) =
        memory_cycles-Steps n w1
          (λ a. omega (arith, ap (λ (m : M). h.outstanding m a) c.same_mem, c.fewer a, done a, t a))
          (omega (arith, c.same_mem_clock, next)) in
      (
        w2,
        rw e1 e2,
        record {
          same_mem_ticks = r.same_mem_ticks ∙ c.kept.same_mem_ticks;
          same_cpu_ticks = r.same_cpu_ticks ∙ c.kept.same_cpu_ticks;
          same_reads = λ a. r.same_reads a ∙ c.kept.same_reads a;
          tracked = r.tracked;
          cycles = omega (arith, r.cycles, c.same_mem_clock, next);
        },
      )

  ticks-Steps :
      (n : ℕ) (w : World M)
      → Tracked w
      → w.sim.mem_clock + n * w.sim.mem_ticks < word
      → (w' : World M) × (ticks b n w ≡ some w') × Steps (n * w.sim.mem_ticks) w w'
  unfolding ticks
  ticks-Steps zero w t fits = (
    w,
    refl,
    record {
      same_mem_ticks = refl;
      same_cpu_ticks = refl;
      same_reads = λ a. refl;
      tracked = t;
      cycles = omega arith;
    },
  )
  ticks-Steps (suc n) w t fits =
      let w0 = try_insert_ld b (try_insert_st b w) in
      let ins = inserts-Steps w t in
      let (w1, e1, c) =
        memory_cycles-Steps w.sim.mem_ticks w0 ins.tracked (omega (arith, ins.cycles)) in
      let w2 : World M = record w1 {
        sim = record w1.sim { cpu_clock = add64 w1.sim.cpu_clock w1.sim.cpu_ticks };
      } in
      let same = c.same_mem_ticks ∙ ins.same_mem_ticks in
      let scaled = ap (λ (k : ℕ). n * k) same in
      let (w3, e3, r) = ticks-Steps n w2 c.tracked (omega (arith, ins.cycles, c.cycles, scaled)) in
      (
        w3,
        rw e1 e3,
        record {
          same_mem_ticks = r.same_mem_ticks ∙ same;
          same_cpu_ticks = r.same_cpu_ticks ∙ c.same_cpu_ticks ∙ ins.same_cpu_ticks;
          same_reads = λ a. r.same_reads a ∙ c.same_reads a ∙ ins.same_reads a;
          tracked = r.tracked;
          cycles = omega (arith, r.cycles, c.cycles, ins.cycles, scaled);
        },
      )

  -- What a step to the CPU cycle `next` gives.
  pub record Arrives (next : ℕ) (w w' : World M) : Type 0 where
    pub now : w'.sim.cpu_clock ≡ next
    pub steps :
        Steps ((next / w.sim.cpu_ticks - w.sim.cpu_clock / w.sim.cpu_ticks) * w.sim.mem_ticks) w w'

  module _ (next : ℕ) (w : World M) where
    -- The conditions: the ratio is set, time goes forward and the clocks do not wrap.
    pub record CanAdvance : Type 0 where
      pub tracked : Tracked w
      pub ratio : 0 < w.sim.cpu_ticks
      pub forward : w.sim.cpu_clock ≤ next
      pub cpu_fits : next + w.sim.cpu_ticks < word
      pub mem_fits : w.sim.mem_clock + next / w.sim.cpu_ticks * w.sim.mem_ticks < word

    abbrev first : ℕ
    first = w.sim.cpu_clock / w.sim.cpu_ticks + 1

    first_tick : CanAdvance → add64 w.sim.cpu_clock w.sim.cpu_ticks / w.sim.cpu_ticks ≡ first
    first_tick c =
        rw (add64-eq w.sim.cpu_clock w.sim.cpu_ticks (omega (arith, c.forward, c.cpu_fits)))
          (add-div_right w.sim.cpu_clock c.ratio)

    all_ticks :
        CanAdvance
        → (w' : World M) × (ticks b
              (next / w.sim.cpu_ticks + 1 - first)
              (at_time (mul64 first w.sim.cpu_ticks) w)
            ≡ some w')
          × Steps
              ((next / w.sim.cpu_ticks - w.sim.cpu_clock / w.sim.cpu_ticks) * w.sim.mem_ticks)
              w
              w'
    all_ticks c =
        let k = next / w.sim.cpu_ticks in
        let j = w.sim.cpu_clock / w.sim.cpu_ticks in
        let count_eq : k + 1 - first ≡ k - j = omega arith in
        let fewer : (k - j) * w.sim.mem_ticks ≤ k * w.sim.mem_ticks =
          mul-le-mul_right w.sim.mem_ticks (omega arith) in
        let (w', e, r) =
          ticks-Steps (k - j) (at_time (mul64 first w.sim.cpu_ticks) w) c.tracked
            (omega (arith, fewer, c.mem_fits)) in
        (
          w',
          ap (λ (n : ℕ). ticks b n (at_time (mul64 first w.sim.cpu_ticks) w)) count_eq ∙ e,
          record {
            same_mem_ticks = r.same_mem_ticks;
            same_cpu_ticks = r.same_cpu_ticks;
            same_reads = r.same_reads;
            tracked = r.tracked;
            cycles = r.cycles;
          },
        )

    -- RamulatorSim::advance from a state that CanAdvance, where the simulator holds exactly the reads of
    -- the queue, to a CPU cycle that is not earlier: no assertion fails, the CPU clock is at that cycle,
    -- the memory clock is mem_ticks further for each multiple of cpu_ticks that was passed, the queue
    -- and the simulator still agree, and of every address as many reads are pending, taken or completed
    -- as before.
    pub advance-Arrives :
        CanAdvance → (w' : World M) × (advance b next w ≡ some w') × Arrives next w w'
    unfolding advance
    advance-Arrives c =
        let (w1, e, r) = all_ticks c in
        let last = inserts-Steps (at_time next w1) r.tracked in
        (
          try_insert_ld b (try_insert_st b (at_time next w1)),
          rw (ne→== w.sim.cpu_ticks 0 (omega (arith, c.ratio)), first_tick c, e) refl,
          record {
            now = inserted_now (at_time next w1);
            steps = record {
              same_mem_ticks = last.same_mem_ticks ∙ r.same_mem_ticks;
              same_cpu_ticks = last.same_cpu_ticks ∙ r.same_cpu_ticks;
              same_reads = λ a. last.same_reads a ∙ r.same_reads a;
              tracked = last.tracked;
              cycles = omega (arith, last.cycles, r.cycles);
            };
          },
        )

    -- NVMSim::advance from a state that CanAdvance, where the simulator holds exactly the reads of the
    -- queue, to a CPU cycle that is not earlier: no assertion fails, the CPU clock is at that cycle, the
    -- memory clock is mem_ticks further for each multiple of cpu_ticks that was passed, the queue and
    -- the simulator still agree, and of every address as many reads are pending, taken or completed as
    -- before.
    pub nvm_advance-Arrives :
        CanAdvance → (w' : World M) × (nvm_advance b next w ≡ some w') × Arrives next w w'
    unfolding nvm_advance
    nvm_advance-Arrives c =
        let (w1, e, r) = all_ticks c in
        (
          at_time next w1,
          rw (ne→== w.sim.cpu_ticks 0 (omega (arith, c.ratio)), first_tick c, e) refl,
          record {
            now = refl;
            steps = record {
              same_mem_ticks = r.same_mem_ticks;
              same_cpu_ticks = r.same_cpu_ticks;
              same_reads = r.same_reads;
              tracked = r.tracked;
              cycles = r.cycles;
            };
          },
        )
