-- ===== src/Tests/Simulators.antt =====
-- A memory simulator that completes the last read it took in the next cycle, and an adapter that runs two
-- CPU cycles for each cycle of it: engine/ar_ramulator.cpp, engine/ar_nvdsim.cpp, engine/ar_dramsim.cpp and
-- engine/ar_memsim.cpp on concrete inputs.
use siena_mem.Base.{
  ℕ, ◌+◌, ◌<◌, ◌≡◌, refl, true, false, some, List, [], ◌∷◌, arith, ◌==◌, if◌then◌else◌, add64,
  mul64, find,
}
use siena_mem.Simulator.{Backend, MemSim, World, sync_core, get_next_event, advance, dram_advance}
use siena_mem.Simulator.Insert.{Honest, count}
use siena_mem.Simulator.Advance.{CanAdvance, Arrives, advance-Arrives}
use siena_mem.Simulator.Ratio.{IsRatio, sync_core-IsRatio, get_next_event-lt}
use siena_mem.Simulator.Faults.{Silent, dram_advance-Silent}

abbrev last_first : Backend (List ℕ)
last_first = record {
  send = λ read a m. if read then (a ∷ m, true) else (m, true);
  tick = λ m. elim m [ [] ↦ ([], []) | a ∷ rest ↦ (rest, a ∷ []) ];
}

last_first-completes :
    (m : List ℕ) (a : ℕ) → count a (last_first.tick m).0 + count a (last_first.tick m).1 ≡ count a m
last_first-completes [] a = refl
last_first-completes (x ∷ m) a = ground arith

last_first-takes :
    (m : List ℕ) (x a : ℕ)
    → count a (last_first.send true x m).0 ≡ count a m + (if a == x then 1 else 0)
last_first-takes m x a = ground arith

never_refused : {P : Type 0} → true ≡ false → P
never_refused e = absurd (cc e)

abbrev honest : Honest last_first
honest = record {
  outstanding = λ m a. count a m;
  taken = λ m x a e. last_first-takes m x a;
  refused = λ m x a e. never_refused e;
  written = λ m x a. refl;
  completes = last_first-completes;
}

abbrev adapter : MemSim
adapter = record {
  mem_frequency = 800;
  mem_ticks = 1;
  cpu_ticks = 2;
  mem_clock = 2;
  cpu_clock = 4;
  total_read_latencies = 0;
  num_read = 2;
  num_write = 0;
  dispatch_queue_read = [];
  dispatch_queue_write = [];
  pending_ld_map = (3, 64 ∷ []) ∷ (9, 128 ∷ []) ∷ [];
  pending_st_map = [];
}

abbrev world : World (List ℕ)
world = record { sim = adapter; mem = []; calls = [] }

can_advance : CanAdvance last_first honest 9 world
unfolding find
can_advance = record {
  tracked = λ a. refl;
  ratio = omega arith;
  forward = omega arith;
  cpu_fits = omega arith;
  mem_fits = omega arith;
}

sync_core-IsRatio_example : (s' : MemSim) × (sync_core 2400 adapter ≡ some s') × IsRatio 2400 800 s'
sync_core-IsRatio_example = sync_core-IsRatio 2400 adapter (omega arith)

get_next_event-lt_example : (t : ℕ) × (get_next_event adapter ≡ some t) × (4 < t)
get_next_event-lt_example = get_next_event-lt adapter (omega arith) (omega arith)

advance-Arrives_example :
    (w' : World (List ℕ)) × (advance last_first 9 world ≡ some w')
    × Arrives last_first honest 9 world w'
advance-Arrives_example = advance-Arrives last_first honest 9 world can_advance

-- A simulator that takes nothing.
abbrev closed : Backend (List ℕ)
closed = record { send = λ read a m. (m, false); tick = λ m. (m, []) }

dram_advance-Silent_example :
    Silent closed world (record world { sim = record adapter { cpu_clock = 5; mem_clock = 2 } })
unfolding dram_advance add64 mul64
dram_advance-Silent_example =
    dram_advance-Silent closed 5 world
      (record world { sim = record adapter { cpu_clock = 5; mem_clock = 2 } }) refl refl
