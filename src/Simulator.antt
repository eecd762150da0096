-- ===== src/Simulator.antt =====
-- The adapters between the engine and the memory simulators: engine/ar_memsim.cpp, and the parts of
-- engine/ar_ramulator.cpp, engine/ar_nvdsim.cpp and engine/ar_dramsim.cpp that keep the pending
-- transactions and the two clocks. The memory simulators are not part of the engine: a Backend says
-- what the adapters call. `none` is a failed assertion or a division by 0.
pub mod Insert
pub mod Ticks
pub mod Advance
pub mod Ratio
pub mod Faults
use siena_mem.Base.{
  div?, ◌>>=◌, ℕ, zero, suc, ◌+◌, ◌-◌, ◌*◌, ◌/◌, Bool, true, false, Option, none, some, List, [],
  ◌∷◌, ◌++◌, ◌==◌, ltb, leb, if◌then◌else◌, add64, sub64, mul64, find, put, erase,
}
use siena_mem.Types.{gcd}

-- A memory simulator of state M: `send` offers a read (`true`) or a write of an address and says whether
-- it is taken, `tick` is one memory cycle and returns the addresses whose reads complete in it, in order.
pub record Backend (M : Type 0) : Type 0 where
  pub send : Bool → ℕ → M → M × Bool
  pub tick : M → M × List ℕ

-- A MemSim with its two maps of pending transactions (the addresses, by dispatch time, in the order of the
-- times) and its two queues of the times at which the transactions of an address were taken.
pub record MemSim : Type 0 where
  pub mem_frequency : ℕ
  pub mem_ticks : ℕ
  pub cpu_ticks : ℕ
  pub mem_clock : ℕ
  pub cpu_clock : ℕ
  pub total_read_latencies : ℕ
  pub num_read : ℕ
  pub num_write : ℕ
  pub dispatch_queue_read : List (ℕ × List ℕ)
  pub dispatch_queue_write : List (ℕ × List ℕ)
  pub pending_ld_map : List (ℕ × List ℕ)
  pub pending_st_map : List (ℕ × List ℕ)

-- reset
unfoldable pub reset : MemSim → MemSim
reset s = record s {
  mem_clock = 0;
  total_read_latencies = 0;
  num_read = 0;
  num_write = 0;
  cpu_clock = 0;
}

-- sync_core
unfoldable pub sync_core : ℕ → MemSim → Option MemSim
sync_core core_frequency s = do
  let max_div = gcd core_frequency s.mem_frequency
  cpu ← div? core_frequency max_div
  mem ← div? s.mem_frequency max_div
  some (record s { cpu_ticks = cpu; mem_ticks = mem })

-- `map[time].push_back(addr)` on a std::map, which is ordered by time.
unfoldable pub push_at : ℕ → ℕ → List (ℕ × List ℕ) → List (ℕ × List ℕ)
push_at t addr [] = (t, addr ∷ []) ∷ []
push_at t addr (e ∷ m) =
    let rest = push_at t addr m in
    if t == e.0
    then (t, e.1 ++ addr ∷ []) ∷ m
    else if ltb t e.0
    then (t, addr ∷ []) ∷ e ∷ m
    else e ∷ rest

-- load and store
unfoldable pub load : ℕ → ℕ → MemSim → MemSim
unfolding push_at
load dispatch addr s = record s {
  num_read = add64 s.num_read 1;
  pending_ld_map = push_at dispatch addr s.pending_ld_map;
}

unfoldable pub store : ℕ → ℕ → MemSim → MemSim
unfolding push_at
store dispatch addr s = record s {
  num_write = add64 s.num_write 1;
  pending_st_map = push_at dispatch addr s.pending_st_map;
}

-- What `map[addr]` reads.
abbrev pub waiting_at : ℕ → List (ℕ × List ℕ) → List ℕ
waiting_at addr q = elim (find addr q) [ none ↦ [] | some l ↦ l ]

-- `map[addr].push_back(time)` on an unordered map.
unfoldable pub enqueue : ℕ → ℕ → List (ℕ × List ℕ) → List (ℕ × List ℕ)
unfolding find put
enqueue now addr q = put addr (waiting_at addr q ++ now ∷ []) q

-- process_read_requests, up to the call of start_complete with the time `cpu_clock`.
unfoldable pub process_read : ℕ → MemSim → Option MemSim
unfolding find put erase
process_read addr s = elim (waiting_at addr s.dispatch_queue_read) [
  | [] ↦ none
  | t ∷ [] ↦ some (record s {
    total_read_latencies = add64 s.total_read_latencies (sub64 s.cpu_clock t);
    dispatch_queue_read = erase addr s.dispatch_queue_read;
  })
  | t ∷ t2 ∷ rest ↦ some (record s {
    total_read_latencies = add64 s.total_read_latencies (sub64 s.cpu_clock t);
    dispatch_queue_read = put addr (t2 ∷ rest) s.dispatch_queue_read;
  })
]

-- get_next_event
unfoldable pub get_next_event : MemSim → Option ℕ
get_next_event s = do
  now ← div? s.cpu_clock s.cpu_ticks
  let t0 = mul64 (add64 now 1) s.cpu_ticks
  let t1 : ℕ = elim s.pending_ld_map [ [] ↦ 0 | e ∷ m ↦ e.0 ]
  some (if ltb t1 t0 then t0 else t1)

-- The adapter, the simulator and the object whose start_complete is called: `calls` are these calls, the
-- time and the address of each, the last one first.
pub record World (M : Type 0) : Type 0 where
  pub sim : MemSim
  pub mem : M
  pub calls : List (ℕ × ℕ)

-- cpu_clock = t
abbrev pub at_time : {M : Type 0} → ℕ → World M → World M
at_time t w = record w { sim = record w.sim { cpu_clock = t } }

module _ {M : Type 0} (b : Backend M) where
  -- read_complete: process_read_requests with its call of start_complete.
  unfoldable pub read_complete : ℕ → World M → Option (World M)
  unfolding process_read
  read_complete addr w = do
    s ← process_read addr w.sim
    some (record w { sim = s; calls = (s.cpu_clock, addr) ∷ w.calls })

  unfoldable pub read_completes : List ℕ → World M → Option (World M)
  unfolding read_complete
  read_completes [] w = some w
  read_completes (a ∷ l) w = read_complete a w >>= read_completes l

  -- The loop over one list of transactions: those that are taken go to the queue, until one is not.
  unfoldable pub insert_list :
      Bool
      → (ℕ → List (ℕ × List ℕ) → List (ℕ × List ℕ))
      → List ℕ
      → M
      → List (ℕ × List ℕ)
      → M × List (ℕ × List ℕ) × List ℕ
  insert_list read note [] m q = (m, q, [])
  insert_list read note (a ∷ l) m q =
      let (m', success) = b.send read a m in
      let taken = insert_list read note l m' (note a q) in if success then taken else (m', q, a ∷ l)

  -- The loop over a map of pending transactions, up to the first time after `now`.
  unfoldable pub insert_map :
      Bool
      → (ℕ → List (ℕ × List ℕ) → List (ℕ × List ℕ))
      → ℕ
      → List (ℕ × List ℕ)
      → M
      → List (ℕ × List ℕ)
      → M × List (ℕ × List ℕ) × List (ℕ × List ℕ)
  unfolding insert_list
  insert_map read note now [] m q = (m, q, [])
  insert_map read note now (e ∷ p) m q =
      let (m', q', left) = insert_list read note e.1 m q in
      let further = insert_map read note now p m' q' in
      if ltb now e.0
      then (m, q, e ∷ p)
      else elim left [ [] ↦ further | a ∷ l ↦ (m', q', (e.0, a ∷ l) ∷ p) ]

  -- try_insert_st and try_insert_ld of RamulatorSim.
  unfoldable pub try_insert_st : World M → World M
  unfolding insert_map enqueue
  try_insert_st w =
      let s = w.sim in
      let (m, q, p) =
        insert_map false (enqueue s.cpu_clock) s.cpu_clock s.pending_st_map w.mem
          s.dispatch_queue_write in
      record w { sim = record s { dispatch_queue_write = q; pending_st_map = p }; mem = m }

  unfoldable pub try_insert_ld : World M → World M
  unfolding insert_map enqueue
  try_insert_ld w =
      let s = w.sim in
      let (m, q, p) =
        insert_map true (enqueue s.cpu_clock) s.cpu_clock s.pending_ld_map w.mem
          s.dispatch_queue_read in
      record w { sim = record s { dispatch_queue_read = q; pending_ld_map = p }; mem = m }

  -- The loop over the memory cycles of one tick.
  unfoldable pub memory_cycles : ℕ → World M → Option (World M)
  unfolding read_completes
  memory_cycles zero w = some w
  memory_cycles (suc n) w =
      let (m, done) = b.tick w.mem in
      read_completes done
        (record w { sim = record w.sim { mem_clock = add64 w.sim.mem_clock 1 }; mem = m })
      >>= memory_cycles n

  -- The loop over the ticks, of RamulatorSim::advance.
  unfoldable pub ticks : ℕ → World M → Option (World M)
  unfolding try_insert_st try_insert_ld memory_cycles
  ticks zero w = some w
  ticks (suc n) w = do
    w1 ← memory_cycles w.sim.mem_ticks (try_insert_ld (try_insert_st w))
    ticks n
        (record w1 { sim = record w1.sim { cpu_clock = add64 w1.sim.cpu_clock w1.sim.cpu_ticks } })

  -- RamulatorSim::advance. The loop runs for i = tick_st, ..., tick_end.
  unfoldable pub advance : ℕ → World M → Option (World M)
  unfolding ticks
  advance next_cpu_cycle w = do
    tick_st ← div? (add64 w.sim.cpu_clock w.sim.cpu_ticks) w.sim.cpu_ticks
    tick_end ← div? next_cpu_cycle w.sim.cpu_ticks
    w1 ← ticks (tick_end + 1 - tick_st) (at_time (mul64 tick_st w.sim.cpu_ticks) w)
    some (try_insert_ld (try_insert_st (at_time next_cpu_cycle w1)))

  -- NVMSim::advance: the same loop, with no insertion after it.
  unfoldable pub nvm_advance : ℕ → World M → Option (World M)
  unfolding ticks
  nvm_advance next_cpu_cycle w = do
    tick_st ← div? (add64 w.sim.cpu_clock w.sim.cpu_ticks) w.sim.cpu_ticks
    tick_end ← div? next_cpu_cycle w.sim.cpu_ticks
    w1 ← ticks (tick_end + 1 - tick_st) (at_time (mul64 tick_st w.sim.cpu_ticks) w)
    some (at_time next_cpu_cycle w1)

  -- The two insertions of a tick of DramSim: the queues of MemSim are left alone.
  unfoldable pub dram_insert : World M → World M
  unfolding insert_map
  dram_insert w =
      let s = w.sim in
      let (m1, q1, st_map) =
        insert_map false (λ a q. q) s.cpu_clock s.pending_st_map w.mem s.dispatch_queue_write in
      let (m2, q2, ld_map) =
        insert_map true (λ a q. q) s.cpu_clock s.pending_ld_map m1 s.dispatch_queue_read in
      record w { sim = record s { pending_st_map = st_map; pending_ld_map = ld_map }; mem = m2 }

  -- The loop over the ticks i, i + 1, ... of DramSim::advance.
  unfoldable pub dram_ticks : ℕ → ℕ → World M → Option (World M)
  unfolding dram_insert memory_cycles
  dram_ticks zero i w = some w
  dram_ticks (suc n) i w =
      memory_cycles w.sim.mem_ticks (dram_insert (at_time (mul64 i w.sim.cpu_ticks) w))
      >>= dram_ticks n (add64 i 1)

  unfoldable pub dram_advance : ℕ → World M → Option (World M)
  unfolding dram_ticks
  dram_advance next_cpu_cycle w = do
    tick_st ← div? (add64 w.sim.cpu_clock w.sim.cpu_ticks) w.sim.cpu_ticks
    tick_end ← div? next_cpu_cycle w.sim.cpu_ticks
    w1 ← dram_ticks (tick_end + 1 - tick_st) tick_st w
    some (at_time next_cpu_cycle w1)
