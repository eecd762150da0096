-- ===== src/Tests/Machines.antt =====
-- Memories, threads, ports and blocks: engine/ar_memobj.cpp, engine/ar_engine.cpp, engine/ar_context.cpp and
-- engine/ar_execblock.cpp on concrete inputs.
use siena_mem.Base.{
  ◌≤◌, ℕ, suc, ◌+◌, ◌<◌, ◌≡◌, ◌⊎◌, refl, true, false, none, some, List, [], ◌∷◌, map, arith, length,
  find, mul64,
}
use siena_mem.DataNode.{MemAlloc}
use siena_mem.Types.{Req}
use siena_mem.Types.Gcd.{Divides}
use siena_mem.Simulator.{MemSim}
use siena_mem.Memory.{Memory, alloc_key, place_alloc, remove_alloc, start_complete}
use siena_mem.Memory.Capacity.{IsAccounted, used, place_alloc-branches, remove_alloc-place_alloc}
use siena_mem.Memory.Aggregate.{run_loads, on_line, reads_sent, start_complete-run_loads}
use siena_mem.Engine.{Threads, workload, init_thread_ctx}
use siena_mem.Engine.Shares.{Tiles, init_thread_ctx-Tiles}
use siena_mem.Context.{Context, L1, take_alu, try_dispatch_ld}
use siena_mem.Context.Slots.{InWidth, slot, take_alu-slot, try_dispatch_ld-slot}
use siena_mem.ExecBlock.{ExecBlock, set_global_control, entry_count}
use siena_mem.ExecBlock.Control.{Counts, DividesAll, set_global_control-gcd}

abbrev adapter : MemSim
adapter = record {
  mem_frequency = 800;
  mem_ticks = 1;
  cpu_ticks = 3;
  mem_clock = 0;
  cpu_clock = 0;
  total_read_latencies = 0;
  num_read = 0;
  num_write = 0;
  dispatch_queue_read = [];
  dispatch_queue_write = [];
  pending_ld_map = [];
  pending_st_map = [];
}

abbrev grid : MemAlloc
grid = record {
  mid = 3;
  name = 1;
  addr_st = 4096;
  addr_end = 4255;
  size = 160;
  num_dims = 2;
  dim = 4 ∷ 5 ∷ [];
  element_size = 8;
  element_num = 20;
}

abbrev memory : Memory
memory = record {
  capacity = 1024;
  avail_capacity = 864;
  lineshift = 6;
  access_latency_load = 10;
  access_latency_store = 10;
  simulator = some adapter;
  load_queue = [];
  store_queue = [];
  memobj_map = (3, grid) ∷ [];
}

memory-IsAccounted : IsAccounted memory
unfolding find
memory-IsAccounted = record { distinct = (refl, tt); sum = refl; fits = omega arith }

abbrev table : MemAlloc
table = record grid { mid = 4; size = 320 }

abbrev read_at : ℕ → ℕ → Req
read_at a t = record {
  addr = a;
  dispatch = t;
  ctx = 0;
  pos = 0;
  mem = some 0;
  prev = some 1;
  complete = 0;
}

abbrev three_reads : List Req
three_reads = read_at 130 7 ∷ read_at 200 8 ∷ read_at 140 9 ∷ []

place_alloc-branches_example :
    ((memory.avail_capacity < table.size) × (place_alloc table memory ≡ some (false, memory)))
    ⊎ ((b : MemAlloc) × (find (alloc_key table.mid) memory.memobj_map ≡ some b)
        × (place_alloc table memory ≡ none))
    ⊎ ((m' : Memory) × (place_alloc table memory ≡ some (true, m'))
        × IsAccounted m'
        × (used m'.memobj_map ≡ used memory.memobj_map + table.size))
place_alloc-branches_example = place_alloc-branches table memory memory-IsAccounted

remove_alloc-place_alloc_example :
    (m' : Memory) × (place_alloc table memory ≡ some (true, m')) × (remove_alloc 4 m' ≡ some memory)
unfolding find
remove_alloc-place_alloc_example =
    remove_alloc-place_alloc table memory (omega arith) (omega arith) refl

start_complete-run_loads_example :
    ((start_complete 50 128 (run_loads three_reads memory)).1
      ≡ map (λ (q : Req). record q { complete = 50 }) (on_line 6 128 three_reads))
    × (reads_sent 128 (run_loads three_reads memory) ≡ reads_sent 128 memory + 1)
    × (find 128 (start_complete 50 128 (run_loads three_reads memory)).0.load_queue ≡ none)
unfolding mul64 find
start_complete-run_loads_example =
    start_complete-run_loads 50 128 three_reads memory adapter (read_at 130 7) (read_at 140 9 ∷ [])
      refl refl refl

init_thread_ctx-Tiles_example :
    (t : Threads) × (init_thread_ctx 4 9 ≡ some t)
    × Tiles (workload 9 4) 0 0 9 t.shares
    × (t.num_finished_threads + length t.shares ≡ 4)
init_thread_ctx-Tiles_example = init_thread_ctx-Tiles 4 9 (omega arith) (omega arith) (omega arith)

abbrev context : Context ℕ
context = record {
  tid = 0;
  window = [];
  lfb_depth = 10;
  alu = 4;
  ld = 2;
  st = 1;
  avail_alu = 3;
  avail_ld = 1;
  avail_st = 1;
  t_cpu = 6;
  t_alu = 5;
  t_ld = 8;
  t_st = 7;
  has_complete_op = false;
  l1 = 0;
  pending_ld_list = [];
  pending_st_list = [];
}

-- A cache that counts its calls.
abbrev counting : L1 ℕ
counting = record {
  load = λ r n. (suc n, r.dispatch);
  store = λ r n. (suc n, r.dispatch);
  num_pending_cl = λ n. n;
}

take_alu-slot_example :
    (c' : Context ℕ) × (take_alu 13 context ≡ some c')
    × InWidth c'.avail_alu 4
    × (slot c'.t_alu 4 c'.avail_alu ≡ slot 6 4 3 + 13)
take_alu-slot_example =
    take_alu-slot context 13 (omega arith, omega arith) (omega arith) (omega arith)

try_dispatch_ld-slot_example :
    let (c', success) = try_dispatch_ld counting (read_at 130 7) context in
    ((success ≡ true)
      × (7 ≤ 8)
      × (0 < 10)
      × InWidth c'.avail_ld 2
      × (slot c'.t_ld 2 c'.avail_ld ≡ slot 8 2 1 + 1)
      × (c'.l1 ≡ 1))
    ⊎ ((success ≡ false) × ((8 < 7) ⊎ (10 ≤ 0)) × (c' ≡ record context { t_ld = 8 }))
try_dispatch_ld-slot_example =
    try_dispatch_ld-slot context counting (read_at 130 7) (omega arith, omega arith) (omega arith)
      (omega arith)

abbrev block : ExecBlock
block = record {
  global_control = 0;
  node_list = (1, 0) ∷ (1, 1) ∷ [];
  datanode_list = [];
  opnode_list = record { count = 24 } ∷ record { count = 36 } ∷ [];
  nodegroup_list = [];
}

block-Counts : Counts block block.node_list (24 ∷ 36 ∷ [])
unfolding entry_count
block-Counts = Counts.next refl (Counts.next refl Counts.none_left)

set_global_control-gcd_example :
    (b' : ExecBlock) × (set_global_control 0 block ≡ some b')
    × DividesAll b'.global_control (24 ∷ 36 ∷ [])
    × ((d : ℕ) → DividesAll d (24 ∷ 36 ∷ []) → Divides d b'.global_control)
set_global_control-gcd_example = set_global_control-gcd block 24 (36 ∷ []) block-Counts
