-- ===== src/Tests/Placements.antt =====
-- Two data on two memories: the placement of engine/ar_config.cpp on concrete inputs.
use siena_mem.Base.{
  ℕ, ◌/◌, ◌%◌, ◌≤◌, ◌≡◌, ◌≢◌, ◌↔◌, refl, true, none, some, [], ◌∷◌, arith, find, put, add64, mul64,
  sub64,
}
use siena_mem.DataNode.{MemAlloc}
use siena_mem.Memory.{Memory, place_alloc}
use siena_mem.Placement.{
  Placed, Space, next_free, init_data_placement, find_memobj, place_all, place_data, insert_placed,
  index_ranges, push_range, has_hms,
}
use siena_mem.Placement.Lines.{init_data_placement-separate}
use siena_mem.Placement.Owner.{owns, find_memobj-owns}

abbrev bytes : ℕ → MemAlloc
bytes n = record {
  mid = 0;
  name = 1;
  addr_st = 0;
  addr_end = 0;
  size = n;
  num_dims = 1;
  dim = n ∷ [];
  element_size = 1;
  element_num = n;
}

abbrev memory : Memory
memory = record {
  capacity = 1024;
  avail_capacity = 1024;
  lineshift = 6;
  access_latency_load = 10;
  access_latency_store = 10;
  simulator = none;
  load_queue = [];
  store_queue = [];
  memobj_map = [];
}

abbrev first : Placed
first = record { name = 1; mem = 0; alloc = bytes 100 }

abbrev second : Placed
second = record { name = 2; mem = 1; alloc = bytes 64 }

-- The placed data: 4096 to 4196, and 4224 to 4288.
abbrev first_placed : Placed
first_placed = record first { alloc = record (bytes 100) { addr_st = 4096; addr_end = 4196 } }

abbrev second_placed : Placed
second_placed = record second {
  alloc = record (bytes 64) { mid = 1; addr_st = 4224; addr_end = 4288 };
}

abbrev space : Space
space = record {
  free_addr = 4288;
  memories =
      record memory { avail_capacity = 924; memobj_map = (0, bytes 100) ∷ [] }
      ∷ record memory { avail_capacity = 960; memobj_map = (1, record (bytes 64) { mid = 1 }) ∷ [] }
      ∷ [];
  memobjs = first_placed ∷ second_placed ∷ [];
  mem_alloc_map = (0, (4096, 4196) ∷ []) ∷ (1, (4224, 4288) ∷ []) ∷ [];
}

placed : init_data_placement (first ∷ second ∷ []) (memory ∷ memory ∷ []) ≡ some space
unfolding init_data_placement place_all place_data place_alloc next_free insert_placed find put
    add64 mul64 sub64 index_ranges push_range has_hms
placed = refl

-- After a datum of no bytes the next one gets the same address.
next_free_empty : next_free 4096 0 ≡ 4096
unfolding next_free add64 mul64 sub64
next_free_empty = refl

init_data_placement-separate_example :
    (4096 ≤ first_placed.alloc.addr_st)
    × (first_placed.alloc.addr_st % 64 ≡ 0)
    × (◌≢◌ {A = ℕ} (4195 / 64) (4224 / 64))
init_data_placement-separate_example =
    init_data_placement-separate (first ∷ second ∷ []) (memory ∷ memory ∷ []) space 0 1 first_placed
      second_placed 4195 4224 (omega arith, omega arith, (omega arith, omega arith, tt)) placed refl
      refl (omega arith) (omega arith, omega arith) (omega arith, omega arith)

find_memobj-owns_example : (find_memobj 4230 space ≡ some 1) ↔ (owns 1 4230 space.memobjs ≡ true)
find_memobj-owns_example =
    find_memobj-owns (first ∷ second ∷ []) (memory ∷ memory ∷ []) space 4230 1
      (omega arith, omega arith, (omega arith, omega arith, tt)) (omega arith) placed
