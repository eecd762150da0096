-- ===== src/Placement.antt =====
-- engine/ar_config.cpp, the placement of the data by Engine::init_data_placement, and engine/ar_utility.cpp,
-- the search of the memory of an address. Memories are known by their place in the list; a name is a
-- number. `none` is a PANIC.
pub mod Addresses
pub mod Lines
pub mod Owner
use siena_mem.Base.{
  ℕ, ◌/◌, Bool, true, false, ◌&&◌, ◌||◌, Option, none, some, List, [], ◌∷◌, ◌++◌, ltb, leb, ◌==◌,
  if◌then◌else◌, length, get_elem?, set, add64, sub64, mul64, find, put, ◌>>=◌,
}
use siena_mem.DataNode.{MemAlloc}
use siena_mem.Memory.{Memory, place_alloc}

-- A datum: its name, the memory that it is mapped to, and the allocation before it has addresses. In the
-- engine's maps memobj_map and alloc_mem_map, which have the same keys, the same with addresses.
pub record Placed : Type 0 where
  pub name : ℕ
  pub mem : ℕ
  pub alloc : MemAlloc

-- What the placement leaves in the engine: free_addr, machine_memories, the two maps by name, and the
-- addresses of each memory.
pub record Space : Type 0 where
  pub free_addr : ℕ
  pub memories : List Memory
  pub memobjs : List Placed
  pub mem_alloc_map : List (ℕ × List (ℕ × ℕ))

-- free_addr after an allocation of `size` bytes, with CACHELINE_BYTES = 64.
unfoldable pub next_free : ℕ → ℕ → ℕ
next_free free_addr size = add64 free_addr (add64 (mul64 (sub64 size 1 / 64) 64) 64)

-- `alloc_mem_map[a.name] = ...` and memobj_map.insert, which keeps an allocation of the same name.
unfoldable pub insert_placed : Placed → List Placed → List Placed
insert_placed p [] = p ∷ []
insert_placed p (q ∷ qs) =
    let rest = insert_placed p qs in
    if p.name == q.name then record q { mem = p.mem } ∷ qs else q ∷ rest

-- The round of the loop for one datum.
unfoldable pub place_data : Placed → Space → Option Space
unfolding next_free insert_placed place_alloc
place_data p s = do
  m ← get_elem? s.memories p.mem
  let a : MemAlloc = record p.alloc { mid = length s.memobjs }
  r ← place_alloc a m
  let b : MemAlloc = record a { addr_st = s.free_addr; addr_end = add64 s.free_addr a.size }
  let s' : Space = record s {
    free_addr = next_free s.free_addr a.size;
    memories = set s.memories p.mem r.1;
    memobjs = insert_placed (record p { alloc = b }) s.memobjs;
  }
  (if r.0 then some s' else none)

unfoldable pub place_all : List Placed → Space → Option Space
unfolding place_data
place_all [] s = some s
place_all (p ∷ ps) s = do s' ← place_data p s; place_all ps s'

abbrev pub ranges_of : Option (List (ℕ × ℕ)) → List (ℕ × ℕ)
ranges_of none = []
ranges_of (some l) = l

-- `mem_alloc_map[&mem].push_back(t)`
unfoldable pub push_range : ℕ → ℕ × ℕ → List (ℕ × List (ℕ × ℕ)) → List (ℕ × List (ℕ × ℕ))
unfolding find put
push_range m t ranges = put m (ranges_of (find m ranges) ++ t ∷ []) ranges

-- The loop over memobj_map that fills mem_alloc_map.
unfoldable pub index_ranges : List Placed → List (ℕ × List (ℕ × ℕ)) → List (ℕ × List (ℕ × ℕ))
unfolding push_range
index_ranges [] ranges = ranges
index_ranges (p ∷ ps) ranges =
    index_ranges ps (push_range p.mem (p.alloc.addr_st, p.alloc.addr_end) ranges)

-- has_hms: there is not just one memory.
unfoldable pub has_hms : List Memory → Bool
has_hms ms = if length ms == 1 then false else true

-- init_data_placement, from the free_addr that Engine::init sets.
unfoldable pub init_data_placement : List Placed → List Memory → Option Space
unfolding place_all index_ranges has_hms
init_data_placement ps ms = do
  s ← place_all ps (record { free_addr = 4096; memories = ms; memobjs = []; mem_alloc_map = [] })
  some (record s { mem_alloc_map = if has_hms s.memories then index_ranges s.memobjs [] else [] })

abbrev pub in_range : ℕ → ℕ × ℕ → Bool
in_range addr t = leb t.0 addr && ltb addr t.1

unfoldable pub in_ranges : ℕ → List (ℕ × ℕ) → Bool
in_ranges addr [] = false
in_ranges addr (t ∷ ts) = let rest = in_ranges addr ts in if in_range addr t then true else rest

unfoldable pub search_ranges : ℕ → List (ℕ × List (ℕ × ℕ)) → Option ℕ
unfolding in_ranges
search_ranges addr [] = none
search_ranges addr (e ∷ es) =
    let rest = search_ranges addr es in if in_ranges addr e.1 then some e.0 else rest

-- find_memobj: the memory of an address.
unfoldable pub find_memobj : ℕ → Space → Option ℕ
unfolding has_hms search_ranges
find_memobj addr s = if has_hms s.memories then search_ranges addr s.mem_alloc_map else some 0
