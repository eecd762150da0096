-- ===== src/Memory.antt =====
-- engine/ar_memobj.cpp: a memory with the allocations placed on it, and its requests. A memory that is
-- simulated holds the adapter of its simulator. `none` is a PANIC.
pub mod Capacity
pub mod Aggregate
use siena_mem.Base.{
  ◌>>=◌, ℕ, ◌+◌, ◌-◌, ◌*◌, ◌/◌, ◌%◌, ◌^◌, Bool, true, false, Option, none, some, List, [], ◌∷◌,
  ◌++◌, map, ltb, if◌then◌else◌, add64, sub64, mul64, find, put, erase,
}
use siena_mem.DataNode.{MemAlloc}
use siena_mem.Types.{Req}
use siena_mem.Simulator.{MemSim}
use siena_mem.Simulator

-- MemObj with the fields of BaseObj that it uses.
pub record Memory : Type 0 where
  pub capacity : ℕ
  pub avail_capacity : ℕ
  pub lineshift : ℕ
  pub access_latency_load : ℕ
  pub access_latency_store : ℕ
  pub simulator : Option MemSim
  pub load_queue : List (ℕ × List Req)
  pub store_queue : List (ℕ × List Req)
  pub memobj_map : List (ℕ × MemAlloc)

-- addr>>lineshift<<lineshift
abbrev pub align : ℕ → ℕ → ℕ
align shift addr = mul64 (addr / 2 ^ shift) (2 ^ shift)

-- What `queue[addr]` reads.
abbrev pub queue_at : ℕ → List (ℕ × List Req) → List Req
queue_at addr q = elim (find addr q) [ none ↦ [] | some l ↦ l ]

-- load: the memory after it and the completion time that is returned.
unfoldable pub load : Req → Memory → Memory × ℕ
unfolding find put Simulator.load
load req m =
    let addr = align m.lineshift req.addr in
    let queued = put addr (queue_at addr m.load_queue ++ req ∷ []) m.load_queue in
    elim m.simulator [
      | none ↦ (m, add64 req.dispatch m.access_latency_load)
      | some s ↦ elim (find addr m.load_queue) [
        | none ↦ (
          record m { simulator = some (Simulator.load req.dispatch addr s); load_queue = queued },
          0,
        )
        | some l ↦ (record m { load_queue = queued }, 0)
      ]
    ]

unfoldable pub store : Req → Memory → Memory × ℕ
unfolding find put Simulator.store
store req m =
    let addr = align m.lineshift req.addr in
    elim m.simulator [
      | none ↦ (m, add64 req.dispatch m.access_latency_store)
      | some s ↦ (
        record m {
          simulator = some (Simulator.store req.dispatch addr s);
          store_queue = put addr (queue_at addr m.store_queue ++ req ∷ []) m.store_queue;
        },
        0,
      )
    ]

-- The key of an allocation: its id as an `int`.
abbrev pub alloc_key : ℕ → ℕ
alloc_key mid = mid % 2 ^ 32

-- place_alloc: whether the allocation was placed, and the memory after it.
unfoldable pub place_alloc : MemAlloc → Memory → Option (Bool × Memory)
unfolding find put
place_alloc a m =
    if ltb m.avail_capacity a.size
    then some (false, m)
    else elim (find (alloc_key a.mid) m.memobj_map) [
      | some b ↦ none
      | none ↦ some (
        true,
        record m {
          memobj_map = put (alloc_key a.mid) a m.memobj_map;
          avail_capacity = sub64 m.avail_capacity a.size;
        },
      )
    ]

-- remove_alloc, which returns true.
unfoldable pub remove_alloc : ℕ → Memory → Option Memory
unfolding find erase
remove_alloc oid m = elim (find (alloc_key oid) m.memobj_map) [
  | none ↦ none
  | some a ↦ some (record m {
    avail_capacity = add64 m.avail_capacity a.size;
    memobj_map = erase (alloc_key oid) m.memobj_map;
  })
]

-- start_complete: the memory after it, and the requests that go to prop_complete of the objects that
-- sent them, in order.
unfoldable pub start_complete : ℕ → ℕ → Memory → Memory × List Req
unfolding find erase
start_complete t addr_st m = (
  record m { load_queue = erase addr_st m.load_queue },
  map (λ (r : Req). record r { complete = t }) (queue_at addr_st m.load_queue),
)
