-- ===== src/Level.antt =====
-- engine/ar_cacheobj.cpp and ar_cacheobj.h: a level of cache, with the lines it waits for. What lies
-- beneath it (the next level or the memories) is a state `n`, and the calls of it are the arguments of a
-- Beneath. `none` is a failed assertion or a PANIC, or a failure in the cache array.
pub mod Pending
pub mod Reach
pub mod Merge
pub mod Sweep
use siena_mem.Base.{
  ◌>>=◌, ℕ, zero, suc, Bool, true, ◌&&◌, Option, none, some, List, [], ◌∷◌, ◌++◌, map, ltb, ◌==◌,
  if◌then◌else◌, add64, find, put, erase, length,
}
use siena_mem.DataNode.{OpType}
use siena_mem.Types.{Req}
use siena_mem.Simulator.{MemSim}
use siena_mem.Simulator
use siena_mem.Memory.{align, queue_at}
use siena_mem.Cache.Lru.{CacheBlock}
use siena_mem.Cache.Array.{Cache, AccessType, count_access, lookup_evict_update}

-- CacheObj with the fields of BaseObj that it uses; `oid` stands for `this`, `has_next` is next != null.
pub record CacheObj : Type 0 where
  pub oid : ℕ
  pub cache_array : Cache
  pub lineshift : ℕ
  pub access_latency_load : ℕ
  pub access_latency_store : ℕ
  pub is_flc : Bool
  pub has_next : Bool
  pub simulator : Option MemSim
  pub load_queue : List (ℕ × List Req)
  pub pending_cl_req_map : List (ℕ × List Req)
  pub pending_cl_delay_map : List (ℕ × ℕ)

-- The calls next->load, next->store and next->lookup, (req.mem_ptr)->load, and the store to the memory
-- that engine->find_memobj gives for an address.
pub record Beneath (N : Type 0) : Type 0 where
  pub next_load : Req → N → Option (N × ℕ)
  pub next_store : Req → N → Option N
  pub next_lookup : ℕ → OpType → N → Option N
  pub mem_load : Req → N → Option (N × ℕ)
  pub mem_store : ℕ → Req → N → Option N

-- get_num_pending_cl
unfoldable pub get_num_pending_cl : CacheObj → ℕ
get_num_pending_cl c = length c.pending_cl_req_map

-- A latency that counts only without a simulator.
abbrev pub latency : Option MemSim → ℕ → ℕ
latency none t = t
latency (some s) t = 0

-- pendingCl_req_map[addr].push_back(req)
abbrev pub wait : ℕ → Req → CacheObj → CacheObj
wait addr req c = record c {
  pending_cl_req_map =
      put addr (queue_at addr c.pending_cl_req_map ++ req ∷ []) c.pending_cl_req_map;
}

-- A load of a line with an entry `t` in pendingCl_delay_map.
unfoldable pub load_pending : ℕ → ℕ → Req → CacheObj → CacheObj × ℕ
load_pending addr t req c =
    let a = c.cache_array in
    let c' : CacheObj = record c {
      cache_array = record a { access = count_access AccessType.load true a.access };
    } in
    if t == 0
    then (wait addr req c', 0)
    else (c', add64 (if ltb t req.dispatch then req.dispatch else t) c.access_latency_load)

-- A load that hits.
unfoldable pub load_hit : ℕ → Req → CacheObj → CacheObj × ℕ
unfolding Simulator.load
load_hit addr req c = elim c.simulator [
  | none ↦ (c, add64 req.dispatch c.access_latency_load)
  | some s ↦ (
    record c {
      simulator = some (Simulator.load req.dispatch addr s);
      load_queue = put addr (queue_at addr c.load_queue ++ req ∷ []) c.load_queue;
    },
    0,
  )
]

-- The request `{evict_block.addr}` of a write-back to a memory.
abbrev pub wb_req : ℕ → Req → CacheObj → Req
wb_req addr req c = record {
  addr = addr;
  dispatch = add64 req.dispatch (latency c.simulator c.access_latency_store);
  ctx = req.ctx;
  pos = 0;
  mem = none;
  prev = none;
  complete = 0;
}

-- The entries of a line that the level beneath answers with the time `t`.
unfoldable pub await_line : ℕ → ℕ → Req → CacheObj → CacheObj
unfolding put
await_line addr t req c =
    let c' : CacheObj = record c { pending_cl_delay_map = put addr t c.pending_cl_delay_map } in
    if t == 0 then wait addr req c' else c'

module _ {N : Type 0} (f : Beneath N) where
  -- The block that `load` and `store` write back when it is valid and dirty.
  unfoldable pub write_back : CacheBlock → Req → CacheObj → N → Option N
  write_back evict req c n =
      if evict.dirty == 1 && evict.valid == 1
      then if c.has_next
        then f.next_store req n
        else f.mem_store evict.addr (wb_req evict.addr req c) n
      else some n

  -- A load that misses.
  unfoldable pub load_miss : ℕ → CacheBlock → Req → CacheObj → N → Option (CacheObj × N × ℕ)
  unfolding write_back await_line
  load_miss addr evict req c n = do
    let req_next : Req = record req {
      dispatch = add64 req.dispatch (latency c.simulator c.access_latency_load);
      prev = some c.oid;
      addr = addr;
    }
    r ← if c.has_next then f.next_load req_next n else f.mem_load req_next n
    n' ← write_back evict req c r.0
    some (await_line addr r.1 req c, n', r.1)

  -- load: the level after it, what lies beneath, and the completion time that is returned.
  unfoldable pub load : CacheBlock → Req → CacheObj → N → Option (CacheObj × N × ℕ)
  unfolding find load_pending load_hit load_miss
  load junk req c n =
      let addr = align c.lineshift req.addr in
      elim (find addr c.pending_cl_delay_map) [
        | some t ↦ let r = load_pending addr t req c in some (r.0, n, r.1)
        | none ↦ do
          r ← lookup_evict_update junk addr AccessType.load c.cache_array
          let c' : CacheObj = record c { cache_array = r.0 }
          let hit = load_hit addr req c'
          if r.1.tag == 1 then some (hit.0, n, hit.1) else load_miss addr r.1 req c' n
      ]

  -- store
  unfoldable pub store : CacheBlock → Req → CacheObj → N → Option (CacheObj × N × ℕ)
  unfolding write_back Simulator.store
  store junk req c n = do
    r ← lookup_evict_update junk req.addr AccessType.store c.cache_array
    let c' : CacheObj = record c { cache_array = r.0 }
    n' ← write_back r.1 req c' n
    elim c.simulator [
      | none ↦ some (c', n', add64 req.dispatch c.access_latency_store)
      | some s ↦ some (
        record c' {
          simulator = some (Simulator.store req.dispatch (align c.lineshift req.addr) s);
        },
        n',
        0,
      )
    ]

  -- lookup, as the warm-up calls it; another type than LOAD and STORE is a PANIC.
  unfoldable pub lookup : CacheBlock → ℕ → OpType → CacheObj → N → Option (CacheObj × N)
  lookup junk addr op c n = do
    type ← elim op [
      | OpType.load ↦ some AccessType.load
      | OpType.store ↦ some AccessType.store
      | _ ↦ none
    ]
    r ← lookup_evict_update junk addr type c.cache_array
    n' ← if r.1.tag == 1 then some n else if c.has_next then f.next_lookup addr op n else some n
    some (record c { cache_array = r.0 }, n')

-- prop_complete: the level after it and the requests that it passes on, in order: to complete_op of
-- their context if the level is the first one, and else to prop_complete of the level that sent them.
unfoldable pub prop_complete : Req → CacheObj → Option (CacheObj × List Req)
unfolding find erase
prop_complete req c = elim (find req.addr c.pending_cl_delay_map) [
  | none ↦ none
  | some t ↦ elim (queue_at req.addr c.pending_cl_req_map) [
    | [] ↦ none
    | r ∷ rs ↦ some (
      record c {
        pending_cl_delay_map = erase req.addr c.pending_cl_delay_map;
        pending_cl_req_map = erase req.addr c.pending_cl_req_map;
      },
      map (λ (q : Req). record q { complete = req.complete }) (r ∷ rs),
    )
  ]
]

-- start_complete: the level after it and the one request that completes; `none` is a read of an empty
-- queue.
unfoldable pub start_complete : ℕ → ℕ → CacheObj → Option (CacheObj × Req)
unfolding find put erase
start_complete t addr_st c = elim (queue_at addr_st c.load_queue) [
  | [] ↦ none
  | r ∷ [] ↦ some (record c { load_queue = erase addr_st c.load_queue }, record r { complete = t })
  | r ∷ q ∷ qs ↦
      some (record c { load_queue = put addr_st (q ∷ qs) c.load_queue }, record r { complete = t })
]

-- Whether `advance` erases the entry of a line.
abbrev pub is_due : ℕ → ℕ → Bool
is_due next_cpu_cycle t = ltb 0 t && ltb t next_cpu_cycle

-- The loop of advance, at the first of the entries that are left; the loop moves on only where it erases
-- an entry. `none` is out of fuel.
unfoldable pub sweep :
    ℕ
    → ℕ
    → List (ℕ × ℕ)
    → List (ℕ × ℕ)
    → List (ℕ × List Req)
    → Option (List (ℕ × ℕ) × List (ℕ × List Req))
unfolding erase
sweep fuel next_cpu_cycle [] delays reqs = some (delays, reqs)
sweep zero next_cpu_cycle (e ∷ left) delays reqs = none
sweep (suc fuel) next_cpu_cycle (e ∷ left) delays reqs =
    let erased = sweep fuel next_cpu_cycle left (erase e.0 delays) (erase e.0 reqs) in
    let stayed = sweep fuel next_cpu_cycle (e ∷ left) delays reqs in
    if is_due next_cpu_cycle e.1 then erased else stayed

-- advance, of a level without a simulator.
unfoldable pub advance_pending : ℕ → ℕ → CacheObj → Option CacheObj
unfolding sweep
advance_pending fuel next_cpu_cycle c = do
  r ← sweep fuel next_cpu_cycle c.pending_cl_delay_map c.pending_cl_delay_map c.pending_cl_req_map
  some (record c { pending_cl_delay_map = r.0; pending_cl_req_map = r.1 })

-- advance
unfoldable pub advance : ℕ → ℕ → CacheObj → Option CacheObj
unfolding advance_pending
advance fuel next_cpu_cycle c = elim c.simulator [
  | some s ↦ some c
  | none ↦ advance_pending fuel next_cpu_cycle c
]
