-- ===== src/Tests/Levels.antt =====
-- A first level of cache of one line of 64 bytes, above a level that answers later: engine/ar_cacheobj.cpp on
-- concrete inputs.
use siena_mem.Base.{
  ℕ, ◌+◌, ◌≡◌, ◌↔◌, refl, true, none, some, List, [], ◌∷◌, map, arith, find, put, add64, mul64,
  sub64, if◌then◌else◌,
}
use siena_mem.Types.{Req}
use siena_mem.Cache.Lru.{
  no_block, WritePolicy, WriteMissPolicy, init_lru, init_blocks, find_and_update, evict_and_update,
  find_index, evict_index,
}
use siena_mem.Cache.Geometry.{floor_log2, log_steps, split_address}
use siena_mem.Cache.Array.{new_cache, init_sets, set_access, lookup_evict_update, count_access}
use siena_mem.Level.{
  CacheObj, Beneath, load, prop_complete, advance, load_miss, await_line, write_back,
}
use siena_mem.Level.Reach.{start, next, load_step, prop_complete-Reach}
use siena_mem.Level.Merge.{run_loads, zeros, prop_complete-run_loads}
use siena_mem.Level.Sweep.{all_due, erase_all, advance-all_due}

-- What lies beneath counts the loads that reach it.
abbrev counter : Beneath ℕ
counter = record {
  next_load = λ r n. some (n + 1, 0);
  next_store = λ r n. some n;
  next_lookup = λ a op n. some n;
  mem_load = λ r n. none;
  mem_store = λ a r n. none;
}

abbrev level : CacheObj
level = record {
  oid = 1;
  cache_array =
      new_cache (λ i j. no_block) WritePolicy.write_back WriteMissPolicy.write_allocate 64 64 1;
  lineshift = 6;
  access_latency_load = 4;
  access_latency_store = 4;
  is_flc = true;
  has_next = true;
  simulator = none;
  load_queue = [];
  pending_cl_req_map = [];
  pending_cl_delay_map = [];
}

abbrev read_at : ℕ → ℕ → Req
read_at a t = record {
  addr = a;
  dispatch = t;
  ctx = 0;
  pos = 0;
  mem = some 0;
  prev = none;
  complete = 0;
}

-- The level after a load that misses.
abbrev loaded : CacheObj
loaded = record level {
  cache_array = record level.cache_array {
    access = record { load_hits = 0; load_misses = 1; store_hits = 0; store_misses = 0 };
    sets =
        record {
          associativity = 1;
          blocks = record { valid = 1; dirty = 0; tag = 2; addr = 128; timestamp = 1 } ∷ [];
          timestamp = 1;
          write_policy = WritePolicy.write_back;
        }
        ∷ [];
  };
  pending_cl_req_map = (128, read_at 130 7 ∷ []) ∷ [];
  pending_cl_delay_map = (128, 0) ∷ [];
}

load_first : load counter no_block (read_at 130 7) level 0 ≡ some (loaded, 1, 0)
unfolding load find put mul64 add64 sub64 lookup_evict_update load_miss await_line write_back
    count_access new_cache split_address init_sets floor_log2 log_steps set_access find_and_update
    init_lru evict_and_update find_index evict_index init_blocks
load_first = refl

abbrev answer : Req
answer = record (read_at 128 7) { complete = 50 }

abbrev waiting : CacheObj
waiting = record level { pending_cl_delay_map = (128, 30) ∷ (64, 0) ∷ [] }

-- A line whose time is not known keeps the loop of advance from its end.
waits_forever : advance 9 100 waiting ≡ none
unfolding advance
waits_forever = advance-all_due 9 100 waiting refl (omega arith)

advance-all_due_example : advance 2 100 waiting ≡ (
    if all_due 100 waiting.pending_cl_delay_map
    then some (record waiting {
      pending_cl_delay_map = [];
      pending_cl_req_map = erase_all waiting.pending_cl_delay_map waiting.pending_cl_req_map;
    })
    else none)
advance-all_due_example = advance-all_due 2 100 waiting refl (omega arith)

abbrev two_reads : List Req
two_reads = read_at 136 8 ∷ read_at 190 9 ∷ []

prop_complete-run_loads_example :
    (d : CacheObj) × (e : CacheObj) × (run_loads counter no_block two_reads loaded 1
      ≡ some (d, 1, zeros two_reads))
    × (prop_complete answer d
        ≡ some (e, map (λ (q : Req). record q { complete = 50 }) (read_at 130 7 ∷ two_reads)))
    × (find 128 e.pending_cl_delay_map ≡ none)
    × (find 128 e.pending_cl_req_map ≡ none)
unfolding find mul64
prop_complete-run_loads_example =
    prop_complete-run_loads counter no_block (read_at 130 7) level loaded 0 1 0 two_reads answer
      (λ k. refl) refl refl load_first refl (refl, (refl, tt))

prop_complete-Reach_example :
    ((r : CacheObj × List Req) × (prop_complete answer loaded ≡ some r))
    ↔ (find 128 loaded.pending_cl_delay_map ≡ some 0)
prop_complete-Reach_example =
    prop_complete-Reach counter level loaded answer refl refl (
      next level loaded start
        (load_step no_block (read_at 130 7) level 0 (loaded, 1, 0) load_first))
