-- ===== src/Cache/Array.antt =====
-- The classes CACHE_BASE and CACHE of engine/ar_cache.h and the constructor in engine/ar_cache.cpp.
-- `none` is a failed assertion, a division by 0 or a set index out of range. The local evict_block of
-- lookup_evict_update is not initialised: what it holds is the argument `junk`.
pub mod Recency
pub mod Victim
pub mod Valid
use Prim.Native.Nat.{bit_and}
use siena_mem.Base.{
  ℕ, zero, suc, ◌+◌, ◌/◌, ◌^◌, Bool, true, false, not, ◌&&◌, ◌||◌, Option, none, some, List, [],
  ◌∷◌, ◌++◌, ◌==◌, if◌then◌else◌, get_elem?, set, add64, sub64, mul64,
}
use siena_mem.Cache.Geometry.{is_power2, floor_log2, split_address}
use siena_mem.Cache.Lru.{
  WritePolicy, write_back, write_through, WriteMissPolicy, write_allocate, no_write_allocate,
  CacheBlock, CacheLookup, hit_valid, hit_invalid, miss, Lru, init_lru, find_and_update,
  evict_and_update, dirty_lines,
}

pub data AccessType : Type 0 where
  load store : AccessType

-- `_access[ACCESS_TYPE_NUM][HIT_MISS_NUM]`
pub record Stats : Type 0 where
  pub load_hits : ℕ
  pub load_misses : ℕ
  pub store_hits : ℕ
  pub store_misses : ℕ

pub record Cache : Type 0 where
  pub cache_size : ℕ
  pub line_size : ℕ
  pub associativity : ℕ
  pub line_shift : ℕ
  pub num_sets : ℕ
  pub set_index_mask : ℕ
  pub access : Stats
  pub sets : List Lru
  pub is_write_through : Bool
  pub is_write_allocate : Bool

abbrev pub no_access : Stats
no_access = record { load_hits = 0; load_misses = 0; store_hits = 0; store_misses = 0 }

-- `_access[accessType][hit]++`
unfoldable pub count_access : AccessType → Bool → Stats → Stats
count_access load true a = record a { load_hits = add64 a.load_hits 1 }
count_access load false a = record a { load_misses = add64 a.load_misses 1 }
count_access store true a = record a { store_hits = add64 a.store_hits 1 }
count_access store false a = record a { store_misses = add64 a.store_misses 1 }

-- The constructor's loop over the sets; `raw i` are the uninitialised blocks of set `i`.
unfoldable pub init_sets : (ℕ → ℕ → CacheBlock) → WritePolicy → ℕ → ℕ → ℕ → List Lru
init_sets raw policy associativity zero i = []
init_sets raw policy associativity (suc n) i =
    init_lru (raw i) policy associativity ∷ init_sets raw policy associativity n (i + 1)

-- What the constructor builds when its two assertions hold.
unfoldable pub new_cache : (ℕ → ℕ → CacheBlock) → WritePolicy → WriteMissPolicy → ℕ → ℕ → ℕ → Cache
new_cache raw policy miss_policy size line ways =
    let num = size / mul64 ways line in
    record {
      cache_size = size;
      line_size = line;
      associativity = ways;
      line_shift = floor_log2 line;
      num_sets = num;
      set_index_mask = sub64 num 1;
      access = no_access;
      sets = init_sets raw policy ways num 0;
      is_write_through = elim policy [ write_through ↦ true | write_back ↦ false ];
      is_write_allocate = elim miss_policy [ write_allocate ↦ true | no_write_allocate ↦ false ];
    }

unfoldable pub init_cache :
    (ℕ → ℕ → CacheBlock) → WritePolicy → WriteMissPolicy → ℕ → ℕ → ℕ → Option Cache
init_cache raw policy miss_policy size line ways =
    if mul64 ways line == 0
    then none
    else if is_power2 line && is_power2 (size / mul64 ways line)
    then some (new_cache raw policy miss_policy size line ways)
    else none

unfoldable pub is_store : AccessType → Bool
is_store load = false
is_store store = true

unfoldable pub is_hit : CacheLookup → Bool
is_hit hit_valid = true
is_hit hit_invalid = true
is_hit miss = false

-- Step 2: what becomes of the set and of evict_block after the lookup.
unfoldable pub evict_step : CacheBlock → Bool → ℕ → ℕ → Bool → Lru → CacheLookup → Lru × CacheBlock
evict_step junk allocate tag addr is_write s miss =
    if not is_write || allocate
    then (let (s', evicted) = evict_and_update tag addr is_write s in
        (s', record evicted { tag = 0 }))
    else (s, record junk { dirty = 0; tag = 0 })
evict_step junk allocate tag addr is_write s hit_valid = (s, record junk { tag = 1; valid = 1 })
evict_step junk allocate tag addr is_write s hit_invalid = (s, record junk { tag = 1; valid = 0 })

-- Both steps on the set that the address selects.
unfoldable pub set_access : CacheBlock → Bool → ℕ → ℕ → Bool → Lru → Lru × Bool × CacheBlock
unfolding is_hit evict_step
set_access junk allocate tag addr is_write s =
    let (s', lookup) = find_and_update tag is_write s in
    let (s'', evict_block) = evict_step junk allocate tag addr is_write s' lookup in
    (s'', is_hit lookup, evict_block)

unfoldable pub lookup_evict_update :
    CacheBlock → ℕ → AccessType → Cache → Option (Cache × CacheBlock)
unfolding is_store
lookup_evict_update junk addr type c =
    let (tag, set_index) = split_address c.line_shift c.set_index_mask addr in
    elim (get_elem? c.sets set_index) [
      | none ↦ none
      | some s ↦
          let (s', hit, evict_block) =
            set_access junk c.is_write_allocate tag addr (is_store type) s in
          some (
            record c { access = count_access type hit c.access; sets = set c.sets set_index s' },
            evict_block,
          )
    ]

-- flush_ditry_cacheline
unfoldable pub flush_dirty : List Lru → List CacheBlock
flush_dirty [] = []
flush_dirty (s ∷ ss) = dirty_lines s.blocks ++ flush_dirty ss

-- Hits, Misses and Accesses, per type and in all.
unfoldable pub hits : AccessType → Stats → ℕ
hits load a = a.load_hits
hits store a = a.store_hits

unfoldable pub misses : AccessType → Stats → ℕ
misses load a = a.load_misses
misses store a = a.store_misses

unfoldable pub accesses : AccessType → Stats → ℕ
unfolding hits misses
accesses type a = add64 (hits type a) (misses type a)

unfoldable pub total_accesses : Stats → ℕ
unfolding hits misses
total_accesses a =
    add64 (add64 (hits load a) (hits store a)) (add64 (misses load a) (misses store a))
