-- ===== src/Tests/Caches.antt =====
-- A cache of 1024 bytes, of two ways and lines of 64 bytes: engine/ar_cache.h on concrete inputs.
use siena_mem.Base.{
  ℕ, ◌^◌, ◌*◌, ◌<◌, ◌≡◌, ◌⊎◌, ◌↔◌, refl, Bool, true, false, none, some, List, [], ◌∷◌, arith, add64,
  mul64, sub64, length, get_elem?, get_or, set,
}
use siena_mem.Cache.Geometry.{floor_log2, is_power2, split_address, log_steps}
use siena_mem.Cache.Geometry.Log.{floor_log2_high, is_power2_iff}
use siena_mem.Cache.Lru.{
  CacheBlock, Lru, no_block, WritePolicy, WriteMissPolicy, init_lru, init_blocks, evict_index,
  fill_block,
}
use siena_mem.Cache.Lru.Find.{has_tag}
use siena_mem.Cache.Array.{
  AccessType, Cache, new_cache, init_cache, count_access, set_access, lookup_evict_update,
}
use siena_mem.Cache.Array.Recency.{init_lru-Tracks}
use siena_mem.Cache.Array.Victim.{IsVictim, set_access-IsVictim}
use siena_mem.Cache.Array.Valid.{
  IsValid, TracksAll, note, init_cache-TracksAll, lookup_evict_update-TracksAll, init_cache_small,
}

abbrev raw : ℕ → ℕ → CacheBlock
raw i j = no_block

abbrev back : WritePolicy
back = WritePolicy.write_back

abbrev small : Cache
small = new_cache raw back WriteMissPolicy.write_allocate 1024 64 2

abbrev new_set : Lru
new_set = init_lru (raw 0) back 2

abbrev calls : List (ℕ × ℕ × Bool)
calls = (3, 192, true) ∷ (5, 320, false) ∷ (3, 192, false) ∷ []

floor_log2_64 : floor_log2 64 ≡ 6
unfolding floor_log2 log_steps
floor_log2_64 = refl

floor_log2_high_example : floor_log2 (2 ^ 32 * 5) ≡ 0
floor_log2_high_example = floor_log2_high 5 (omega arith)

is_power2_iff_example :
    (is_power2 64 ≡ true) ↔ ((◌≡◌ {A = ℕ} 64 0) ⊎ ((k : ℕ) × (◌≡◌ {A = ℕ} 64 (2 ^ k))))
is_power2_iff_example = is_power2_iff 64 (omega arith)

init_cache-TracksAll_example : IsValid small × TracksAll (λ i. []) small.sets
unfolding init_cache is_power2 mul64 sub64
init_cache-TracksAll_example =
    init_cache-TracksAll raw back WriteMissPolicy.write_allocate 1024 64 2 (omega arith)
      (omega arith) (omega arith) refl

small-TracksAll : IsValid small × TracksAll (λ i. []) small.sets
unfolding init_cache is_power2 mul64 sub64
small-TracksAll =
    init_cache-TracksAll raw back WriteMissPolicy.write_allocate 1024 64 2 (omega arith)
      (omega arith) (omega arith) refl

lookup_evict_update-TracksAll_example :
    let (tag, i) = split_address small.line_shift small.set_index_mask 4160 in
    (c' : Cache) × (block : CacheBlock) × (s : Lru) × (lookup_evict_update no_block 4160
        AccessType.store small
      ≡ some (c', block))
    × (get_elem? small.sets i ≡ some s)
    × (c'.access ≡ count_access AccessType.store (has_tag tag s.blocks) small.access)
    × IsValid c'
    × TracksAll (note i tag (λ j. [])) c'.sets
lookup_evict_update-TracksAll_example =
    lookup_evict_update-TracksAll no_block 4160 AccessType.store small (λ j. []) small-TracksAll.0
      small-TracksAll.1 (omega arith)

set_access-IsVictim_example :
    (e : ℕ) × (e < length new_set.blocks)
    × IsVictim [] new_set.blocks e
    × ((set_access no_block true 7 448 true new_set).0.blocks
        ≡ set new_set.blocks e
            (fill_block new_set.write_policy (add64 new_set.timestamp 1) 7 448 true))
    × ((set_access no_block true 7 448 true new_set).1 ≡ false)
    × ((set_access no_block true 7 448 true new_set).2
        ≡ record (get_or new_set.blocks e no_block) { tag = 0 })
unfolding init_lru init_blocks
set_access-IsVictim_example =
    set_access-IsVictim no_block true 7 448 true new_set []
      (init_lru-Tracks (raw 0) back 2 (omega arith)) refl refl

abbrev older : CacheBlock
older = record { valid = 1; dirty = 0; tag = 9; addr = 576; timestamp = 2 }

abbrev newer : CacheBlock
newer = record { valid = 1; dirty = 1; tag = 4; addr = 256; timestamp = 5 }

evict_older : evict_index (newer ∷ older ∷ []) ≡ 1
unfolding evict_index
evict_older = refl

init_cache_small_example :
    (c : Cache) × (init_cache raw back WriteMissPolicy.write_allocate 64 64 2 ≡ some c)
    × ((junk : CacheBlock) (addr : ℕ) (type : AccessType)
        → lookup_evict_update junk addr type c ≡ none)
unfolding mul64 is_power2 sub64
init_cache_small_example =
    init_cache_small raw back WriteMissPolicy.write_allocate 64 64 2 (omega arith) refl
