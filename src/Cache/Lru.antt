-- ===== src/Cache/Lru.antt =====
-- One set of engine/ar_cache.h: CACHEBLOCK, CACHELOOKUP and the class CACHE_SET::LRU.
-- The blocks that `new CACHEBLOCK[associativity]` leaves uninitialised are the argument `raw`.
pub mod Find
pub mod Evict
pub mod History
use siena_mem.Base.{
  ℕ, zero, suc, ◌+◌, Bool, true, false, ◌&&◌, Option, none, some, List, [], ◌∷◌, ltb, ◌==◌,
  if◌then◌else◌, get_or, set, add64,
}

pub data WritePolicy : Type 0 where
  write_back write_through : WritePolicy

pub data WriteMissPolicy : Type 0 where
  write_allocate no_write_allocate : WriteMissPolicy

pub record CacheBlock : Type 0 where
  pub valid : ℕ
  pub dirty : ℕ
  pub tag : ℕ
  pub addr : ℕ
  pub timestamp : ℕ

pub data CacheLookup : Type 0 where
  hit_valid hit_invalid miss : CacheLookup

-- The class LRU; `_write_policy` is its template argument.
pub record Lru : Type 0 where
  pub associativity : ℕ
  pub blocks : List CacheBlock
  pub timestamp : ℕ
  pub write_policy : WritePolicy

-- The loop of the constructor: `raw i` is what the allocation holds in block `i`.
unfoldable pub init_blocks : (ℕ → CacheBlock) → ℕ → ℕ → List CacheBlock
init_blocks raw zero i = []
init_blocks raw (suc n) i =
    record (raw i) { valid = 0; dirty = 0; tag = 0 } ∷ init_blocks raw n (i + 1)

unfoldable pub init_lru : (ℕ → CacheBlock) → WritePolicy → ℕ → Lru
unfolding init_blocks
init_lru raw policy associativity = record {
  associativity = associativity;
  blocks = init_blocks raw associativity 0;
  timestamp = 0;
  write_policy = policy;
}

-- The loop of Find_and_Update: it has no `break`, so the last block with the tag is found.
unfoldable pub find_index : ℕ → List CacheBlock → ℕ → Option ℕ → Option ℕ
find_index tag [] i found = found
find_index tag (b ∷ bs) i found = find_index tag bs (i + 1) (if b.tag == tag then some i else found)

-- What a hit writes into the block that was found.
unfoldable pub touch_block : WritePolicy → ℕ → Bool → CacheBlock → CacheBlock
touch_block policy now false b = record b { timestamp = now }
touch_block write_back now true b = record b { timestamp = now; valid = 1; dirty = 1 }
touch_block write_through now true b = record b { timestamp = now; valid = 1; dirty = 0 }

unfoldable pub hit_result : Bool → CacheBlock → CacheLookup
hit_result true b = hit_valid
hit_result false b = if b.valid == 1 then hit_valid else hit_invalid

-- A block that is read only where `find_index` found one.
abbrev pub no_block : CacheBlock
no_block = record { valid = 0; dirty = 0; tag = 0; addr = 0; timestamp = 0 }

unfoldable pub find_and_update : ℕ → Bool → Lru → Lru × CacheLookup
unfolding find_index touch_block hit_result
find_and_update tag is_write s =
    let now = add64 s.timestamp 1 in
    elim (find_index tag s.blocks 0 none) [
      | none ↦ (record s { timestamp = now }, miss)
      | some i ↦
          let b = get_or s.blocks i no_block in
          (
            record s {
              timestamp = now;
              blocks = set s.blocks i (touch_block s.write_policy now is_write b);
            },
            hit_result is_write b,
          )
    ]

-- The loop of Evict_and_Update: it breaks at the first invalid block.
unfoldable pub evict_scan : List CacheBlock → ℕ → ℕ → ℕ → ℕ
evict_scan [] i min_time oldest = oldest
evict_scan (b ∷ bs) i min_time oldest =
    if b.valid == 0
    then i
    else evict_scan bs (i + 1) (if ltb b.timestamp min_time then b.timestamp else min_time)
        (if ltb b.timestamp min_time then i else oldest)

unfoldable pub evict_index : List CacheBlock → ℕ
unfolding evict_scan
evict_index bs = evict_scan bs 0 (get_or bs 0 no_block).timestamp 0

unfoldable pub fill_block : WritePolicy → ℕ → ℕ → ℕ → Bool → CacheBlock
fill_block policy now tag new_addr is_write = record {
  valid = 1;
  dirty = elim policy [ write_back ↦ (if is_write then 1 else 0) | write_through ↦ 0 ];
  tag = tag;
  addr = new_addr;
  timestamp = now;
}

-- Returns the set and a copy of the block that was evicted.
unfoldable pub evict_and_update : ℕ → ℕ → Bool → Lru → Lru × CacheBlock
unfolding evict_index fill_block
evict_and_update tag new_addr is_write s =
    let e = evict_index s.blocks in
    (
      record s {
        blocks = set s.blocks e (fill_block s.write_policy s.timestamp tag new_addr is_write);
      },
      get_or s.blocks e no_block,
    )

-- GetDirtyCacheline
unfoldable pub dirty_lines : List CacheBlock → List CacheBlock
dirty_lines [] = []
dirty_lines (b ∷ bs) = if b.valid == 1 && b.dirty == 1 then b ∷ dirty_lines bs else dirty_lines bs
