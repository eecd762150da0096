-- ===== src/Cache/Array/Victim.antt =====
-- Which block of a set a missing lookup replaces, and what it returns.
use mathlib.Core.Path.{subst}
use siena_mem.Base.{
  ℕ, zero, suc, ◌≤◌, ◌<◌, ◌≡◌, ◌⊎◌, inl, inr, ap, Bool, true, false, not, ◌||◌, List, [], ◌∷◌,
  arith, length, get_or, set, add64,
}
use siena_mem.Cache.Lru.{CacheBlock, miss, Lru, no_block, evict_index, fill_block, evict_and_update}
use siena_mem.Cache.Lru.Find.{has_tag}
use siena_mem.Cache.Lru.Evict.{
  AllValid, NoneOlder, FirstInvalid, evict_index_choice, FirstInvalid-bound,
}
use siena_mem.Cache.Lru.History.{last_use, Stamped, Tracks}
use siena_mem.Cache.Array.{evict_step, set_access}
use siena_mem.Cache.Array.Recency.{set_access-miss}

-- No block's tag was last used before time `u`.
abbrev pub NoneUsedBefore : ℕ → List ℕ → List CacheBlock → Type 0
NoneUsedBefore u h [] = Unit
NoneUsedBefore u h (b ∷ bs) = (u ≤ last_use b.tag h) × NoneUsedBefore u h bs

-- The block that is replaced: the first invalid one, or in a full set a least recently used one.
abbrev pub IsVictim : List ℕ → List CacheBlock → ℕ → Type 0
IsVictim h bs e =
    FirstInvalid bs e ⊎ (AllValid bs × NoneUsedBefore (last_use (get_or bs e no_block).tag h) h bs)

stamp_of :
    (h : List ℕ) (bs : List CacheBlock) (k : ℕ)
    → k < length bs
    → AllValid bs
    → Stamped h bs
    → (get_or bs k no_block).timestamp ≡ last_use (get_or bs k no_block).tag h
stamp_of h [] k lt v s = absurd (omega arith)
stamp_of h (b ∷ bs) zero lt v s = s.0 v.0
stamp_of h (b ∷ bs) (suc k) lt v s = stamp_of h bs k (omega arith) v.1 s.1

used_of_older :
    (u : ℕ) (h : List ℕ) (bs : List CacheBlock)
    → AllValid bs
    → Stamped h bs
    → NoneOlder u bs
    → NoneUsedBefore u h bs
used_of_older u h [] v s o = tt
used_of_older u h (b ∷ bs) v s o = (omega (arith, s.0 v.0), used_of_older u h bs v.1 s.1 o.1)

evict_index-IsVictim :
    (h : List ℕ) (bs : List CacheBlock)
    → 0 < length bs
    → Stamped h bs
    → (evict_index bs < length bs) × IsVictim h bs (evict_index bs)
evict_index-IsVictim h [] pos s = absurd (omega arith)
evict_index-IsVictim h (b ∷ bs) pos s = elim (evict_index_choice b bs) [
  | inl free ↦ (FirstInvalid-bound (b ∷ bs) _ free, inl free)
  | inr (all, lt, older) ↦ (
    lt,
    inr (
      all,
      subst (λ u. NoneUsedBefore u h (b ∷ bs)) (stamp_of h (b ∷ bs) _ lt all s)
          (used_of_older _ h (b ∷ bs) all s older),
    ),
  )
]

evict_step-fills :
    (junk : CacheBlock) (allocate : Bool) (t addr : ℕ) (w : Bool) (s : Lru)
    → (not w || allocate) ≡ true
    → evict_step junk allocate t addr w s miss ≡ (
      record s {
        blocks =
            set s.blocks (evict_index s.blocks) (fill_block s.write_policy s.timestamp t addr w);
      },
      record (get_or s.blocks (evict_index s.blocks) no_block) { tag = 0 },
    )
unfolding evict_step evict_and_update
evict_step-fills junk allocate t addr w s fill = rw fill

-- A lookup that misses and may allocate puts the new line in place of the first invalid block, or,
-- if every block is valid, of a block whose tag was looked up least recently; the other blocks stay,
-- and the replaced block is returned, its tag set to 0.
pub set_access-IsVictim :
    (junk : CacheBlock) (allocate : Bool) (t addr : ℕ) (w : Bool) (s : Lru) (h : List ℕ)
    → Tracks h s
    → has_tag t s.blocks ≡ false
    → (not w || allocate) ≡ true
    → (e : ℕ) × (e < length s.blocks)
      × IsVictim h s.blocks e
      × ((set_access junk allocate t addr w s).0.blocks
          ≡ set s.blocks e (fill_block s.write_policy (add64 s.timestamp 1) t addr w))
      × ((set_access junk allocate t addr w s).1 ≡ false)
      × ((set_access junk allocate t addr w s).2 ≡ record (get_or s.blocks e no_block) { tag = 0 })
set_access-IsVictim junk allocate t addr w s h v absent fill =
    let step =
      evict_step-fills junk allocate t addr w (record s { timestamp = add64 s.timestamp 1 }) fill in
    let (lt, victim) =
      evict_index-IsVictim h s.blocks (omega (arith, v.ways, v.positive)) v.stamped in
    (
      evict_index s.blocks,
      lt,
      victim,
      rw (set_access-miss junk allocate t addr w s absent) (ap (λ r. r.0.blocks) step),
      ap (λ r. r.1) (set_access-miss junk allocate t addr w s absent),
      rw (set_access-miss junk allocate t addr w s absent) (ap (λ r. r.1) step),
    )
