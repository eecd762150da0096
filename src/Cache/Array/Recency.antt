-- ===== src/Cache/Array/Recency.antt =====
-- One set under lookup_evict_update, against the history of the tags that were looked up in it.
use mathlib.Core.Path.{subst}
use native.Mathlib.Nat.{zero-add}
use siena_mem.Base.{
  ℕ, zero, suc, ◌+◌, ◌<◌, ◌≡◌, ◌⊎◌, inl, inr, refl, sym, ◌∙◌, ap, Bool, true, false, not, ◌||◌,
  none, some, List, [], ◌∷◌, arith, length, length-set, get_or, set, Bool-cases, word, add64,
  add64-eq,
}
use siena_mem.Cache.Lru.{
  CacheBlock, hit_valid, hit_invalid, miss, Lru, no_block, WritePolicy, write_back, write_through,
  touch_block, hit_result, find_and_update, evict_index, evict_and_update, init_blocks, init_lru,
}
use siena_mem.Cache.Lru.Find.{has_tag, tag_after, find_index-none, find_index-some}
use siena_mem.Cache.Lru.History.{
  Stamped, Distinct, Tracks, Stamped-absent, Stamped-hit, Stamped-fill, Distinct-hit, Distinct-fill,
}
use siena_mem.Cache.Array.{evict_step, set_access}

-- Where the block that a lookup finds stands.
abbrev FoundAt : ℕ → List CacheBlock → ℕ → Type 0
FoundAt t bs k = (k < length bs) × ((get_or bs k no_block).tag ≡ t) × (tag_after t bs k ≡ false)

-- The set after a hit on block `k`.
abbrev after_hit : Lru → ℕ → Bool → Lru
after_hit s k is_write = record s {
  timestamp = add64 s.timestamp 1;
  blocks =
      set s.blocks k
        (touch_block s.write_policy (add64 s.timestamp 1) is_write (get_or s.blocks k no_block));
}

find_and_update-miss :
    (t : ℕ) (w : Bool) (s : Lru)
    → has_tag t s.blocks ≡ false
    → find_and_update t w s ≡ (record s { timestamp = add64 s.timestamp 1 }, miss)
unfolding find_and_update
find_and_update-miss t w s a = rw (find_index-none t s.blocks 0 a, find_and_update)

find_and_update-hit :
    (t : ℕ) (w : Bool) (s : Lru)
    → has_tag t s.blocks ≡ true
    → (k : ℕ) × FoundAt t s.blocks k
      × (find_and_update t w s ≡ (after_hit s k w, hit_result w (get_or s.blocks k no_block)))
unfolding find_and_update
find_and_update-hit t w s a =
    let (k, e, lt, et, after) = find_index-some t s.blocks 0 none a in
    (k, (lt, et, after), rw (e ∙ ap some (zero-add k), find_and_update))

touch_block-tag :
    (p : WritePolicy) (now : ℕ) (w : Bool) (b : CacheBlock) → (touch_block p now w b).tag ≡ b.tag
unfolding touch_block
touch_block-tag p now false b = refl
touch_block-tag write_back now true b = refl
touch_block-tag write_through now true b = refl

touch_block-timestamp :
    (p : WritePolicy) (now : ℕ) (w : Bool) (b : CacheBlock)
    → (touch_block p now w b).timestamp ≡ now
unfolding touch_block
touch_block-timestamp p now false b = refl
touch_block-timestamp write_back now true b = refl
touch_block-timestamp write_through now true b = refl

after_hit-Tracks :
    (t : ℕ) (w : Bool) (s : Lru) (h : List ℕ) (k : ℕ)
    → length h + 1 < word
    → FoundAt t s.blocks k
    → Tracks h s
    → Tracks (t ∷ h) (after_hit s k w)
after_hit-Tracks t w s h k small (lt, et, after) v =
    let b = get_or s.blocks k no_block in
    let now : add64 s.timestamp 1 ≡ suc (length h) =
      omega (arith, add64-eq s.timestamp 1 (omega (arith, v.clock)), v.clock) in
    let tag = touch_block-tag s.write_policy (add64 s.timestamp 1) w b ∙ et in
    record {
      clock = now;
      ways = length-set s.blocks k _ ∙ v.ways;
      positive = v.positive;
      stamped =
          Stamped-hit t h s.blocks k _ lt et after tag
            (touch_block-timestamp s.write_policy _ w b ∙ now) v.distinct v.stamped;
      distinct = Distinct-hit t s.blocks k _ lt et after tag v.distinct;
    }

after_miss-Tracks :
    (t : ℕ) (s : Lru) (h : List ℕ)
    → length h + 1 < word
    → has_tag t s.blocks ≡ false
    → Tracks h s
    → Tracks (t ∷ h) (record s { timestamp = add64 s.timestamp 1 })
after_miss-Tracks t s h small a v = record {
  clock = omega (arith, add64-eq s.timestamp 1 (omega (arith, v.clock)), v.clock);
  ways = v.ways;
  positive = v.positive;
  stamped = Stamped-absent t h s.blocks a v.stamped;
  distinct = v.distinct;
}

after_evict-Tracks :
    (t addr : ℕ) (w : Bool) (s : Lru) (h : List ℕ)
    → length h + 1 < word
    → has_tag t s.blocks ≡ false
    → Tracks h s
    → Tracks (t ∷ h) (evict_and_update t addr w (record s { timestamp = add64 s.timestamp 1 })).0
unfolding evict_and_update
after_evict-Tracks t addr w s h small a v =
    let now : add64 s.timestamp 1 ≡ suc (length h) =
      omega (arith, add64-eq s.timestamp 1 (omega (arith, v.clock)), v.clock) in
    record {
      clock = now;
      ways = length-set s.blocks (evict_index s.blocks) _ ∙ v.ways;
      positive = v.positive;
      stamped = Stamped-fill t h s.blocks (evict_index s.blocks) _ a refl now v.stamped;
      distinct = Distinct-fill t s.blocks (evict_index s.blocks) _ a refl v.distinct;
    }

evict_step-Tracks :
    (junk : CacheBlock) (allocate : Bool) (t addr : ℕ) (w : Bool) (s : Lru) (h : List ℕ)
    → length h + 1 < word
    → has_tag t s.blocks ≡ false
    → Tracks h s
    → Tracks
        (t ∷ h)
        (evict_step junk allocate t addr w (record s { timestamp = add64 s.timestamp 1 }) miss).0
unfolding evict_step
evict_step-Tracks junk allocate t addr w s h small a v = elim (Bool-cases (not w || allocate)) [
  | inl fill ↦ rw fill (after_evict-Tracks t addr w s h small a v)
  | inr skip ↦ rw skip (after_miss-Tracks t s h small a v)
]

hit_result-found :
    (w : Bool) (b : CacheBlock) → (hit_result w b ≡ hit_valid) ⊎ (hit_result w b ≡ hit_invalid)
unfolding hit_result
hit_result-found true b = inl refl
hit_result-found false b = ground arith

module _ (junk : CacheBlock) (allocate : Bool) (t addr : ℕ) (w : Bool) (s : Lru) where
  -- The result of a lookup that finds the tag, and of one that does not.
  pub set_access-hit :
      has_tag t s.blocks ≡ true
      → (k : ℕ) × FoundAt t s.blocks k
        × ((set_access junk allocate t addr w s).0 ≡ after_hit s k w)
        × ((set_access junk allocate t addr w s).1 ≡ true)
        × ((set_access junk allocate t addr w s).2.tag ≡ 1)
  unfolding set_access
  set_access-hit a =
      let (k, at, e) = find_and_update-hit t w s a in
      let found = hit_result-found w (get_or s.blocks k no_block) in
      (k, at, ground (arith, e, found), ground (arith, e, found), ground (arith, e, found))

  pub set_access-miss :
      has_tag t s.blocks ≡ false
      → set_access junk allocate t addr w s ≡ (
          let (s', block) =
            evict_step junk allocate t addr w (record s { timestamp = add64 s.timestamp 1 }) miss in
          (s', false, block))
  unfolding set_access
  set_access-miss a = rw (find_and_update-miss t w s a)

  -- A lookup hits exactly where some block carries the tag.
  pub set_access-outcome : (set_access junk allocate t addr w s).1 ≡ has_tag t s.blocks
  set_access-outcome = elim (Bool-cases (has_tag t s.blocks)) [
    | inl old ↦ let (_, _, _, hit, _) = set_access-hit old in hit ∙ sym old
    | inr new ↦ rw (set_access-miss new) (sym new)
  ]

  -- A lookup carries the history on.
  pub set_access-Tracks :
      (h : List ℕ)
      → length h + 1 < word
      → Tracks h s
      → Tracks (t ∷ h) (set_access junk allocate t addr w s).0
  set_access-Tracks h small v = elim (Bool-cases (has_tag t s.blocks)) [
    | inl old ↦
        let (k, at, e, _, _) = set_access-hit old in
        subst (Tracks (t ∷ h)) (sym e) (after_hit-Tracks t w s h k small at v)
    | inr new ↦ rw (set_access-miss new) (evict_step-Tracks junk allocate t addr w s h small new v)
  ]

-- Every lookup of a history, the last one first, in a set that is new.
unfoldable pub run_set : CacheBlock → Bool → List (ℕ × ℕ × Bool) → Lru → Lru
run_set junk allocate [] s = s
run_set junk allocate ((t, addr, w) ∷ calls) s =
    (set_access junk allocate t addr w (run_set junk allocate calls s)).0

abbrev pub tags : List (ℕ × ℕ × Bool) → List ℕ
tags [] = []
tags ((t, addr, w) ∷ calls) = t ∷ tags calls

init_blocks-facts :
    (raw : ℕ → CacheBlock) (n i : ℕ)
    → (length (init_blocks raw n i) ≡ n)
      × Stamped [] (init_blocks raw n i)
      × Distinct (init_blocks raw n i)
unfolding init_blocks
init_blocks-facts raw zero i = (refl, tt, tt)
init_blocks-facts raw (suc n) i =
    let (l, s, d) = init_blocks-facts raw n (i + 1) in
    (ap suc l, ((λ v. absurd (v refl)), s), ((λ h. refl), d))

pub init_lru-Tracks :
    (raw : ℕ → CacheBlock) (p : WritePolicy) (n : ℕ) → 0 < n → Tracks [] (init_lru raw p n)
unfolding init_lru
init_lru-Tracks raw p n pos =
    let (l, s, d) = init_blocks-facts raw n 0 in
    record { clock = refl; ways = l; positive = pos; stamped = s; distinct = d }

-- After any sequence of lookups in a new set, shorter than 2 ^ 64, the timestamps of the valid blocks
-- are the times at which their tags were last looked up, and no two valid blocks share a tag.
pub run_set-Tracks :
    (junk : CacheBlock) (allocate : Bool) (raw : ℕ → CacheBlock) (p : WritePolicy) (n : ℕ)
    (calls : List (ℕ × ℕ × Bool))
    → 0 < n
    → length (tags calls) < word
    → Tracks (tags calls) (run_set junk allocate calls (init_lru raw p n))
unfolding run_set
run_set-Tracks junk allocate raw p n [] pos small = init_lru-Tracks raw p n pos
run_set-Tracks junk allocate raw p n ((t, addr, w) ∷ calls) pos small =
    set_access-Tracks junk allocate t addr w _ (tags calls) (omega arith)
      (run_set-Tracks junk allocate raw p n calls pos (omega arith))
