-- ===== src/Cache/Lru/Find.antt =====
-- What the search of Find_and_Update finds.
use siena_mem.Base.{
  ℕ, zero, suc, ◌+◌, ◌<◌, ◌≡◌, inl, inr, refl, Bool, true, false, Option, none, some, List, [], ◌∷◌,
  ◌==◌, arith, length, get_or, Bool-cases, if◌then◌else◌,
}
use siena_mem.Cache.Lru.{CacheBlock, no_block, find_index}

-- Some block carries the tag, valid or not.
abbrev pub has_tag : ℕ → List CacheBlock → Bool
has_tag tag [] = false
has_tag tag (b ∷ bs) = if b.tag == tag then true else has_tag tag bs

pub find_index-none :
    (tag : ℕ) (bs : List CacheBlock) (i : ℕ)
    → has_tag tag bs ≡ false
    → find_index tag bs i none ≡ none
unfolding find_index
find_index-none tag [] i h = refl
find_index-none tag (b ∷ bs) i h = ground (arith, find_index-none tag bs (i + 1))

-- Without the tag the search keeps what it had.
pub find_index_absent :
    (tag : ℕ) (bs : List CacheBlock) (i : ℕ) (o : Option ℕ)
    → has_tag tag bs ≡ false
    → find_index tag bs i o ≡ o
unfolding find_index
find_index_absent tag [] i o h = refl
find_index_absent tag (b ∷ bs) i o h = ground (arith, find_index_absent tag bs (i + 1) o)

-- Blocks from `k` on that carry the tag.
abbrev pub tag_after : ℕ → List CacheBlock → ℕ → Bool
tag_after tag [] k = false
tag_after tag (b ∷ bs) zero = has_tag tag bs
tag_after tag (b ∷ bs) (suc k) = tag_after tag bs k

-- With the tag it finds the last block that carries it.
pub find_index-some :
    (tag : ℕ) (bs : List CacheBlock) (i : ℕ) (o : Option ℕ)
    → has_tag tag bs ≡ true
    → (k : ℕ) × (find_index tag bs i o ≡ some (i + k))
      × (k < length bs)
      × ((get_or bs k no_block).tag ≡ tag)
      × (tag_after tag bs k ≡ false)
unfolding find_index
find_index-some tag [] i o h = absurd (ground arith)
find_index-some tag (b ∷ bs) i o h = elim (Bool-cases (has_tag tag bs)) [
  | inl later ↦
      let (k, e, lt, t, a) =
        find_index-some tag bs (i + 1) (if b.tag == tag then some i else o) later in
      (suc k, ground (arith, e), omega arith, t, a)
  | inr last ↦ (
    0,
    ground (arith, find_index_absent tag bs (i + 1) (some i) last),
    omega arith,
    ground arith,
    last,
  )
]
