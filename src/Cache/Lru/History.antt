-- ===== src/Cache/Lru/History.antt =====
-- A set of engine/ar_cache.h against the history of the tags that were looked up in it.
use siena_mem.Base.{
  ℕ, zero, suc, ◌<◌, ◌≡◌, ◌≢◌, ◌⊎◌, inr, true, false, List, [], ◌∷◌, ◌==◌, arith, length, get_or,
  set, if◌then◌else◌,
}
use siena_mem.Cache.Lru.{CacheBlock, Lru, no_block}
use siena_mem.Cache.Lru.Find.{has_tag, tag_after}

-- The time of the last use of a tag, 0 if there was none. The history is the tags accessed, the last
-- one first; the access at time `n` is the `n`-th.
unfoldable pub last_use : ℕ → List ℕ → ℕ
last_use tag [] = 0
last_use tag (t ∷ h) = if t == tag then suc (length h) else last_use tag h

-- A valid block holds the time of the last use of its tag.
abbrev pub Stamped : List ℕ → List CacheBlock → Type 0
Stamped h [] = Unit
Stamped h (b ∷ bs) = (b.valid ≢ 0 → b.timestamp ≡ last_use b.tag h) × Stamped h bs

-- Of the blocks with one tag only the last may be valid.
abbrev pub Distinct : List CacheBlock → Type 0
Distinct [] = Unit
Distinct (b ∷ bs) = (has_tag b.tag bs ≡ true → b.valid ≡ 0) × Distinct bs

pub record Tracks (h : List ℕ) (s : Lru) : Type 0 where
  pub clock : s.timestamp ≡ length h
  pub ways : length s.blocks ≡ s.associativity
  pub positive : 0 < s.associativity
  pub stamped : Stamped h s.blocks
  pub distinct : Distinct s.blocks

pub Stamped-absent :
    (t : ℕ) (h : List ℕ) (bs : List CacheBlock)
    → has_tag t bs ≡ false
    → Stamped h bs
    → Stamped (t ∷ h) bs
unfolding last_use
Stamped-absent t h [] a s = tt
Stamped-absent t h (b ∷ bs) a s =
    (λ v. ground (arith, s.0 v), Stamped-absent t h bs (ground arith) s.1)

pub has_tag_at :
    (bs : List CacheBlock) (k : ℕ) (t : ℕ)
    → k < length bs
    → (get_or bs k no_block).tag ≡ t
    → has_tag t bs ≡ true
has_tag_at [] k t h e = absurd (omega arith)
has_tag_at (b ∷ bs) zero t h e = ground arith
has_tag_at (b ∷ bs) (suc k) t h e = ground (arith, has_tag_at bs k t (omega arith) e)

pub Stamped-hit :
    (t : ℕ) (h : List ℕ) (bs : List CacheBlock) (k : ℕ) (b' : CacheBlock)
    → k < length bs
    → (get_or bs k no_block).tag ≡ t
    → tag_after t bs k ≡ false
    → b'.tag ≡ t
    → b'.timestamp ≡ suc (length h)
    → Distinct bs
    → Stamped h bs
    → Stamped (t ∷ h) (set bs k b')
unfolding last_use
Stamped-hit t h [] k b' lt e a et es d s = absurd (omega arith)
Stamped-hit t h (b ∷ bs) zero b' lt e a et es d s = (λ v. ground arith, Stamped-absent t h bs a s.1)
Stamped-hit t h (b ∷ bs) (suc k) b' lt e a et es d s = (
  λ v. ground (arith, s.0 v, has_tag_at bs k t (omega arith) e, d.0),
  Stamped-hit t h bs k b' (omega arith) e a et es d.1 s.1,
)

pub Stamped-fill :
    (t : ℕ) (h : List ℕ) (bs : List CacheBlock) (k : ℕ) (b' : CacheBlock)
    → has_tag t bs ≡ false
    → b'.tag ≡ t
    → b'.timestamp ≡ suc (length h)
    → Stamped h bs
    → Stamped (t ∷ h) (set bs k b')
unfolding last_use
Stamped-fill t h [] k b' a et es s = tt
Stamped-fill t h (b ∷ bs) zero b' a et es s =
    (λ v. ground arith, Stamped-absent t h bs (ground arith) s.1)
Stamped-fill t h (b ∷ bs) (suc k) b' a et es s =
    (λ v. ground (arith, s.0 v), Stamped-fill t h bs k b' (ground arith) et es s.1)

pub has_tag-set :
    (u : ℕ) (bs : List CacheBlock) (k : ℕ) (b' : CacheBlock)
    → has_tag u (set bs k b') ≡ true
    → (b'.tag ≡ u) ⊎ (has_tag u bs ≡ true)
has_tag-set u [] k b' h = inr h
has_tag-set u (b ∷ bs) zero b' h = ground arith
has_tag-set u (b ∷ bs) (suc k) b' h = ground (arith, has_tag-set u bs k b')

pub Distinct-hit :
    (t : ℕ) (bs : List CacheBlock) (k : ℕ) (b' : CacheBlock)
    → k < length bs
    → (get_or bs k no_block).tag ≡ t
    → tag_after t bs k ≡ false
    → b'.tag ≡ t
    → Distinct bs
    → Distinct (set bs k b')
Distinct-hit t [] k b' lt e a et d = tt
Distinct-hit t (b ∷ bs) zero b' lt e a et d = (λ h. ground arith, d.1)
Distinct-hit t (b ∷ bs) (suc k) b' lt e a et d = (
  λ h. ground (arith, has_tag-set b.tag bs k b' h, has_tag_at bs k t (omega arith) e, d.0),
  Distinct-hit t bs k b' (omega arith) e a et d.1,
)

pub Distinct-fill :
    (t : ℕ) (bs : List CacheBlock) (k : ℕ) (b' : CacheBlock)
    → has_tag t bs ≡ false
    → b'.tag ≡ t
    → Distinct bs
    → Distinct (set bs k b')
Distinct-fill t [] k b' a et d = tt
Distinct-fill t (b ∷ bs) zero b' a et d = (λ h. ground arith, d.1)
Distinct-fill t (b ∷ bs) (suc k) b' a et d = (
  λ h. ground (arith, has_tag-set b.tag bs k b' h, d.0),
  Distinct-fill t bs k b' (ground arith) et d.1,
)
