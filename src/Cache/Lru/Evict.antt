-- ===== src/Cache/Lru/Evict.antt =====
-- Which block Evict_and_Update chooses.
use siena_mem.Base.{
  ℕ, zero, suc, ◌+◌, ◌≤◌, ◌<◌, ◌≡◌, ◌≢◌, ◌⊎◌, inl, inr, refl, sym, ◌∙◌, List, [], ◌∷◌, ltb, ◌==◌,
  arith, length, get_or, Bool-cases, ltb→lt, ltb→le, ne→==,
}
use siena_mem.Cache.Lru.{CacheBlock, no_block, evict_scan, evict_index}
use native.Mathlib.Nat.{zero-add}
use mathlib.Core.Path.{subst}

abbrev pub AllValid : List CacheBlock → Type 0
AllValid [] = Unit
AllValid (b ∷ bs) = (b.valid ≢ 0) × AllValid bs

-- No block was used before time `t`.
abbrev pub NoneOlder : ℕ → List CacheBlock → Type 0
NoneOlder t [] = Unit
NoneOlder t (b ∷ bs) = (t ≤ b.timestamp) × NoneOlder t bs

-- Block `k` is invalid, and those before it are valid.
abbrev pub FirstInvalid : List CacheBlock → ℕ → Type 0
FirstInvalid [] k = ⊥
FirstInvalid (b ∷ bs) zero = b.valid ≡ 0
FirstInvalid (b ∷ bs) (suc k) = (b.valid ≢ 0) × FirstInvalid bs k

pub NoneOlder-le : (bs : List CacheBlock) (t u : ℕ) → u ≤ t → NoneOlder t bs → NoneOlder u bs
NoneOlder-le [] t u h o = tt
NoneOlder-le (b ∷ bs) t u h o = (omega arith, NoneOlder-le bs t u h o.1)

pub valid-cases : (bs : List CacheBlock) → AllValid bs ⊎ ((k : ℕ) × FirstInvalid bs k)
valid-cases [] = inl tt
valid-cases (b ∷ bs) = elim (Bool-cases (b.valid == 0)) [
  | inl free ↦ inr (0, ground arith)
  | inr used ↦ elim (valid-cases bs) [
    | inl all ↦ inl (ground arith, all)
    | inr (k, f) ↦ inr (suc k, (ground arith, f))
  ]
]

pub FirstInvalid-bound : (bs : List CacheBlock) (k : ℕ) → FirstInvalid bs k → k < length bs
FirstInvalid-bound [] k f = absurd f
FirstInvalid-bound (b ∷ bs) zero f = omega arith
FirstInvalid-bound (b ∷ bs) (suc k) f = omega (arith, FirstInvalid-bound bs k f.1)

evict_scan_free :
    (bs : List CacheBlock) (i m o k : ℕ) → FirstInvalid bs k → evict_scan bs i m o ≡ i + k
unfolding evict_scan
evict_scan_free [] i m o k f = absurd f
evict_scan_free (b ∷ bs) i m o zero f = ground arith
evict_scan_free (b ∷ bs) i m o (suc k) f = elim (Bool-cases (ltb b.timestamp m)) [
  | inl older ↦ ground (arith, evict_scan_free bs (i + 1) b.timestamp i k f.1)
  | inr newer ↦ ground (arith, evict_scan_free bs (i + 1) m o k f.1)
]

abbrev Scanned : List CacheBlock → ℕ → ℕ → ℕ → ℕ → Type 0
Scanned bs i m o r =
    ((r ≡ o) × NoneOlder m bs)
    ⊎ ((k : ℕ) × (r ≡ i + k)
        × (k < length bs)
        × ((get_or bs k no_block).timestamp < m)
        × NoneOlder (get_or bs k no_block).timestamp bs)

evict_scan_full :
    (bs : List CacheBlock) (i m o : ℕ) → AllValid bs → Scanned bs i m o (evict_scan bs i m o)
unfolding evict_scan
evict_scan_full [] i m o v = inl (refl, tt)
evict_scan_full (b ∷ bs) i m o v = elim (Bool-cases (ltb b.timestamp m)) [
  | inl older ↦
      rw (ne→== b.valid 0 v.0, older)
        (elim (evict_scan_full bs (i + 1) b.timestamp i v.1) [
          | inl (e, none_older) ↦
              inr (0, omega (arith, e), omega arith, ltb→lt _ _ older, (omega arith, none_older))
          | inr (k, e, lt, t, none_older) ↦ inr (
            suc k,
            omega (arith, e),
            omega arith,
            omega (arith, ltb→lt _ _ older),
            (omega arith, none_older),
          )
        ])
  | inr newer ↦
      rw (ne→== b.valid 0 v.0, newer)
        (elim (evict_scan_full bs (i + 1) m o v.1) [
          | inl (e, none_older) ↦ inl (e, (ltb→le _ _ newer, none_older))
          | inr (k, e, lt, t, none_older) ↦ inr (
            suc k,
            omega (arith, e),
            omega arith,
            t,
            (omega (arith, ltb→le _ _ newer), none_older),
          )
        ])
]

-- The block that is evicted is the first invalid one if there is one, and otherwise one whose
-- timestamp is not above that of any block.
pub evict_index_choice :
    (b : CacheBlock) (bs : List CacheBlock)
    → FirstInvalid (b ∷ bs) (evict_index (b ∷ bs))
      ⊎ (AllValid (b ∷ bs)
          × (evict_index (b ∷ bs) < length (b ∷ bs))
          × NoneOlder (get_or (b ∷ bs) (evict_index (b ∷ bs)) no_block).timestamp (b ∷ bs))
unfolding evict_index
evict_index_choice b bs = elim (valid-cases (b ∷ bs)) [
  | inr (k, f) ↦ inl (rw (evict_scan_free (b ∷ bs) 0 b.timestamp 0 k f, zero-add) f)
  | inl all ↦ elim (evict_scan_full (b ∷ bs) 0 b.timestamp 0 all) [
    | inl (e, none_older) ↦ inr (all, omega (arith, e), subst oldest (sym e) none_older)
    | inr (k, e, lt, t, none_older) ↦
        inr (all, omega (arith, e), subst oldest (sym (e ∙ zero-add k)) none_older)
  ]
]
  where
    oldest : ℕ → Type 0
    oldest r = NoneOlder (get_or (b ∷ bs) r no_block).timestamp (b ∷ bs)
