-- ===== src/Cache/Array/Valid.antt =====
-- The whole array of engine/ar_cache.h: its well-formedness, the constructor and the lookup of an address.
use Prim.Native.Nat.{bit_and}
use native.Mathlib.Nat.{
  one-le-pow, mod-lt, div-le_self, div-eq_of_lt, le-div_iff_mul-le, lt_of_le_of_lt,
}
use mathlib.Core.Path.{subst}
use siena_mem.Base.Bits.{bit_and-mask}
use siena_mem.Base.{
  ℕ, zero, suc, ◌+◌, ◌-◌, ◌/◌, ◌^◌, ◌≤◌, ◌<◌, ◌≡◌, ◌≢◌, ◌⊎◌, inl, inr, refl, sym, ap, ◌∙◌, true,
  Option, none, some, List, [], ◌∷◌, ◌==◌, arith, length, length-set, get_elem?, get_elem?-of_lt,
  set, word, sub64-eq, mul64, if◌then◌else◌, ne→==, eq→==,
}
use siena_mem.Cache.Geometry.{is_power2, split_address}
use siena_mem.Cache.Geometry.Log.{is_power2_iff}
use siena_mem.Cache.Lru.{CacheBlock, Lru, WritePolicy, WriteMissPolicy}
use siena_mem.Cache.Lru.Find.{has_tag}
use siena_mem.Cache.Lru.History.{Tracks}
use siena_mem.Cache.Array.Recency.{init_lru-Tracks, set_access-outcome, set_access-Tracks}
use siena_mem.Cache.Array.{
  AccessType, Cache, count_access, init_sets, new_cache, init_cache, is_store, set_access,
  lookup_evict_update,
}

-- The number of sets is a power of two and the mask selects one of them.
pub record IsValid (c : Cache) : Type 0 where
  pub sets_bits : ℕ
  pub power : c.num_sets ≡ 2 ^ sets_bits
  pub mask : c.set_index_mask ≡ 2 ^ sets_bits - 1
  pub all_sets : length c.sets ≡ c.num_sets

length-init_sets :
    (raw : ℕ → ℕ → CacheBlock) (p : WritePolicy) (ways n i : ℕ)
    → length (init_sets raw p ways n i) ≡ n
unfolding init_sets
length-init_sets raw p ways zero i = refl
length-init_sets raw p ways (suc n) i = ap suc (length-init_sets raw p ways n (i + 1))

module _ (raw : ℕ → ℕ → CacheBlock) (p : WritePolicy) (m : WriteMissPolicy)
    (size line ways : ℕ) where
  init_cache-accepts :
      {c : Cache}
      → init_cache raw p m size line ways ≡ some c
      → (mul64 ways line ≢ 0)
        × (is_power2 (size / mul64 ways line) ≡ true)
        × (c ≡ new_cache raw p m size line ways)
  unfolding init_cache
  init_cache-accepts e = ground (arith, e)

  new_cache-IsValid :
      (k : ℕ)
      → size / mul64 ways line ≡ 2 ^ k
      → size < word
      → IsValid (new_cache raw p m size line ways)
  unfolding new_cache
  new_cache-IsValid k e small = record {
    sets_bits = k;
    power = e;
    mask = rw e (
        sub64-eq (2 ^ k) 1 (one-le-pow k 2 (omega arith))
          (omega (arith, e, div-le_self size (mul64 ways line))));
    all_sets = length-init_sets raw p ways (size / mul64 ways line) 0;
  }

  -- Whatever the constructor accepts is well formed, if the cache holds one row of blocks at least.
  pub init_cache-IsValid :
      {c : Cache}
      → size < word
      → mul64 ways line ≤ size
      → init_cache raw p m size line ways ≡ some c
      → IsValid c
  init_cache-IsValid small fits e =
      let (row, two, same) = init_cache-accepts e in
      let pos : 0 < size / mul64 ways line =
        (le-div_iff_mul-le {x = 1} (omega arith)).1 (omega (arith, fits)) in
      let num_small = lt_of_le_of_lt (div-le_self size (mul64 ways line)) small in
      elim ((is_power2_iff (size / mul64 ways line) num_small).0 two) [
        | inl zero_sets ↦ absurd (omega arith)
        | inr (k, pow) ↦ subst IsValid (sym same) (new_cache-IsValid k pow small)
      ]

pub set_index-lt :
    (c : Cache) (addr : ℕ)
    → IsValid c
    → (split_address c.line_shift c.set_index_mask addr).1 < length c.sets
unfolding split_address
set_index-lt c addr v = omega (
  arith,
  ap (bit_and (addr / 2 ^ c.line_shift)) v.mask,
  bit_and-mask v.sets_bits (addr / 2 ^ c.line_shift),
  mod-lt (addr / 2 ^ c.line_shift) (one-le-pow v.sets_bits 2 (omega arith)),
  v.power,
  v.all_sets,
)

-- A lookup of any address is total on a well-formed array: it replaces the set that the address
-- selects by that set after the access, and counts the access by type and outcome.
pub lookup_evict_update-set :
    (junk : CacheBlock) (addr : ℕ) (type : AccessType) (c : Cache)
    → IsValid c
    → (s : Lru) × (let (tag, i) = split_address c.line_shift c.set_index_mask addr in
        let (s', hit, block) = set_access junk c.is_write_allocate tag addr (is_store type) s in
        (get_elem? c.sets i ≡ some s)
        × (lookup_evict_update junk addr type c
            ≡ some (
              record c { access = count_access type hit c.access; sets = set c.sets i s' },
              block,
            )))
unfolding lookup_evict_update
lookup_evict_update-set junk addr type c v =
    let i = (split_address c.line_shift c.set_index_mask addr).1 in
    let (s, found) = get_elem?-of_lt c.sets i (set_index-lt c addr v) in
    (s, (found, rw (found, lookup_evict_update)))

some_pair :
    (c c' : Cache) (b b' : CacheBlock)
    → ◌≡◌ {A = Option (Cache × CacheBlock)} (some (c, b)) (some (c', b'))
    → c ≡ c'
some_pair c c' b b' e = cc

pub lookup_evict_update-IsValid :
    (junk : CacheBlock) (addr : ℕ) (type : AccessType) (c c' : Cache) (b : CacheBlock)
    → IsValid c
    → lookup_evict_update junk addr type c ≡ some (c', b)
    → IsValid c'
lookup_evict_update-IsValid junk addr type c c' b v e =
    let (s, (found, done)) = lookup_evict_update-set junk addr type c v in
    subst IsValid (some_pair _ _ _ _ (sym done ∙ e)) (record {
      sets_bits = v.sets_bits;
      power = v.power;
      mask = v.mask;
      all_sets = length-set c.sets _ _ ∙ v.all_sets;
    })

-- The histories of the sets after one more lookup of `tag` in set `i`.
abbrev pub note : ℕ → ℕ → (ℕ → List ℕ) → ℕ → List ℕ
note i tag hist j = if i == j then tag ∷ hist j else hist j

-- Each set tracks its own history.
abbrev pub TracksAll : (ℕ → List ℕ) → List Lru → Type 0
TracksAll hist sets = (j : ℕ) (s : Lru) → get_elem? sets j ≡ some s → Tracks (hist j) s

get_elem?-set_cases :
    (xs : List Lru) (i j : ℕ) (v s : Lru)
    → get_elem? (set xs i v) j ≡ some s
    → ((i ≡ j) × (v ≡ s)) ⊎ ((i ≢ j) × (get_elem? xs j ≡ some s))
get_elem?-set_cases [] i j v s e = absurd (cc)
get_elem?-set_cases (x ∷ xs) zero zero v s e = inl (refl, cc)
get_elem?-set_cases (x ∷ xs) zero (suc j) v s e = inr (omega arith, e)
get_elem?-set_cases (x ∷ xs) (suc i) zero v s e = inr (omega arith, e)
get_elem?-set_cases (x ∷ xs) (suc i) (suc j) v s e = elim (get_elem?-set_cases xs i j v s e) [
  | inl (p, q) ↦ inl (omega arith, q)
  | inr (p, q) ↦ inr (omega arith, q)
]

-- On a well-formed array whose sets track their histories a lookup of any address returns, leaves the
-- array well formed and each set tracking its history, with the tag added to the history of the set
-- that the address selects; it counts one hit exactly where some block of that set carries the tag,
-- and one miss otherwise.
pub lookup_evict_update-TracksAll :
    (junk : CacheBlock) (addr : ℕ) (type : AccessType) (c : Cache) (hist : ℕ → List ℕ)
    → IsValid c
    → TracksAll hist c.sets
    → length (hist (split_address c.line_shift c.set_index_mask addr).1) + 1 < word
    → let (tag, i) = split_address c.line_shift c.set_index_mask addr in
      (c' : Cache) × (block : CacheBlock) × (s : Lru) × (lookup_evict_update junk addr type c
        ≡ some (c', block))
      × (get_elem? c.sets i ≡ some s)
      × (c'.access ≡ count_access type (has_tag tag s.blocks) c.access)
      × IsValid c'
      × TracksAll (note i tag hist) c'.sets
lookup_evict_update-TracksAll junk addr type c hist v t small =
    let tag = (split_address c.line_shift c.set_index_mask addr).0 in
    let i = (split_address c.line_shift c.set_index_mask addr).1 in
    let (s, (found, done)) = lookup_evict_update-set junk addr type c v in
    (
      _,
      _,
      s,
      done,
      found,
      ap (λ h. count_access type h c.access)
          (set_access-outcome junk c.is_write_allocate tag addr (is_store type) s),
      lookup_evict_update-IsValid junk addr type c _ _ v done,
      λ j s' e. elim (get_elem?-set_cases c.sets i j _ s' e) [
        | inl (here, new) ↦
            rw (← here, eq→== i i refl)
              (subst (Tracks (tag ∷ hist i)) new (
                set_access-Tracks junk c.is_write_allocate tag addr (is_store type) s (hist i) small
                  (t i s found)))
        | inr (there, old) ↦ rw (ne→== i j there) (t j s' old)
      ],
    )

-- With one way at least the sets of a new array track the empty history.
init_sets-TracksAll :
    (raw : ℕ → ℕ → CacheBlock) (p : WritePolicy) (ways n i j : ℕ) (s : Lru)
    → 0 < ways
    → get_elem? (init_sets raw p ways n i) j ≡ some s
    → Tracks [] s
unfolding init_sets
init_sets-TracksAll raw p ways zero i j s pos e = absurd (cc)
init_sets-TracksAll raw p ways (suc n) i zero s pos e =
    subst (Tracks []) (cc) (init_lru-Tracks (raw i) p ways pos)
init_sets-TracksAll raw p ways (suc n) i (suc j) s pos e =
    init_sets-TracksAll raw p ways n (i + 1) j s pos e

-- What the constructor accepts with at least one way and one row is well formed, and each of its sets
-- tracks the empty history.
pub init_cache-TracksAll :
    (raw : ℕ → ℕ → CacheBlock) (p : WritePolicy) (m : WriteMissPolicy) (size line ways : ℕ)
    {c : Cache}
    → size < word
    → 0 < ways
    → mul64 ways line ≤ size
    → init_cache raw p m size line ways ≡ some c
    → IsValid c × TracksAll (λ i. []) c.sets
unfolding new_cache
init_cache-TracksAll raw p m size line ways {c} small pos fits e =
    let (row, two, same) = init_cache-accepts raw p m size line ways e in
    (
      init_cache-IsValid raw p m size line ways small fits e,
      subst (λ (d : Cache). TracksAll (λ i. []) d.sets) (sym same)
          (λ j s f. init_sets-TracksAll raw p ways (size / mul64 ways line) 0 j s pos f),
    )

-- A cache whose line is a power of two and that is smaller than one row of blocks is accepted by the
-- constructor, and no lookup of any address finds a set.
pub init_cache_small :
    (raw : ℕ → ℕ → CacheBlock) (p : WritePolicy) (m : WriteMissPolicy) (size line ways : ℕ)
    → size < mul64 ways line
    → is_power2 line ≡ true
    → (c : Cache) × (init_cache raw p m size line ways ≡ some c)
      × ((junk : CacheBlock) (addr : ℕ) (type : AccessType)
          → lookup_evict_update junk addr type c ≡ none)
unfolding init_cache new_cache lookup_evict_update init_sets
init_cache_small raw p m size line ways small two =
    let none_fit = div-eq_of_lt small in
    (
      new_cache raw p m size line ways,
      rw (
        ne→== (mul64 ways line) 0 (omega arith),
        two,
        none_fit,
        (is_power2_iff 0 (omega arith)).1 (inl refl),
      ),
      λ junk addr type. rw (none_fit, init_sets),
    )
