-- ===== src/Level/Pending.antt =====
-- The two maps of lines that a level of engine/ar_cacheobj.cpp waits for.
use siena_mem.Base.{
  Ok, Ok-bind, Ok-then, List-cases, ℕ, zero, suc, ◌≡◌, ◌≢◌, refl, sym, ap, ◌∙◌, inl, inr, Bool,
  true, false, Option, none, some, List, [], ◌∷◌, ◌++◌, if◌then◌else◌, ◌==◌, Bool-cases,
  Option-cases, ==→eq, ==→ne, find, put, erase, find-put_self, find-put_ne, find-erase_self,
  find-erase_ne,
}
use siena_mem.Types.{Req}
use siena_mem.DataNode.{OpType}
use siena_mem.Memory.{queue_at, align}
use siena_mem.Cache.Lru.{CacheBlock}
use siena_mem.Cache.Array.{lookup_evict_update, AccessType}
use siena_mem.Level.{
  CacheObj, Beneath, await_line, load_pending, load_hit, load_miss, load, store, lookup,
  prop_complete, start_complete, sweep, advance_pending, advance, is_due, write_back,
}

-- What the two maps say of a line: nothing; that its time, which is not 0, is known; or that it is
-- awaited, by at least one request.
abbrev pub agree : Option ℕ → Option (List Req) → Bool
agree none none = true
agree none (some l) = false
agree (some zero) none = false
agree (some zero) (some []) = false
agree (some zero) (some (r ∷ rs)) = true
agree (some (suc t)) none = true
agree (some (suc t)) (some l) = false

abbrev pub IsMatched : List (ℕ × ℕ) → List (ℕ × List Req) → Type 0
IsMatched d q = (k : ℕ) → agree (find k d) (find k q) ≡ true

abbrev pub Matched : CacheObj → Type 0
Matched c = IsMatched c.pending_cl_delay_map c.pending_cl_req_map

IsMatched-erase :
    (k : ℕ) (d : List (ℕ × ℕ)) (q : List (ℕ × List Req))
    → IsMatched d q
    → IsMatched (erase k d) (erase k q)
IsMatched-erase k d q m j = elim (Bool-cases (j == k)) [
  | inl e ↦ rw (==→eq j k e, find-erase_self k d, find-erase_self k q) refl
  | inr e ↦ rw (find-erase_ne k j d (==→ne j k e), find-erase_ne k j q (==→ne j k e)) (m j)
]

agree-joined : (q : List Req) (r : Req) → agree (some 0) (some (q ++ r ∷ [])) ≡ true
agree-joined [] r = refl
agree-joined (x ∷ q) r = refl

-- A request that waits for a line whose time is 0.
IsMatched-put_req :
    (k : ℕ) (r : Req) (l : List Req) (d : List (ℕ × ℕ)) (q : List (ℕ × List Req))
    → find k d ≡ some 0
    → ((j : ℕ) → j ≢ k → agree (find j d) (find j q) ≡ true)
    → IsMatched d (put k (l ++ r ∷ []) q)
IsMatched-put_req k r l d q h m j = elim (Bool-cases (j == k)) [
  | inl e ↦ rw (==→eq j k e, find-put_self k (l ++ r ∷ []) q, h) (agree-joined l r)
  | inr e ↦ rw (find-put_ne k j (l ++ r ∷ []) q (==→ne j k e)) (m j (==→ne j k e))
]

agree-known :
    (t : ℕ) (q : Option (List Req)) → t ≢ 0 → agree none q ≡ true → agree (some t) q ≡ true
agree-known zero q h e = absurd (h refl)
agree-known (suc t) none h e = refl
agree-known (suc t) (some l) h e = absurd (cc e)

-- A new entry for the time of a line.
put_delay-ne :
    (k t : ℕ) (d : List (ℕ × ℕ)) (q : List (ℕ × List Req))
    → IsMatched d q
    → (j : ℕ) → j ≢ k
    → agree (find j (put k t d)) (find j q) ≡ true
put_delay-ne k t d q m j h = rw (find-put_ne k j t d h) (m j)

IsMatched-put_delay :
    (k t : ℕ) (d : List (ℕ × ℕ)) (q : List (ℕ × List Req))
    → find k d ≡ none
    → t ≢ 0
    → IsMatched d q
    → IsMatched (put k t d) q
IsMatched-put_delay k t d q h ne m j = elim (Bool-cases (j == k)) [
  | inl e ↦
      rw (==→eq j k e, find-put_self k t d)
        (agree-known t (find k q) ne (ap (λ (o : Option ℕ). agree o (find k q)) (sym h) ∙ m k))
  | inr e ↦ put_delay-ne k t d q m j (==→ne j k e)
]

load_pending-Matched :
    (addr t : ℕ) (req : Req) (c : CacheObj)
    → find addr c.pending_cl_delay_map ≡ some t
    → Matched c
    → Matched (load_pending addr t req c).0
unfolding load_pending
load_pending-Matched addr t req c h m = elim (Bool-cases (t == 0)) [
  | inl e ↦ rw e (
      IsMatched-put_req addr req (queue_at addr c.pending_cl_req_map) c.pending_cl_delay_map
        c.pending_cl_req_map (h ∙ ap some (==→eq t 0 e)) (λ j ne. m j))
  | inr e ↦ rw e m
]

load_hit-Matched :
    (addr : ℕ) (req : Req) (c : CacheObj) → Matched c → Matched (load_hit addr req c).0
unfolding load_hit
load_hit-Matched addr req c m = elim (Option-cases c.simulator) [
  | inl e ↦ rw e m
  | inr (s, e) ↦ rw e m
]

await_line-Matched :
    (addr t : ℕ) (req : Req) (c : CacheObj)
    → find addr c.pending_cl_delay_map ≡ none
    → Matched c
    → Matched (await_line addr t req c)
unfolding await_line
await_line-Matched addr t req c h m = elim (Bool-cases (t == 0)) [
  | inl z ↦ rw z (
      IsMatched-put_req addr req (queue_at addr c.pending_cl_req_map)
        (put addr t c.pending_cl_delay_map) c.pending_cl_req_map
        (find-put_self addr t c.pending_cl_delay_map ∙ ap some (==→eq t 0 z))
        (put_delay-ne addr t c.pending_cl_delay_map c.pending_cl_req_map m))
  | inr z ↦
      rw z
        (IsMatched-put_delay addr t c.pending_cl_delay_map c.pending_cl_req_map h (==→ne t 0 z) m)
]

module _ {N : Type 0} (f : Beneath N) where
  abbrev Keeps : CacheObj × N × ℕ → Type 0
  Keeps r = Matched r.0

  load_miss-Matched :
      (addr : ℕ) (evict : CacheBlock) (req : Req) (c : CacheObj) (n : N)
      → find addr c.pending_cl_delay_map ≡ none
      → Matched c
      → Ok Keeps (load_miss f addr evict req c n)
  unfolding load_miss
  load_miss-Matched addr evict req c n h m = Ok-bind Keeps _ _ (λ r.
      Ok-bind Keeps (write_back f evict req c r.0) (λ n'. some (await_line addr r.1 req c, n', r.1))
        (λ n'. await_line-Matched addr r.1 req c h m))

  pub load-Matched :
      (junk : CacheBlock) (req : Req) (c : CacheObj) (n : N)
      → Matched c
      → Ok Keeps (load f junk req c n)
  unfolding load
  load-Matched junk req c n m =
      let addr = align c.lineshift req.addr in
      elim (Option-cases (find addr c.pending_cl_delay_map)) [
        | inr (t, h) ↦ rw (h, load) (load_pending-Matched addr t req c h m)
        | inl h ↦
            rw (h, load)
              (Ok-bind Keeps (lookup_evict_update junk addr AccessType.load c.cache_array) _ (λ r.
                elim (Bool-cases (r.1.tag == 1)) [
                  | inl e ↦ rw e (load_hit-Matched addr req (record c { cache_array = r.0 }) m)
                  | inr e ↦
                      rw e (load_miss-Matched addr r.1 req (record c { cache_array = r.0 }) n h m)
                ]))
      ]

  pub store-Matched :
      (junk : CacheBlock) (req : Req) (c : CacheObj) (n : N)
      → Matched c
      → Ok Keeps (store f junk req c n)
  unfolding store
  store-Matched junk req c n m =
      Ok-bind Keeps (lookup_evict_update junk req.addr AccessType.store c.cache_array) _ (λ r.
        Ok-bind Keeps (write_back f r.1 req (record c { cache_array = r.0 }) n) _
          (λ n'. elim (Option-cases c.simulator) [ inl e ↦ rw e m | inr (s, e) ↦ rw e m ]))

  pub lookup-Matched :
      (junk : CacheBlock) (addr : ℕ) (op : OpType) (c : CacheObj) (n : N)
      → Matched c
      → Ok (λ (r : CacheObj × N). Matched r.0) (lookup f junk addr op c n)
  unfolding lookup
  lookup-Matched junk addr op c n m =
      let P : CacheObj × N → Type 0 = λ r. Matched r.0 in
      Ok-bind P _ _ (λ t. Ok-bind P (lookup_evict_update junk addr t c.cache_array) _ (λ r.
        Ok-bind P
          (if r.1.tag == 1 then some n else if c.has_next then f.next_lookup addr op n else some n)
          (λ n'. some (record c { cache_array = r.0 }, n')) (λ n'. m)))

pub prop_complete-Matched :
    (req : Req) (c : CacheObj)
    → Matched c
    → Ok (λ (r : CacheObj × List Req). Matched r.0) (prop_complete req c)
unfolding prop_complete
prop_complete-Matched req c m = elim (Option-cases (find req.addr c.pending_cl_delay_map)) [
  | inl e ↦ rw (e, prop_complete) tt
  | inr (t, e) ↦ elim (List-cases (queue_at req.addr c.pending_cl_req_map)) [
    | inl h ↦ rw (e, h, prop_complete) tt
    | inr (r, rs, h) ↦
        rw (e, h, prop_complete)
          (IsMatched-erase req.addr c.pending_cl_delay_map c.pending_cl_req_map m)
  ]
]

pub start_complete-Matched :
    (t addr_st : ℕ) (c : CacheObj)
    → Matched c
    → Ok (λ (r : CacheObj × Req). Matched r.0) (start_complete t addr_st c)
unfolding start_complete
start_complete-Matched t addr_st c m = elim (List-cases (queue_at addr_st c.load_queue)) [
  | inl h ↦ rw (h, start_complete) tt
  | inr (r, q, h) ↦ elim (List-cases q) [
    | inl k ↦ rw (h, k, start_complete) m
    | inr (r', q', k) ↦ rw (h, k, start_complete) m
  ]
]

sweep-IsMatched :
    (fuel now : ℕ) (left d : List (ℕ × ℕ)) (q : List (ℕ × List Req))
    → IsMatched d q
    → Ok (λ (r : List (ℕ × ℕ) × List (ℕ × List Req)). IsMatched r.0 r.1) (sweep fuel now left d q)
unfolding sweep
sweep-IsMatched fuel now [] d q m = m
sweep-IsMatched zero now (e ∷ left) d q m = tt
sweep-IsMatched (suc fuel) now (e ∷ left) d q m = elim (Bool-cases (is_due now e.1)) [
  | inl h ↦
      rw h (sweep-IsMatched fuel now left (erase e.0 d) (erase e.0 q) (IsMatched-erase e.0 d q m))
  | inr h ↦ rw h (sweep-IsMatched fuel now (e ∷ left) d q m)
]

pub advance-Matched : (fuel now : ℕ) (c : CacheObj) → Matched c → Ok Matched (advance fuel now c)
unfolding advance advance_pending
advance-Matched fuel now c m = elim (Option-cases c.simulator) [
  | inl e ↦
      rw (e, advance, advance_pending)
        (Ok-then Matched (λ (r : List (ℕ × ℕ) × List (ℕ × List Req)). IsMatched r.0 r.1)
          (sweep fuel now c.pending_cl_delay_map c.pending_cl_delay_map c.pending_cl_req_map) _
          (sweep-IsMatched fuel now c.pending_cl_delay_map c.pending_cl_delay_map
            c.pending_cl_req_map m)
          (λ r k. k))
  | inr (s, e) ↦ rw (e, advance) m
]
