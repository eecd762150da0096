-- ===== src/Level/Reach.antt =====
-- The states that a level of engine/ar_cacheobj.cpp reaches.
use siena_mem.Base.{
  Ok-some, List-cases, ℕ, zero, suc, ◌≡◌, ◌↔◌, refl, sym, ◌∙◌, inl, inr, true, Option, none, some,
  List, [], ◌∷◌, Option-cases, map, find, erase,
}
use siena_mem.Types.{Req}
use siena_mem.DataNode.{OpType}
use siena_mem.Memory.{queue_at}
use siena_mem.Cache.Lru.{CacheBlock}
use siena_mem.Level.{CacheObj, Beneath, load, store, lookup, prop_complete, start_complete, advance}
use siena_mem.Level.Pending.{
  Matched, advance-Matched, agree, load-Matched, lookup-Matched, prop_complete-Matched,
  start_complete-Matched, store-Matched,
}

-- The calls of a level that return, with any state beneath it and any uninitialised block.
pub data Step {N : Type 0} (f : Beneath N) : CacheObj → CacheObj → Type 0 where
  load_step :
      (junk : CacheBlock) (req : Req) (c : CacheObj) (n : N) (r : CacheObj × N × ℕ)
      → load f junk req c n ≡ some r
      → Step f c r.0
  store_step :
      (junk : CacheBlock) (req : Req) (c : CacheObj) (n : N) (r : CacheObj × N × ℕ)
      → store f junk req c n ≡ some r
      → Step f c r.0
  lookup_step :
      (junk : CacheBlock) (addr : ℕ) (op : OpType) (c : CacheObj) (n : N) (r : CacheObj × N)
      → lookup f junk addr op c n ≡ some r
      → Step f c r.0
  prop_step :
      (req : Req) (c : CacheObj) (r : CacheObj × List Req)
      → prop_complete req c ≡ some r
      → Step f c r.0
  start_step :
      (t addr_st : ℕ) (c : CacheObj) (r : CacheObj × Req)
      → start_complete t addr_st c ≡ some r
      → Step f c r.0
  advance_step : (fuel now : ℕ) (c c' : CacheObj) → advance fuel now c ≡ some c' → Step f c c'

pub data Reach {N : Type 0} (f : Beneath N) (c₀ : CacheObj) : CacheObj → Type 0 where
  start : Reach f c₀ c₀
  next : (c c' : CacheObj) → Reach f c₀ c → Step f c c' → Reach f c₀ c'

module _ {N : Type 0} (f : Beneath N) where
  Step-Matched : (c c' : CacheObj) → Step f c c' → Matched c → Matched c'
  Step-Matched _ _ (load_step junk req c n r e) m =
      Ok-some (λ (r : CacheObj × N × ℕ). Matched r.0) (load f junk req c n) r
        (load-Matched f junk req c n m) e
  Step-Matched _ _ (store_step junk req c n r e) m =
      Ok-some (λ (r : CacheObj × N × ℕ). Matched r.0) (store f junk req c n) r
        (store-Matched f junk req c n m) e
  Step-Matched _ _ (lookup_step junk addr op c n r e) m =
      Ok-some (λ (r : CacheObj × N). Matched r.0) (lookup f junk addr op c n) r
        (lookup-Matched f junk addr op c n m) e
  Step-Matched _ _ (prop_step req c r e) m =
      Ok-some (λ (r : CacheObj × List Req). Matched r.0) (prop_complete req c) r
        (prop_complete-Matched req c m) e
  Step-Matched _ _ (start_step t addr_st c r e) m =
      Ok-some (λ (r : CacheObj × Req). Matched r.0) (start_complete t addr_st c) r
        (start_complete-Matched t addr_st c m) e
  Step-Matched _ _ (advance_step fuel now c c' e) m =
      Ok-some Matched (advance fuel now c) c' (advance-Matched fuel now c m) e

  Reach-Matched : (c₀ c : CacheObj) → Reach f c₀ c → Matched c₀ → Matched c
  Reach-Matched c₀ _ start m = m
  Reach-Matched c₀ _ (next c c' r s) m = Step-Matched c c' s (Reach-Matched c₀ c r m)

abbrev pub waiting : Option (List Req) → List Req
waiting none = []
waiting (some l) = l

-- The entries of a line whose assertions hold, and those of a line that is awaited.
agree-answer :
    (d : Option ℕ) (q : Option (List Req)) (t : ℕ) (r : Req) (rs : List Req)
    → agree d q ≡ true
    → d ≡ some t
    → waiting q ≡ r ∷ rs
    → d ≡ some 0
agree-answer d none t r rs m e h = absurd (cc h)
agree-answer none (some l) t r rs m e h = absurd cc
agree-answer (some zero) (some l) t r rs m e h = refl
agree-answer (some (suc t)) (some l) _ r rs m e h = absurd cc

agree-awaited :
    (d : Option ℕ) (q : Option (List Req))
    → agree d q ≡ true
    → d ≡ some 0
    → (r : Req) × (rs : List Req) × (waiting q ≡ r ∷ rs)
agree-awaited none q m e = absurd (cc e)
agree-awaited (some (suc t)) q m e = absurd (cc e)
agree-awaited (some zero) none m e = absurd (cc m)
agree-awaited (some zero) (some []) m e = absurd (cc m)
agree-awaited (some zero) (some (r ∷ rs)) m e = (r, rs, refl)

prop_complete-answers :
    (req : Req) (c : CacheObj)
    → Matched c
    → ((r : CacheObj × List Req) × (prop_complete req c ≡ some r))
      ↔ (find req.addr c.pending_cl_delay_map ≡ some 0)
unfolding prop_complete
prop_complete-answers req c m =
    let k = req.addr in
    let d = c.pending_cl_delay_map in
    let q = c.pending_cl_req_map in
    (
      λ (r, e). elim (Option-cases (find k d)) [
        | inl h ↦
            let failed : prop_complete req c ≡ none = rw (h, prop_complete) refl in
            absurd (cc (sym e ∙ failed))
        | inr (t, h) ↦ elim (List-cases (queue_at k q)) [
          | inl l ↦
              let failed : prop_complete req c ≡ none = rw (h, l, prop_complete) refl in
              absurd (cc (sym e ∙ failed))
          | inr (x, xs, l) ↦ agree-answer (find k d) (find k q) t x xs (m k) h l
        ]
      ],
      λ h.
          let (x, xs, l) = agree-awaited (find k d) (find k q) (m k) h in
          let full : queue_at k q ≡ x ∷ xs = l in
          let result : CacheObj × List Req = (
            record c { pending_cl_delay_map = erase k d; pending_cl_req_map = erase k q },
            map (λ (p : Req). record p { complete = req.complete }) (x ∷ xs),
          ) in
          (result, rw (h, full, prop_complete) refl),
    )

-- In every state that a level reaches, by calls that return, from one without pending lines, an answer
-- for a line passes the assertions of prop_complete exactly if the line is in pendingCl_delay_map with
-- the time 0.
pub prop_complete-Reach :
    {N : Type 0} (f : Beneath N) (c₀ c : CacheObj) (req : Req)
    → c₀.pending_cl_delay_map ≡ []
    → c₀.pending_cl_req_map ≡ []
    → Reach f c₀ c
    → ((r : CacheObj × List Req) × (prop_complete req c ≡ some r))
      ↔ (find req.addr c.pending_cl_delay_map ≡ some 0)
unfolding find
prop_complete-Reach f c₀ c req d q r =
    prop_complete-answers req c (Reach-Matched f c₀ c r (λ k. rw (d, q) refl))
