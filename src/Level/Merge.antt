-- ===== src/Level/Merge.antt =====
-- The merging of the loads of a line that a level of engine/ar_cacheobj.cpp waits for.
use siena_mem.Base.{
  Ok, Ok-bind, Ok-some, ==→ne, ◌>>=◌, ℕ, ◌≡◌, refl, sym, ap, ◌∙◌, inl, inr, true, Option, none,
  some, List, [], ◌∷◌, ◌++◌, map, ◌==◌, Bool-cases, Option-cases, find, erase, find-put_self,
  find-erase_self,
}
use mathlib.Core.Path.{subst}
use siena_mem.Types.{Req}
use siena_mem.Memory.{queue_at, align}
use siena_mem.Cache.Lru.{CacheBlock}
use siena_mem.Cache.Array.{lookup_evict_update, AccessType}
use siena_mem.Level.{
  CacheObj, Beneath, await_line, load_pending, load_hit, load_miss, load, prop_complete, write_back,
}
use siena_mem.Level.Pending.{Matched, agree}
use siena_mem.Level.Reach.{waiting}

-- Loads, one after the other: the level, what lies beneath, and the times that are returned.
unfoldable pub run_loads :
    {N : Type 0} → Beneath N → CacheBlock → List Req → CacheObj → N → Option (CacheObj × N × List ℕ)
unfolding load
run_loads f junk [] c n = some (c, n, [])
run_loads f junk (r ∷ rs) c n = do
  a ← load f junk r c n
  b ← run_loads f junk rs a.0 a.1
  some (b.0, b.1, a.2 ∷ b.2)

abbrev pub OnLine : ℕ → ℕ → List Req → Type 0
OnLine shift line [] = Unit
OnLine shift line (r ∷ rs) = (align shift r.addr ≡ line) × OnLine shift line rs

abbrev pub zeros : List Req → List ℕ
zeros [] = []
zeros (r ∷ rs) = 0 ∷ zeros rs

-- The entries of a line that is awaited by the requests `l`.
record Awaits (line : ℕ) (l : List Req) (c : CacheObj) : Type 0 where
  delay : find line c.pending_cl_delay_map ≡ some 0
  queue : find line c.pending_cl_req_map ≡ some l

append_assoc : (a b c : List Req) → (a ++ b) ++ c ≡ a ++ (b ++ c)
append_assoc [] b c = refl
append_assoc (x ∷ a) b c = ap (λ (t : List Req). x ∷ t) (append_assoc a b c)

append_nil : (l : List Req) → l ++ [] ≡ l
append_nil [] = refl
append_nil (x ∷ l) = ap (λ (t : List Req). x ∷ t) (append_nil l)

load_pending-Awaits :
    (line : ℕ) (l : List Req) (r : Req) (c : CacheObj)
    → Awaits line l c
    → Awaits line (l ++ r ∷ []) (load_pending line 0 r c).0
unfolding load_pending
load_pending-Awaits line l r c a =
    let q : queue_at line c.pending_cl_req_map ≡ l = rw (a.queue, queue_at) refl in
    record {
      delay = a.delay;
      queue =
          find-put_self line (queue_at line c.pending_cl_req_map ++ r ∷ []) c.pending_cl_req_map
          ∙ ap (λ (t : List Req). some (t ++ r ∷ [])) q;
    }

module _ {N : Type 0} (f : Beneath N) (junk : CacheBlock) where
  -- A load of a line that is awaited.
  load-Awaits :
      (line : ℕ) (l : List Req) (r : Req) (c : CacheObj) (n : N)
      → align c.lineshift r.addr ≡ line
      → Awaits line l c
      → load f junk r c n ≡ some ((load_pending line 0 r c).0, n, 0)
  unfolding load load_pending
  load-Awaits line l r c n e a =
      subst (λ k. Awaits k l c → load f junk r c n ≡ some ((load_pending k 0 r c).0, n, 0)) e
        (λ b. rw (b.delay, load) refl) a

  run_loads-Awaits :
      (line : ℕ) (rs l : List Req) (c : CacheObj) (n : N)
      → OnLine c.lineshift line rs
      → Awaits line l c
      → (c' : CacheObj) × (run_loads f junk rs c n ≡ some (c', n, zeros rs))
        × Awaits line (l ++ rs) c'
  unfolding run_loads load_pending
  run_loads-Awaits line [] l c n o a = (c, refl, rw (append_nil l) a)
  run_loads-Awaits line (r ∷ rs) l c n (o, os) a =
      let one = load-Awaits line l r c n o a in
      let (c', e, a') =
        run_loads-Awaits line rs (l ++ r ∷ []) (load_pending line 0 r c).0 n os
          (load_pending-Awaits line l r c a) in
      (c', rw (one, e) refl, rw (append_assoc l (r ∷ []) rs) at a')

prop_complete-Awaits :
    (a : Req) (l : List Req) (x : Req) (xs : List Req) (c : CacheObj)
    → l ≡ x ∷ xs
    → Awaits a.addr l c
    → (c' : CacheObj) × (prop_complete a c
        ≡ some (c', map (λ (q : Req). record q { complete = a.complete }) l))
      × (find a.addr c'.pending_cl_delay_map ≡ none)
      × (find a.addr c'.pending_cl_req_map ≡ none)
unfolding prop_complete
prop_complete-Awaits a l x xs c e w =
    let q : queue_at a.addr c.pending_cl_req_map ≡ x ∷ xs = rw (w.queue, queue_at) e in
    (
      record c {
        pending_cl_delay_map = erase a.addr c.pending_cl_delay_map;
        pending_cl_req_map = erase a.addr c.pending_cl_req_map;
      },
      rw (w.delay, q, prop_complete, e) refl,
      find-erase_self a.addr c.pending_cl_delay_map,
      find-erase_self a.addr c.pending_cl_req_map,
    )

-- What a load of a line that was not pending leaves, if it leaves the line awaited.
abbrev FirstLoad : ℕ → Req → CacheObj → CacheObj → Type 0
FirstLoad line req c c' =
    (c'.lineshift ≡ c.lineshift)
    × (find line c'.pending_cl_delay_map ≡ some 0 → Awaits line (req ∷ []) c')

no_request : (q : Option (List Req)) → agree none q ≡ true → waiting q ≡ []
no_request none e = refl
no_request (some l) e = absurd (cc e)

-- A line that is not pending can only become awaited by an answer 0.
await_line-FirstLoad :
    (line t : ℕ) (req : Req) (c : CacheObj)
    → queue_at line c.pending_cl_req_map ≡ []
    → FirstLoad line req c (await_line line t req c)
unfolding await_line
await_line-FirstLoad line t req c q = elim (Bool-cases (t == 0)) [
  | inl z ↦ rw z (
    refl,
    λ h. record {
      delay = h;
      queue =
          find-put_self line (queue_at line c.pending_cl_req_map ++ req ∷ []) c.pending_cl_req_map
          ∙ ap (λ (l : List Req). some (l ++ req ∷ [])) q;
    },
  )
  | inr z ↦ rw z (
    refl,
    λ h.
        let answered : some t ≡ some 0 = sym (find-put_self line t c.pending_cl_delay_map) ∙ h in
        absurd (==→ne t 0 z (cc answered)),
  )
]

load_hit-FirstLoad :
    (line addr : ℕ) (req : Req) (c : CacheObj)
    → find line c.pending_cl_delay_map ≡ none
    → FirstLoad line req c (load_hit addr req c).0
unfolding load_hit
load_hit-FirstLoad line addr req c h = elim (Option-cases c.simulator) [
  | inl e ↦ rw e (refl, λ k. absurd (cc (sym h ∙ k)))
  | inr (s, e) ↦ rw e (refl, λ k. absurd (cc (sym h ∙ k)))
]

module _ {N : Type 0} (f : Beneath N) where
  load_miss-FirstLoad :
      (line : ℕ) (evict : CacheBlock) (req : Req) (c : CacheObj) (n : N)
      → queue_at line c.pending_cl_req_map ≡ []
      → Ok (λ (r : CacheObj × N × ℕ). FirstLoad line req c r.0) (load_miss f line evict req c n)
  unfolding load_miss
  load_miss-FirstLoad line evict req c n q =
      let P : CacheObj × N × ℕ → Type 0 = λ r. FirstLoad line req c r.0 in
      Ok-bind P _ _ (λ r.
        Ok-bind P (write_back f evict req c r.0) (λ n'. some (await_line line r.1 req c, n', r.1))
          (λ n'. await_line-FirstLoad line r.1 req c q))

  load-FirstLoad :
      (junk : CacheBlock) (req : Req) (c : CacheObj) (n : N)
      → find (align c.lineshift req.addr) c.pending_cl_delay_map ≡ none
      → Matched c
      → Ok
          (λ (r : CacheObj × N × ℕ). FirstLoad (align c.lineshift req.addr) req c r.0)
          (load f junk req c n)
  unfolding load
  load-FirstLoad junk req c n h m =
      let line = align c.lineshift req.addr in
      let P : CacheObj × N × ℕ → Type 0 = λ r. FirstLoad line req c r.0 in
      let q : queue_at line c.pending_cl_req_map ≡ [] =
        no_request (find line c.pending_cl_req_map)
          (ap (λ d. agree d (find line c.pending_cl_req_map)) (sym h) ∙ m line) in
      rw (h, load)
        (Ok-bind P (lookup_evict_update junk line AccessType.load c.cache_array) _ (λ a.
          let c' : CacheObj = record c { cache_array = a.0 } in
          elim (Bool-cases (a.1.tag == 1)) [
            | inl e ↦ rw e (load_hit-FirstLoad line line req c' h)
            | inr e ↦ rw e (load_miss-FirstLoad line a.1 req c' n q)
          ]))

-- On a level whose pending lines agree, a load that leaves its line awaited, which was not pending before,
-- is followed by any loads of the same line: nothing of these goes to what lies beneath, each returns 0,
-- and when the line is answered at the time of `a`, exactly the first request and these are passed on, in
-- order and with that time, and the line is no longer pending.
pub prop_complete-run_loads :
    {N : Type 0} (f : Beneath N) (junk : CacheBlock) (req : Req) (c c' : CacheObj) (n n' : N)
    (t : ℕ) (rs : List Req) (a : Req)
    → Matched c
    → a.addr ≡ align c.lineshift req.addr
    → find a.addr c.pending_cl_delay_map ≡ none
    → load f junk req c n ≡ some (c', n', t)
    → find a.addr c'.pending_cl_delay_map ≡ some 0
    → OnLine c.lineshift a.addr rs
    → (d : CacheObj) × (e : CacheObj) × (run_loads f junk rs c' n' ≡ some (d, n', zeros rs))
      × (prop_complete a d
          ≡ some (e, map (λ (q : Req). record q { complete = a.complete }) (req ∷ rs)))
      × (find a.addr e.pending_cl_delay_map ≡ none)
      × (find a.addr e.pending_cl_req_map ≡ none)
prop_complete-run_loads {N} f junk req c c' n n' t rs a m line h l w o =
    let P : CacheObj × N × ℕ → Type 0 = λ r. FirstLoad (align c.lineshift req.addr) req c r.0 in
    let (shift, first) =
      Ok-some P (load f junk req c n) (c', n', t)
        (load-FirstLoad f junk req c n (ap (λ k. find k c.pending_cl_delay_map) (sym line) ∙ h) m)
        l in
    let first' : Awaits a.addr (req ∷ []) c' =
      subst (λ k. find k c'.pending_cl_delay_map ≡ some 0 → Awaits k (req ∷ []) c') (sym line) first
        w in
    let (d, run, all) =
      run_loads-Awaits f junk a.addr rs (req ∷ []) c' n'
        (subst (λ k. OnLine k a.addr rs) (sym shift) o) first' in
    let (e, done, gone_delay, gone_req) = prop_complete-Awaits a (req ∷ rs) req rs d refl all in
    (d, e, run, done, gone_delay, gone_req)
