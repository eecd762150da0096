-- ===== src/Simulator/Insert.antt =====
-- What the insertion loops and the completions of engine/ar_ramulator.cpp and engine/ar_memsim.cpp do to
-- the reads of one address.
use mathlib.Core.Path.{subst}
use siena_mem.Base.{
  ℕ, suc, ◌+◌, ◌≡◌, ◌≢◌, refl, ap, ◌∙◌, inl, inr, true, false, Option, none, some, List, [], ◌∷◌,
  ◌++◌, arith, ◌==◌, if◌then◌else◌, Bool-cases, ==→eq, ==→ne, eq→==, length, length-append, put,
  erase, find-put_self, find-put_ne, find-erase_self, find-erase_ne,
}
use siena_mem.Simulator.{Backend, waiting_at, enqueue, insert_list, insert_map}

-- How often `a` is in a list, in the lists of a map of pending transactions, and in the queue.
abbrev pub count : ℕ → List ℕ → ℕ
count a [] = 0
count a (x ∷ l) = let n = count a l in if a == x then suc n else n

abbrev pub pending : ℕ → List (ℕ × List ℕ) → ℕ
pending a [] = 0
pending a (e ∷ p) = count a e.1 + pending a p

abbrev pub queued : ℕ → List (ℕ × List ℕ) → ℕ
queued a q = length (waiting_at a q)

-- One, if the addresses are the same.
abbrev pub one_if : ℕ → ℕ → ℕ
one_if a x = if a == x then 1 else 0

-- What a memory simulator documents: a read that is taken completes once, and nothing else completes.
pub record Honest {M : Type 0} (b : Backend M) : Type 0 where
  pub outstanding : M → ℕ → ℕ
  pub taken :
      (m : M) (x a : ℕ)
      → (b.send true x m).1 ≡ true
      → outstanding (b.send true x m).0 a ≡ outstanding m a + one_if a x
  pub refused :
      (m : M) (x a : ℕ)
      → (b.send true x m).1 ≡ false
      → outstanding (b.send true x m).0 a ≡ outstanding m a
  pub written : (m : M) (x a : ℕ) → outstanding (b.send false x m).0 a ≡ outstanding m a
  pub completes :
      (m : M) (a : ℕ) → outstanding (b.tick m).0 a + count a (b.tick m).1 ≡ outstanding m a

abbrev held_by : Option (List ℕ) → List ℕ
held_by none = []
held_by (some l) = l

pub waiting-put_self : (k : ℕ) (v : List ℕ) (q : List (ℕ × List ℕ)) → waiting_at k (put k v q) ≡ v
waiting-put_self k v q = ap held_by (find-put_self k v q)

pub waiting-put_ne :
    (k a : ℕ) (v : List ℕ) (q : List (ℕ × List ℕ))
    → a ≢ k
    → waiting_at a (put k v q) ≡ waiting_at a q
waiting-put_ne k a v q h = ap held_by (find-put_ne k a v q h)

pub waiting-erase_self : (k : ℕ) (q : List (ℕ × List ℕ)) → waiting_at k (erase k q) ≡ []
waiting-erase_self k q = ap held_by (find-erase_self k q)

pub waiting-erase_ne :
    (k a : ℕ) (q : List (ℕ × List ℕ)) → a ≢ k → waiting_at a (erase k q) ≡ waiting_at a q
waiting-erase_ne k a q h = ap held_by (find-erase_ne k a q h)

queued-enqueue_self :
    (now x : ℕ) (q : List (ℕ × List ℕ)) → queued x (enqueue now x q) ≡ queued x q + 1
unfolding enqueue
queued-enqueue_self now x q =
    ap length (waiting-put_self x (waiting_at x q ++ now ∷ []) q)
    ∙ length-append (waiting_at x q) (now ∷ [])

queued-enqueue_ne :
    (now a x : ℕ) (q : List (ℕ × List ℕ)) → a ≢ x → queued a (enqueue now x q) ≡ queued a q
unfolding enqueue
queued-enqueue_ne now a x q h = ap length (waiting-put_ne x a (waiting_at x q ++ now ∷ []) q h)

pub queued-enqueue :
    (now a x : ℕ) (q : List (ℕ × List ℕ)) → queued a (enqueue now x q) ≡ queued a q + one_if a x
queued-enqueue now a x q = elim (Bool-cases (a == x)) [
  | inl e ↦
      subst (λ (y : ℕ). queued a (enqueue now y q) ≡ queued a q + one_if a y) (==→eq a x e)
        (rw (eq→== a a refl) (queued-enqueue_self now a q))
  | inr e ↦ rw e (queued-enqueue_ne now a x q (==→ne a x e) ∙ omega arith)
]

module _ {M : Type 0} (b : Backend M) (h : Honest b) (now a : ℕ) where
  -- The loop over one list: the reads of `a` move from the list to the queue, and the simulator holds
  -- as many more of them as the queue.
  pub insert_list_reads :
      (l : List ℕ) (m : M) (q : List (ℕ × List ℕ))
      → let r = insert_list b true (enqueue now) l m q in
        (queued a r.1 + count a r.2 ≡ queued a q + count a l)
        × (h.outstanding r.0 a + queued a q ≡ h.outstanding m a + queued a r.1)
  unfolding insert_list
  insert_list_reads [] m q = (refl, refl)
  insert_list_reads (x ∷ l) m q = elim (Bool-cases (b.send true x m).1) [
    | inl e ↦
        let (moved, held) = insert_list_reads l (b.send true x m).0 (enqueue now x q) in
        rw e (ground (arith, moved, held, queued-enqueue now a x q, h.taken m x a e))
    | inr e ↦ rw e (ground (arith, h.refused m x a e))
  ]

  pub insert_map_reads :
      (p : List (ℕ × List ℕ)) (m : M) (q : List (ℕ × List ℕ))
      → let r = insert_map b true (enqueue now) now p m q in
        (queued a r.1 + pending a r.2 ≡ queued a q + pending a p)
        × (h.outstanding r.0 a + queued a q ≡ h.outstanding m a + queued a r.1)
  unfolding insert_map
  insert_map_reads [] m q = (refl, refl)
  insert_map_reads (e ∷ p) m q =
      let (moved, held) = insert_list_reads e.1 m q in
      let (moved', held') =
        insert_map_reads p (insert_list b true (enqueue now) e.1 m q).0
          (insert_list b true (enqueue now) e.1 m q).1 in
      ground arith

  insert_list_writes :
      (l : List ℕ) (m : M) (q : List (ℕ × List ℕ))
      → h.outstanding (insert_list b false (enqueue now) l m q).0 a ≡ h.outstanding m a
  unfolding insert_list
  insert_list_writes [] m q = refl
  insert_list_writes (x ∷ l) m q =
      let ih = insert_list_writes l (b.send false x m).0 (enqueue now x q) in
      let here = h.written m x a in ground arith

  -- Writes do not change which reads the simulator holds.
  pub insert_map_writes :
      (p : List (ℕ × List ℕ)) (m : M) (q : List (ℕ × List ℕ))
      → h.outstanding (insert_map b false (enqueue now) now p m q).0 a ≡ h.outstanding m a
  unfolding insert_map
  insert_map_writes [] m q = refl
  insert_map_writes (e ∷ p) m q =
      let here = insert_list_writes e.1 m q in
      let ih =
        insert_map_writes p (insert_list b false (enqueue now) e.1 m q).0
          (insert_list b false (enqueue now) e.1 m q).1 in
      ground arith
