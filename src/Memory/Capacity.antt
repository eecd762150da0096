-- ===== src/Memory/Capacity.antt =====
-- The capacity of a memory of engine/ar_memobj.cpp.
use siena_mem.Base.{
  Distinct, Distinct-put, Distinct-erase, ℕ, ◌+◌, ◌-◌, ◌≤◌, ◌<◌, ◌≡◌, refl, ap, ◌∙◌, inl, inr, true,
  false, none, some, List, [], ◌∷◌, arith, ltb, le→ltb, ◌==◌, Bool-cases, Option-cases, ltb→lt,
  ltb→le, ◌⊎◌, find-put_self, word, add64, add64-eq, sub64, sub64-eq, find, put, erase, erase-put,
  erase-none, ==→eq,
}
use siena_mem.DataNode.{MemAlloc}
use siena_mem.Memory.{Memory, alloc_key, place_alloc, remove_alloc}

-- The bytes of all allocations.
abbrev pub used : List (ℕ × MemAlloc) → ℕ
used [] = 0
used (e ∷ m) = e.1.size + used m

-- The capacity is the bytes that are placed and the bytes that are available.
pub record IsAccounted (m : Memory) : Type 0 where
  pub distinct : Distinct m.memobj_map
  pub sum : used m.memobj_map + m.avail_capacity ≡ m.capacity
  pub fits : m.capacity < word

used-put :
    (k : ℕ) (a : MemAlloc) (m : List (ℕ × MemAlloc))
    → find k m ≡ none
    → used (put k a m) ≡ used m + a.size
unfolding find put
used-put k a [] h = omega arith
used-put k a (e ∷ m) h = let ih = used-put k a m in ground arith

used-erase :
    (k : ℕ) (a : MemAlloc) (m : List (ℕ × MemAlloc))
    → Distinct m
    → find k m ≡ some a
    → used (erase k m) + a.size ≡ used m
unfolding find erase
used-erase k a [] d h = absurd (cc h)
used-erase k a (e ∷ m) (d, ds) h = elim (Bool-cases (k == e.0)) [
  | inl q ↦
      let here : e.1 ≡ a = cc (rw q at h) in
      let rest : erase k m ≡ m = erase-none k m (ap (λ (j : ℕ). find j m) (==→eq k e.0 q) ∙ d) in
      rw (q, rest) (omega (arith, ap (λ (b : MemAlloc). b.size) here))
  | inr q ↦ let ih = used-erase k a m ds (rw q at h) in rw q (omega (arith, ih))
]

-- A memory of less than 2 ^ 64 bytes as the constructor leaves it is accounted.
pub empty-IsAccounted :
    (m : Memory)
    → m.memobj_map ≡ []
    → m.avail_capacity ≡ m.capacity
    → m.capacity < word
    → IsAccounted m
empty-IsAccounted m e a f = record { distinct = rw e tt; sum = rw e (omega (arith, a)); fits = f }

-- place_alloc on an accounted memory: an allocation that is larger than what is available is declined and
-- changes nothing; a key that is there is a PANIC; any other is placed, and the memory is accounted again.
pub place_alloc-branches :
    (a : MemAlloc) (m : Memory)
    → IsAccounted m
    → ((m.avail_capacity < a.size) × (place_alloc a m ≡ some (false, m)))
      ⊎ ((b : MemAlloc) × (find (alloc_key a.mid) m.memobj_map ≡ some b) × (place_alloc a m ≡ none))
      ⊎ ((m' : Memory) × (place_alloc a m ≡ some (true, m'))
          × IsAccounted m'
          × (used m'.memobj_map ≡ used m.memobj_map + a.size))
unfolding place_alloc
place_alloc-branches a m acc = elim (Bool-cases (ltb m.avail_capacity a.size)) [
  | inl small ↦ inl (ltb→lt m.avail_capacity a.size small, rw small refl)
  | inr fits ↦ elim (Option-cases (find (alloc_key a.mid) m.memobj_map)) [
    | inr (b, there) ↦ inr (inl (b, there, rw (fits, there) refl))
    | inl absent ↦
        let k = alloc_key a.mid in
        let enough = ltb→le m.avail_capacity a.size fits in
        let more = used-put k a m.memobj_map absent in
        let less = sub64-eq m.avail_capacity a.size enough (omega (arith, acc.sum, acc.fits)) in
        inr (
          inr (
            record m {
              memobj_map = put k a m.memobj_map;
              avail_capacity = sub64 m.avail_capacity a.size;
            },
            rw (fits, absent) refl,
            record {
              distinct = Distinct-put k a m.memobj_map acc.distinct;
              sum = omega (arith, more, less, enough, acc.sum);
              fits = acc.fits;
            },
            more,
          ))
  ]
]

-- remove_alloc on an accounted memory: an id that is not there is a PANIC; otherwise the memory is
-- accounted again, with the bytes of the allocation available.
pub remove_alloc-branches :
    (oid : ℕ) (m : Memory)
    → IsAccounted m
    → ((find (alloc_key oid) m.memobj_map ≡ none) × (remove_alloc oid m ≡ none))
      ⊎ ((a : MemAlloc) × (find (alloc_key oid) m.memobj_map ≡ some a)
          × ((m' : Memory) × (remove_alloc oid m ≡ some m')
              × IsAccounted m'
              × (m'.avail_capacity ≡ m.avail_capacity + a.size)))
unfolding remove_alloc
remove_alloc-branches oid m acc = elim (Option-cases (find (alloc_key oid) m.memobj_map)) [
  | inl absent ↦ inl (absent, rw (absent, remove_alloc) refl)
  | inr (a, there) ↦
      let k = alloc_key oid in
      let freed = used-erase k a m.memobj_map acc.distinct there in
      let more = add64-eq m.avail_capacity a.size (omega (arith, acc.sum, acc.fits, freed)) in
      inr (
        a,
        there,
        (
          record m {
            avail_capacity = add64 m.avail_capacity a.size;
            memobj_map = erase k m.memobj_map;
          },
          rw (there, remove_alloc) refl,
          record {
            distinct = Distinct-erase k m.memobj_map acc.distinct;
            sum = omega (arith, freed, more, acc.sum);
            fits = acc.fits;
          },
          more,
        ),
      )
]

-- What fits and is not there can be placed, and removing it gives the memory back.
pub remove_alloc-place_alloc :
    (a : MemAlloc) (m : Memory)
    → m.avail_capacity < word
    → a.size ≤ m.avail_capacity
    → find (alloc_key a.mid) m.memobj_map ≡ none
    → (m' : Memory) × (place_alloc a m ≡ some (true, m')) × (remove_alloc a.mid m' ≡ some m)
unfolding place_alloc remove_alloc
remove_alloc-place_alloc a m small enough absent =
    let k = alloc_key a.mid in
    let less = sub64-eq m.avail_capacity a.size enough small in
    let back : add64 (sub64 m.avail_capacity a.size) a.size ≡ m.avail_capacity = rw less (
      add64-eq (m.avail_capacity - a.size) a.size (omega (arith, enough))
      ∙ omega (arith, enough)) in
    (
      record m {
        memobj_map = put k a m.memobj_map;
        avail_capacity = sub64 m.avail_capacity a.size;
      },
      rw (le→ltb m.avail_capacity a.size enough, absent) refl,
      rw (find-put_self k a m.memobj_map, remove_alloc, back, erase-put k a m.memobj_map absent)
          refl,
    )
