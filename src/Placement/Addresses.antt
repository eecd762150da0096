-- ===== src/Placement/Addresses.antt =====
-- The addresses that the placement of engine/ar_config.cpp gives.
use siena_mem.Base.{
  ℕ, ◌+◌, ◌-◌, ◌*◌, ◌/◌, ◌%◌, ◌≤◌, ◌<◌, ◌≡◌, refl, sym, ap, ◌∙◌, inl, inr, some, List, [], ◌∷◌,
  arith, if◌then◌else◌, ◌==◌, Bool-cases, length, length-set, get_elem?, word, add64, add64-eq,
  sub64, mul64, Ok, Ok-bind, Ok-some, Ok-then,
}
use mathlib.Core.Path.{subst}
use siena_mem.DataNode.{MemAlloc}
use siena_mem.Memory.{Memory, place_alloc}
use siena_mem.Placement.{
  Placed, Space, next_free, insert_placed, place_data, place_all, index_ranges, has_hms,
  init_data_placement,
}

-- The bytes of the cache lines of an allocation.
abbrev pub span : ℕ → ℕ
span size = (size - 1) / 64 * 64 + 64

-- No datum is empty, and the address space holds them all.
abbrev pub Fits : ℕ → List Placed → Type 0
Fits free [] = Unit
Fits free (p ∷ ps) =
    (0 < p.alloc.size) × (free + span p.alloc.size < word) × Fits (free + span p.alloc.size) ps

-- Allocations in the order of their addresses: each starts a cache line, ends after its bytes, and owns
-- its lines.
abbrev pub Laid : ℕ → List Placed → ℕ → Type 0
Laid lo [] hi = lo ≤ hi
Laid lo (p ∷ ps) hi =
    (lo ≤ p.alloc.addr_st)
    × (p.alloc.addr_st % 64 ≡ 0)
    × (p.alloc.addr_end ≡ p.alloc.addr_st + p.alloc.size)
    × (0 < p.alloc.size)
    × Laid (p.alloc.addr_st + span p.alloc.size) ps hi

next_free_lem :
    (free size : ℕ) → 0 < size → free + span size < word → next_free free size ≡ free + span size
unfolding next_free add64 sub64 mul64
next_free_lem free size h k = omega arith

Laid-weaken : (lo hi hi' : ℕ) (ps : List Placed) → hi ≤ hi' → Laid lo ps hi → Laid lo ps hi'
Laid-weaken lo hi hi' [] h l = omega arith
Laid-weaken lo hi hi' (p ∷ ps) h (a, b, c, d, l) =
    (a, b, c, d, Laid-weaken (p.alloc.addr_st + span p.alloc.size) hi hi' ps h l)

Laid-insert_placed :
    (lo : ℕ) (p : Placed) (ps : List Placed)
    → p.alloc.addr_st % 64 ≡ 0
    → p.alloc.addr_end ≡ p.alloc.addr_st + p.alloc.size
    → 0 < p.alloc.size
    → Laid lo ps p.alloc.addr_st
    → Laid lo (insert_placed p ps) (p.alloc.addr_st + span p.alloc.size)
unfolding insert_placed
Laid-insert_placed lo p [] a e s l = (l, a, e, s, omega arith)
Laid-insert_placed lo p (q ∷ qs) a e s (b, c, d, z, l) = elim (Bool-cases (p.name == q.name)) [
  | inl k ↦ rw k (
    b,
    c,
    d,
    z,
    Laid-weaken (q.alloc.addr_st + span q.alloc.size) p.alloc.addr_st
        (p.alloc.addr_st + span p.alloc.size) qs (omega arith) l,
  )
  | inr k ↦ rw k (b, c, d, z, Laid-insert_placed (q.alloc.addr_st + span q.alloc.size) p qs a e s l)
]

-- What a round keeps: free_addr starts a cache line and lies after all allocations.
record IsLaid (n : ℕ) (s : Space) : Type 0 where
  aligned : s.free_addr % 64 ≡ 0
  laid : Laid 4096 s.memobjs s.free_addr
  same_length : length s.memories ≡ n

place_data-IsLaid :
    (n : ℕ) (p : Placed) (s : Space)
    → IsLaid n s
    → 0 < p.alloc.size
    → s.free_addr + span p.alloc.size < word
    → Ok (λ s'. IsLaid n s' × (s'.free_addr ≡ s.free_addr + span p.alloc.size)) (place_data p s)
unfolding place_data
place_data-IsLaid n p s i h k =
    let P : Space → Type 0 = λ s'. IsLaid n s' × (s'.free_addr ≡ s.free_addr + span p.alloc.size) in
    let next = next_free_lem s.free_addr p.alloc.size h k in
    Ok-bind P (get_elem? s.memories p.mem) _ (λ m.
      let a : MemAlloc = record p.alloc { mid = length s.memobjs } in
      Ok-bind P (place_alloc a m) _ (λ r. elim (Bool-cases r.0) [
        | inr e ↦ rw e tt
        | inl e ↦
            let b : MemAlloc = record a {
              addr_st = s.free_addr;
              addr_end = add64 s.free_addr a.size;
            } in
            rw e (
              record {
                aligned = ap (λ (t : ℕ). t % 64) next ∙ omega (arith, i.aligned);
                laid =
                    subst (Laid 4096 (insert_placed (record p { alloc = b }) s.memobjs)) (sym next)
                      (Laid-insert_placed 4096 (record p { alloc = b }) s.memobjs i.aligned
                        (add64-eq s.free_addr p.alloc.size (omega arith)) h i.laid);
                same_length = length-set s.memories p.mem r.1 ∙ i.same_length;
              },
              next,
            )
      ]))

place_all-IsLaid :
    (n : ℕ) (ps : List Placed) (s : Space)
    → IsLaid n s
    → Fits s.free_addr ps
    → Ok (IsLaid n) (place_all ps s)
unfolding place_all
place_all-IsLaid n [] s i f = i
place_all-IsLaid n (p ∷ ps) s i (a, b, f) =
    Ok-then (IsLaid n) (λ s'. IsLaid n s' × (s'.free_addr ≡ s.free_addr + span p.alloc.size))
      (place_data p s) _ (place_data-IsLaid n p s i a b)
      (λ s' (j, e). place_all-IsLaid n ps s' j (subst (λ k. Fits k ps) (sym e) f))

-- What the placement of data that fit leaves, if no memory is full.
pub record IsPlaced (n : ℕ) (s : Space) : Type 0 where
  pub laid : Laid 4096 s.memobjs s.free_addr
  pub same_length : length s.memories ≡ n
  pub indexed : s.mem_alloc_map ≡ (if has_hms s.memories then index_ranges s.memobjs [] else [])

pub init_data_placement-IsPlaced :
    (ps : List Placed) (ms : List Memory) (s : Space)
    → Fits 4096 ps
    → init_data_placement ps ms ≡ some s
    → IsPlaced (length ms) s
unfolding init_data_placement
init_data_placement-IsPlaced ps ms s f =
    Ok-some (IsPlaced (length ms)) (init_data_placement ps ms) s (
      Ok-then (IsPlaced (length ms)) (IsLaid (length ms)) (place_all ps start) _
        (place_all-IsLaid (length ms) ps start
          (record { aligned = refl; laid = omega arith; same_length = refl }) f)
        (λ s' i. record { laid = i.laid; same_length = i.same_length; indexed = refl }))
  where
    start : Space
    start = record { free_addr = 4096; memories = ms; memobjs = []; mem_alloc_map = [] }
