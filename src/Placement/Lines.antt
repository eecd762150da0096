-- ===== src/Placement/Lines.antt =====
-- The cache lines of the data after the placement of engine/ar_config.cpp.
use siena_mem.Base.{
  ℕ, zero, suc, ◌+◌, ◌/◌, ◌%◌, ◌≤◌, ◌<◌, ◌≡◌, ◌≢◌, inl, inr, some, List, [], ◌∷◌, arith, ltb,
  Bool-cases, ltb→lt, ltb→le, get_elem?, ◌⊎◌,
}
use mathlib.Core.Path.{subst}
use siena_mem.Memory.{Memory}
use siena_mem.Placement.{Placed, Space, init_data_placement}
use siena_mem.Placement.Addresses.{span, Fits, Laid, init_data_placement-IsPlaced}

-- Whether an address lies in an allocation.
abbrev pub Within : ℕ → Placed → Type 0
Within addr p = (p.alloc.addr_st ≤ addr) × (addr < p.alloc.addr_end)

Laid-at :
    (lo hi j : ℕ) (ps : List Placed) (q : Placed)
    → Laid lo ps hi
    → get_elem? ps j ≡ some q
    → (lo ≤ q.alloc.addr_st)
      × (q.alloc.addr_st % 64 ≡ 0)
      × (q.alloc.addr_end ≡ q.alloc.addr_st + q.alloc.size)
      × (0 < q.alloc.size)
Laid-at lo hi j [] q l h = absurd (cc h)
Laid-at lo hi zero (p ∷ ps) q (a, b, c, d, l) h =
    let same : p ≡ q = cc h in
    subst
      (λ (x : Placed).
        (lo ≤ x.alloc.addr_st)
        × (x.alloc.addr_st % 64 ≡ 0)
        × (x.alloc.addr_end ≡ x.alloc.addr_st + x.alloc.size)
        × (0 < x.alloc.size))
      same (a, b, c, d)
Laid-at lo hi (suc j) (p ∷ ps) q (a, b, c, d, l) h =
    let (e, al, en, sz) = Laid-at (p.alloc.addr_st + span p.alloc.size) hi j ps q l h in
    (omega arith, al, en, sz)

Laid-separate :
    (lo hi i j : ℕ) (ps : List Placed) (p q : Placed) (x y : ℕ)
    → Laid lo ps hi
    → i < j
    → get_elem? ps i ≡ some p
    → get_elem? ps j ≡ some q
    → Within x p
    → Within y q
    → x / 64 < y / 64
Laid-separate lo hi i j [] p q x y l h e f u v = absurd (cc e)
Laid-separate lo hi i zero (r ∷ ps) p q x y l h e f u v = absurd (omega arith)
Laid-separate lo hi zero (suc j) (r ∷ ps) p q x y (a, b, c, d, l) h e f u v =
    let (s, t, w, z) = Laid-at (r.alloc.addr_st + span r.alloc.size) hi j ps q l f in
    let same : p ≡ r = cc e in let (u0, u1) = subst (Within x) same u in omega arith
Laid-separate lo hi (suc i) (suc j) (r ∷ ps) p q x y (a, b, c, d, l) h e f u v =
    Laid-separate (r.alloc.addr_st + span r.alloc.size) hi i j ps p q x y l (omega arith) e f u v

lt_or_gt : (i j : ℕ) → i ≢ j → (i < j) ⊎ (j < i)
lt_or_gt i j h = elim (Bool-cases (ltb i j)) [
  | inl e ↦ inl (ltb→lt i j e)
  | inr e ↦ let k = ltb→le i j e in inr (omega arith)
]

-- If no datum is empty and the address space holds all of them, and the placement succeeds, then
-- every allocation lies behind the first page and at the start of a cache line, and no cache line holds
-- bytes of two data.
pub init_data_placement-separate :
    (ps : List Placed) (ms : List Memory) (s : Space) (i j : ℕ) (p q : Placed) (x y : ℕ)
    → Fits 4096 ps
    → init_data_placement ps ms ≡ some s
    → get_elem? s.memobjs i ≡ some p
    → get_elem? s.memobjs j ≡ some q
    → i ≢ j
    → Within x p
    → Within y q
    → (4096 ≤ p.alloc.addr_st) × (p.alloc.addr_st % 64 ≡ 0) × (x / 64 ≢ y / 64)
init_data_placement-separate ps ms s i j p q x y f e a b ne u v =
    let l = (init_data_placement-IsPlaced ps ms s f e).laid in
    let (lo, al, en, sz) = Laid-at 4096 s.free_addr i s.memobjs p l a in
    (
      lo,
      al,
      elim (lt_or_gt i j ne) [
        | inl h ↦
            let r = Laid-separate 4096 s.free_addr i j s.memobjs p q x y l h a b u v in omega arith
        | inr h ↦
            let r = Laid-separate 4096 s.free_addr j i s.memobjs q p y x l h b a v u in omega arith
      ],
    )
