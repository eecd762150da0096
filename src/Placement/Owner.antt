-- ===== src/Placement/Owner.antt =====
-- What owns an address after the placement of engine/ar_config.cpp.
use siena_mem.Base.{
  Distinct, Distinct-put, ℕ, ◌+◌, ◌≤◌, ◌≡◌, ◌≢◌, ◌↔◌, refl, sym, ap, ◌∙◌, inl, inr, Bool, true,
  false, ◌&&◌, ◌||◌, none, some, List, [], ◌∷◌, ◌++◌, arith, if◌then◌else◌, ◌==◌, Bool-cases,
  Option-cases, ==→eq, ==→ne, eq→==, ne→==, length, find, find-put_self, find-put_ne,
}
use mathlib.Core.Path.{subst}
use siena_mem.Memory.{Memory}
use siena_mem.Placement.{
  Placed, Space, ranges_of, push_range, index_ranges, has_hms, init_data_placement, in_range,
  in_ranges, search_ranges, find_memobj,
}
use siena_mem.Placement.Addresses.{span, Fits, Laid, init_data_placement-IsPlaced}

-- Whether a datum of a memory holds an address.
abbrev pub owns : ℕ → ℕ → List Placed → Bool
owns m addr [] = false
owns m addr (p ∷ ps) =
    (p.mem == m && in_range addr (p.alloc.addr_st, p.alloc.addr_end)) || owns m addr ps

-- Whether the ranges of a memory hold an address.
abbrev holds : ℕ → ℕ → List (ℕ × List (ℕ × ℕ)) → Bool
holds m addr ranges = in_ranges addr (ranges_of (find m ranges))

if_or : (a b : Bool) → (if a then true else b) ≡ (a || b)
if_or true b = refl
if_or false b = refl

if_or_swap :
    (a b x c : Bool) → x ≡ (b || c) → (if a then true else x) ≡ (b || (if a then true else c))
if_or_swap true true x c h = refl
if_or_swap true false x c h = refl
if_or_swap false b x c h = h

or_false : (b : Bool) → (b || false) ≡ b
or_false true = refl
or_false false = refl

or_swap : (a b c : Bool) → (a || (b || c)) ≡ ((b || a) || c)
or_swap true true c = refl
or_swap true false c = refl
or_swap false true c = refl
or_swap false false c = refl

in_ranges-append :
    (addr : ℕ) (l : List (ℕ × ℕ)) (t : ℕ × ℕ)
    → in_ranges addr (l ++ t ∷ []) ≡ (in_range addr t || in_ranges addr l)
unfolding in_ranges
in_ranges-append addr [] t = if_or (in_range addr t) false
in_ranges-append addr (u ∷ l) t =
    if_or_swap (in_range addr u) (in_range addr t) _ _ (in_ranges-append addr l t)

holds-push_range_self :
    (addr k : ℕ) (t : ℕ × ℕ) (ranges : List (ℕ × List (ℕ × ℕ)))
    → holds k addr (push_range k t ranges) ≡ (in_range addr t || holds k addr ranges)
unfolding push_range
holds-push_range_self addr k t ranges =
    let old = ranges_of (find k ranges) in
    ap (λ o. in_ranges addr (ranges_of o)) (find-put_self k (old ++ t ∷ []) ranges)
    ∙ in_ranges-append addr old t

holds-push_range :
    (m addr k : ℕ) (t : ℕ × ℕ) (ranges : List (ℕ × List (ℕ × ℕ)))
    → holds m addr (push_range k t ranges) ≡ ((k == m && in_range addr t) || holds m addr ranges)
unfolding push_range
holds-push_range m addr k t ranges = elim (Bool-cases (k == m)) [
  | inl e ↦ rw e (
      subst (λ j. holds j addr (push_range k t ranges) ≡ (in_range addr t || holds j addr ranges))
        (==→eq k m e) (holds-push_range_self addr k t ranges))
  | inr e ↦ rw e (
      ap (λ o. in_ranges addr (ranges_of o))
        (find-put_ne k m (ranges_of (find k ranges) ++ t ∷ []) ranges (λ q. ==→ne k m e (sym q))))
]

holds-index_ranges :
    (m addr : ℕ) (ps : List Placed) (ranges : List (ℕ × List (ℕ × ℕ)))
    → holds m addr (index_ranges ps ranges) ≡ (owns m addr ps || holds m addr ranges)
unfolding index_ranges
holds-index_ranges m addr [] ranges = refl
holds-index_ranges m addr (p ∷ ps) ranges =
    let t : ℕ × ℕ = (p.alloc.addr_st, p.alloc.addr_end) in
    let one = holds-push_range m addr p.mem t ranges in
    let all = holds-index_ranges m addr ps (push_range p.mem t ranges) in
    all
    ∙ ap (λ b. owns m addr ps || b) one
    ∙ or_swap (owns m addr ps) (p.mem == m && in_range addr t) (holds m addr ranges)

Distinct-index_ranges :
    (ps : List Placed) (ranges : List (ℕ × List (ℕ × ℕ)))
    → Distinct ranges
    → Distinct (index_ranges ps ranges)
unfolding index_ranges push_range
Distinct-index_ranges [] ranges d = d
Distinct-index_ranges (p ∷ ps) ranges d = Distinct-index_ranges ps _ (
    Distinct-put p.mem (ranges_of (find p.mem ranges) ++ (p.alloc.addr_st, p.alloc.addr_end) ∷ [])
      ranges d)

search_ranges-none :
    (addr m : ℕ) (ranges : List (ℕ × List (ℕ × ℕ)))
    → search_ranges addr ranges ≡ none
    → holds m addr ranges ≡ false
unfolding search_ranges find in_ranges
search_ranges-none addr m [] e = refl
search_ranges-none addr m (r ∷ ranges) e = elim (Bool-cases (in_ranges addr r.1)) [
  | inl h ↦ absurd (cc (rw h at e))
  | inr h ↦ elim (Bool-cases (m == r.0)) [
    | inl k ↦ rw k h
    | inr k ↦ rw k (search_ranges-none addr m ranges (rw h at e))
  ]
]

holds-here :
    (addr m : ℕ) (r : ℕ × List (ℕ × ℕ)) (ranges : List (ℕ × List (ℕ × ℕ)))
    → r.0 ≡ m
    → holds m addr (r ∷ ranges) ≡ in_ranges addr r.1
unfolding find
holds-here addr m r ranges e = rw (eq→== m r.0 (sym e)) refl

search_ranges-some :
    (addr m : ℕ) (ranges : List (ℕ × List (ℕ × ℕ)))
    → Distinct ranges
    → search_ranges addr ranges ≡ some m
    → holds m addr ranges ≡ true
unfolding search_ranges find in_ranges
search_ranges-some addr m [] d e = absurd (cc e)
search_ranges-some addr m (r ∷ ranges) (d, ds) e = elim (Bool-cases (in_ranges addr r.1)) [
  | inl h ↦ let found : some r.0 ≡ some m = rw h at e in holds-here addr m r ranges (cc found) ∙ h
  | inr h ↦
      let ih = search_ranges-some addr m ranges ds (rw h at e) in
      elim (Bool-cases (m == r.0)) [
        | inl k ↦
            let empty : holds m addr ranges ≡ false =
              ap (λ j. holds j addr ranges) (==→eq m r.0 k)
              ∙ ap (λ o. in_ranges addr (ranges_of o)) d in
            absurd (cc (sym ih ∙ empty))
        | inr k ↦ rw k ih
      ]
]

-- The memory of an address is the only one.
owns-above :
    (lo hi m addr : ℕ) (ps : List Placed) → Laid lo ps hi → owns m addr ps ≡ true → lo ≤ addr
owns-above lo hi m addr [] l h = absurd (cc h)
owns-above lo hi m addr (p ∷ ps) (a, b, c, d, l) h =
    let ih = owns-above (p.alloc.addr_st + span p.alloc.size) hi m addr ps l in ground arith

owns-same :
    (lo hi m k addr : ℕ) (ps : List Placed)
    → Laid lo ps hi
    → owns m addr ps ≡ true
    → owns k addr ps ≡ true
    → m ≡ k
owns-same lo hi m k addr [] l h g = absurd (cc h)
owns-same lo hi m k addr (p ∷ ps) (a, b, c, d, l) h g =
    let ih = owns-same (p.alloc.addr_st + span p.alloc.size) hi m k addr ps l in
    let above_m = owns-above (p.alloc.addr_st + span p.alloc.size) hi m addr ps l in
    let above_k = owns-above (p.alloc.addr_st + span p.alloc.size) hi k addr ps l in ground arith

-- If there are several memories, no datum is empty and the address space holds all of them, and the
-- placement succeeds, then find_memobj gives a memory for an address exactly if a datum on that memory
-- holds the address; for an address that no datum holds it panics.
pub find_memobj-owns :
    (ps : List Placed) (ms : List Memory) (s : Space) (addr m : ℕ)
    → Fits 4096 ps
    → length ms ≢ 1
    → init_data_placement ps ms ≡ some s
    → (find_memobj addr s ≡ some m) ↔ (owns m addr s.memobjs ≡ true)
unfolding find_memobj has_hms find in_ranges
find_memobj-owns ps ms s addr m f many e =
    let i = init_data_placement-IsPlaced ps ms s f e in
    let hms : has_hms s.memories ≡ true = rw (i.same_length, ne→== (length ms) 1 many) refl in
    let ranges = index_ranges s.memobjs [] in
    let indexed : s.mem_alloc_map ≡ ranges = i.indexed ∙ rw hms refl in
    let found : find_memobj addr s ≡ search_ranges addr ranges = rw (hms, indexed) refl in
    let d = Distinct-index_ranges s.memobjs [] tt in
    let all : (k : ℕ) → holds k addr ranges ≡ owns k addr s.memobjs =
      λ k. holds-index_ranges k addr s.memobjs [] ∙ or_false (owns k addr s.memobjs) in
    (
      λ h. sym (all m) ∙ search_ranges-some addr m ranges d (sym found ∙ h),
      λ h. elim (Option-cases (search_ranges addr ranges)) [
        | inl n ↦ absurd (cc (sym h ∙ (sym (all m) ∙ search_ranges-none addr m ranges n)))
        | inr (k, n) ↦
            let other = sym (all k) ∙ search_ranges-some addr k ranges d n in
            let same = owns-same 4096 s.free_addr k m addr s.memobjs i.laid other h in
            found ∙ n ∙ ap some same
      ],
    )
