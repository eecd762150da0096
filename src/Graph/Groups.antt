-- ===== src/Graph/Groups.antt =====
-- How extend_groups, of the loop of Engine::build_execgraph in engine/ar_parse.cpp, divides the data nodes.
use siena_mem.Base.{
  true, false, ℕ, zero, suc, ◌+◌, ◌≤◌, ◌<◌, ◌≡◌, refl, inl, inr, some, List, [], ◌∷◌, arith, ◌==◌,
  length, get_elem?, word, add64, add64-eq, sym, ap, some_inj, Bool-cases, ==→eq,
}
use mathlib.Core.Path.{subst}
use siena_mem.Walk.{Group}
use siena_mem.Graph.{extend_groups}

-- The groups hold the nodes from `st` up to `stop`, each group some, one group after the other.
abbrev pub Covers : ℕ → List Group → ℕ → Type 0
Covers st [] stop = st ≡ stop
Covers st (g ∷ gs) stop = (g.st_node ≡ st) × (st ≤ g.end_node) × Covers (g.end_node + 1) gs stop

-- The node `k` is in the group `i`, which has that many steps.
abbrev pub InGroup : List Group → ℕ → ℕ → ℕ → Type 0
InGroup gs i k steps =
    (g : Group) × (get_elem? gs i ≡ some g)
    × (g.st_node ≤ k)
    × (k ≤ g.end_node)
    × (g.group_steps ≡ steps)

pub length-Covers :
    (st : ℕ) (gs : List Group) (stop : ℕ) → Covers st gs stop → length gs + st ≤ stop
length-Covers st [] stop c = omega arith
length-Covers st (g ∷ gs) stop c =
    let ih = length-Covers (g.end_node + 1) gs stop c.2 in omega arith

module _ (steps pos : ℕ) (small : pos + 1 < word) where
  pub extend_groups-Covers :
      (st : ℕ) (gs : List Group)
      → Covers st gs pos
      → Covers st (extend_groups steps pos gs) (pos + 1)
  unfolding extend_groups
  extend_groups-Covers st [] c = (omega arith, omega arith, refl)
  extend_groups-Covers st (g ∷ []) c = ground (arith, add64-eq g.end_node 1)
  extend_groups-Covers st (g ∷ h ∷ gs) c =
      (c.0, c.1, extend_groups-Covers (g.end_node + 1) (h ∷ gs) c.2)

  -- The last group as it is extended, by either branch.
  joined :
      (g : Group)
      → (steps == g.group_steps) ≡ true
      → extend_groups steps pos (g ∷ []) ≡ record g { end_node = add64 g.end_node 1 } ∷ []
  unfolding extend_groups
  joined g q = rw q refl

  opened :
      (g : Group)
      → (steps == g.group_steps) ≡ false
      → extend_groups steps pos (g ∷ []) ≡ g ∷ extend_groups steps pos []
  unfolding extend_groups
  opened g q = rw q refl

  pub extend_groups-kept :
      (st : ℕ) (gs : List Group) (i k n : ℕ)
      → Covers st gs pos
      → InGroup gs i k n
      → InGroup (extend_groups steps pos gs) i k n
  unfolding extend_groups
  extend_groups-kept st [] i k n c m = absurd (cc (m.1))
  extend_groups-kept st (h ∷ []) (suc i) k n c m = absurd (cc (m.1))
  extend_groups-kept st (h ∷ []) zero k n c (g, e, a, b, d) =
      let same : h ≡ g = some_inj h g e in
      let in_h : (h.st_node ≤ k) × (k ≤ h.end_node) × (h.group_steps ≡ n) =
        subst (λ (x : Group). (x.st_node ≤ k) × (k ≤ x.end_node) × (x.group_steps ≡ n)) (sym same)
          (a, b, d) in
      elim (Bool-cases (steps == h.group_steps)) [
        | inl q ↦
            subst (λ (x : List Group). InGroup x zero k n) (sym (joined h q))
              (
                record h { end_node = add64 h.end_node 1 },
                refl,
                in_h.0,
                omega (arith, in_h.1, add64-eq h.end_node 1),
                in_h.2,
              )
        | inr q ↦
            subst (λ (x : List Group). InGroup x zero k n) (sym (opened h q))
              (h, refl, in_h.0, in_h.1, in_h.2)
      ]
  extend_groups-kept st (h ∷ h' ∷ gs) zero k n c m = m
  extend_groups-kept st (h ∷ h' ∷ gs) (suc i) k n c m =
      extend_groups-kept (h.end_node + 1) (h' ∷ gs) i k n c.2 m

  new_group : Group
  new_group = record {
    st_node = pos;
    end_node = pos;
    curr_group_step = 0;
    group_steps = steps;
    num_ops = 0;
  }

  pub extend_groups-pos : (gs : List Group) → 0 < length (extend_groups steps pos gs)
  unfolding extend_groups
  extend_groups-pos [] = omega arith
  extend_groups-pos (g ∷ []) = ground arith
  extend_groups-pos (g ∷ h ∷ gs) = omega arith

  -- The node at `pos` is in the last group.
  pub extend_groups-new :
      (st : ℕ) (gs : List Group) (i : ℕ)
      → Covers st gs pos
      → suc i ≡ length (extend_groups steps pos gs)
      → InGroup (extend_groups steps pos gs) i pos steps
  unfolding extend_groups new_group
  extend_groups-new st [] zero c e = (new_group, refl, omega arith, omega arith, refl)
  extend_groups-new st [] (suc i) c e = absurd (omega arith)
  extend_groups-new st (g ∷ []) i c e = elim (Bool-cases (steps == g.group_steps)) [
    | inl q ↦
        let one : i ≡ 0 = omega (arith, ap length (joined g q)) in
        subst (λ (x : List Group). InGroup x i pos steps) (sym (joined g q))
          (
            record g { end_node = add64 g.end_node 1 },
            rw one refl,
            omega arith,
            omega (arith, add64-eq g.end_node 1),
            omega (arith, ==→eq steps g.group_steps q),
          )
    | inr q ↦
        let two : i ≡ 1 = omega (arith, ap length (opened g q)) in
        subst (λ (x : List Group). InGroup x i pos steps) (sym (opened g q))
          (new_group, rw two refl, omega arith, omega arith, refl)
  ]
  extend_groups-new st (g ∷ h ∷ gs) zero c e = absurd (omega (arith, extend_groups-pos (h ∷ gs)))
  extend_groups-new st (g ∷ h ∷ gs) (suc i) c e =
      extend_groups-new (g.end_node + 1) (h ∷ gs) i c.2 (omega arith)

-- Groups that a walk can go through: before the first of some steps.
abbrev pub AllReady : List Group → Type 0
AllReady [] = Unit
AllReady (g ∷ gs) =
    (g.curr_group_step ≡ 0) × (0 < g.group_steps) × (g.group_steps < word) × AllReady gs

pub extend_groups-AllReady :
    (steps pos : ℕ) (gs : List Group)
    → 0 < steps
    → steps < word
    → AllReady gs
    → AllReady (extend_groups steps pos gs)
unfolding extend_groups
extend_groups-AllReady steps pos [] some_step small r = (refl, some_step, small, tt)
extend_groups-AllReady steps pos (g ∷ []) some_step small r = ground arith
extend_groups-AllReady steps pos (g ∷ h ∷ gs) some_step small r =
    (r.0, r.1, r.2, extend_groups-AllReady steps pos (h ∷ gs) some_step small r.3)

pub AllReady-get_elem? :
    (gs : List Group) (i : ℕ) (g : Group)
    → AllReady gs
    → get_elem? gs i ≡ some g
    → (g.curr_group_step ≡ 0) × (0 < g.group_steps) × (g.group_steps < word)
AllReady-get_elem? [] i g r e = absurd (cc e)
AllReady-get_elem? (h ∷ gs) zero g r e =
    subst (λ (x : Group). (x.curr_group_step ≡ 0) × (0 < x.group_steps) × (x.group_steps < word))
      (some_inj h g e) (r.0, r.1, r.2)
AllReady-get_elem? (h ∷ gs) (suc i) g r e = AllReady-get_elem? gs i g r.3 e
