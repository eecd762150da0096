-- ===== src/Walk/Order.antt =====
-- The order in which the walk of engine/ar_context.cpp visits the nodes.
use siena_mem.Base.{
  ℕ, zero, suc, ◌+◌, ◌-◌, ◌≤◌, ◌<◌, ◌≡◌, refl, sym, ap, ◌∙◌, true, false, Option, none, some, List,
  arith, if◌then◌else◌, length, get_elem?, set, add64, add64-eq, word, ◌>>=◌, bind_congr,
  bind_assoc, get_elem?-set_self, set-set, set_same, lt_of_get_elem?, length-set, get_elem?-of_lt,
  eq→==, ne→==,
}
use mathlib.Core.Path.{subst}
use siena_mem.Walk.{Group, Walk, node_count, step_forward, Visit, visit_nodes, walk_step}

-- The walk at step `k` of the group `g`, which is the group `i`.
abbrev pub at : ℕ → ℕ → Group → Walk → Walk
at i k g w = record w {
  nodegroup_list = set w.nodegroup_list i (record g { curr_group_step = k });
  curr_group_id = i;
}

module _ {S : Type 0} (visit : Visit S) where
  -- The steps of a group that are left, `n` of them from step `k` on: in each the nodes from st_node
  -- to end_node.
  unfoldable pub visit_steps : ℕ → Group → Walk → ℕ → ℕ → S → Option S
  unfolding visit_nodes
  visit_steps i g w zero k s = some s
  visit_steps i g w (suc n) k s = do
    s' ←
        visit_nodes visit (at i k g w) (record g { curr_group_step = k }) (node_count g) g.st_node s
    visit_steps i g w n (k + 1) s'

  -- The groups that are left, `n` of them from group `i` on: of each all steps.
  unfoldable pub visit_groups : Walk → ℕ → ℕ → S → Option S
  unfolding visit_steps
  visit_groups w zero i s = some s
  visit_groups w (suc n) i s = do
    g ← get_elem? w.nodegroup_list i
    s' ← visit_steps i g w g.group_steps 0 s
    visit_groups w n (i + 1) s'

-- Every group is before its first step, and has steps.
abbrev pub AtRest : Walk → Type 0
AtRest w =
    (i : ℕ) (g : Group)
    → get_elem? w.nodegroup_list i ≡ some g
    → (g.curr_group_step ≡ 0) × (0 < g.group_steps) × (g.group_steps < word)

abbrev pub steps_at : Option Group → ℕ
steps_at none = 0
steps_at (some g) = g.group_steps

-- The steps of `n` groups from group `i` on.
abbrev pub total_steps : List Group → ℕ → ℕ → ℕ
total_steps gs zero i = 0
total_steps gs (suc n) i = steps_at (get_elem? gs i) + total_steps gs n (i + 1)

-- A walk that has come to a group, and one that has come to the end.
abbrev to_group : ℕ → Walk → Walk
to_group i w = record w { curr_group_id = i }

abbrev pub ended : Walk → Walk
ended w = record w { curr_group_id = 0; fetched_global_step = add64 w.fetched_global_step 1 }

abbrev at_step : ℕ → Group → Group
at_step k g = record g { curr_group_step = k }

-- Putting a group back at its first step gives the list as it was.
restored :
    (i : ℕ) (g : Group) (w : Walk)
    → get_elem? w.nodegroup_list i ≡ some g
    → g.curr_group_step ≡ 0
    → set w.nodegroup_list i (at_step 0 g) ≡ w.nodegroup_list
restored i g w e z =
    let same : at_step 0 g ≡ g = ap (λ (k : ℕ). at_step k g) (sym z) in
    ap (set w.nodegroup_list i) same ∙ set_same w.nodegroup_list i g e

at_start :
    (i : ℕ) (g : Group) (w : Walk)
    → get_elem? w.nodegroup_list i ≡ some g
    → g.curr_group_step ≡ 0
    → at i 0 g w ≡ to_group i w
at_start i g w e z =
    ap (λ (gs : List Group). record w { nodegroup_list = gs; curr_group_id = i })
      (restored i g w e z)

step_forward-going :
    (i k : ℕ) (g : Group) (w : Walk)
    → k + 1 < g.group_steps
    → g.group_steps < word
    → step_forward (at_step k g) (at i k g w) ≡ (at i (k + 1) g w, false)
unfolding step_forward
step_forward-going i k g w h b =
    rw
      (
        add64-eq k 1 (omega arith),
        ne→== (k + 1) g.group_steps (omega arith),
        set-set w.nodegroup_list i (at_step k g) (at_step (k + 1) g),
      )
      refl

step_forward-next :
    (i k : ℕ) (g : Group) (w : Walk)
    → get_elem? w.nodegroup_list i ≡ some g
    → g.curr_group_step ≡ 0
    → k + 1 ≡ g.group_steps
    → g.group_steps < word
    → i + 1 < length w.nodegroup_list
    → length w.nodegroup_list < word
    → step_forward (at_step k g) (at i k g w) ≡ (to_group (i + 1) w, false)
unfolding step_forward
step_forward-next i k g w e z h b l c =
    rw
      (
        add64-eq k 1 (omega arith),
        eq→== (k + 1) g.group_steps h,
        length-set w.nodegroup_list i (at_step k g),
        add64-eq i 1 (omega arith),
        ne→== (i + 1) (length w.nodegroup_list) (omega arith),
        set-set w.nodegroup_list i (at_step k g) (at_step 0 g),
        restored i g w e z,
      )
      refl

step_forward-done :
    (i k : ℕ) (g : Group) (w : Walk)
    → get_elem? w.nodegroup_list i ≡ some g
    → g.curr_group_step ≡ 0
    → k + 1 ≡ g.group_steps
    → g.group_steps < word
    → i + 1 ≡ length w.nodegroup_list
    → length w.nodegroup_list < word
    → step_forward (at_step k g) (at i k g w) ≡ (ended w, true)
unfolding step_forward
step_forward-done i k g w e z h b l c =
    rw
      (
        add64-eq k 1 (omega arith),
        eq→== (k + 1) g.group_steps h,
        length-set w.nodegroup_list i (at_step k g),
        add64-eq i 1 (omega arith),
        eq→== (i + 1) (length w.nodegroup_list) l,
        set-set w.nodegroup_list i (at_step k g) (at_step 0 g),
        restored i g w e z,
      )
      refl

module _ {S : Type 0} (visit : Visit S) where
  -- What is left of a global step after the group `i`, with `n` groups after it.
  abbrev finish : ℕ → ℕ → Walk → S → Option (Walk × S)
  finish n i w s = do s' ← visit_groups visit w n (i + 1) s; some (ended w, s')

  -- The same from step `k` of the group on.
  abbrev rest_of : ℕ → ℕ → ℕ → Group → Walk → S → Option (Walk × S)
  rest_of n i k g w s = visit_steps visit i g w (g.group_steps - k) k s >>= finish n i w

  -- The rest of a round, after the visits of the nodes.
  abbrev after_nodes : ℕ → ℕ → ℕ → Group → Walk → S → Option (Walk × S)
  after_nodes fuel i k g w s =
      let next = step_forward (at_step k g) (at i k g w) in
      if next.1 then some (next.0, s) else walk_step visit fuel next.0 s

  -- All of the groups from `i` on, as the rest of the group `i` at its first step.
  abbrev all_from : ℕ → ℕ → Walk → S → Option (Walk × S)
  all_from n i w s = do s' ← visit_groups visit w n i s; some (ended w, s')

  all_from_lem :
      (n i : ℕ) (g : Group) (w : Walk) (s : S)
      → get_elem? w.nodegroup_list i ≡ some g
      → all_from (suc n) i w s ≡ rest_of n i 0 g w s
  unfolding visit_groups
  all_from_lem n i g w s e =
      let last : S → Option (Walk × S) = λ s'. some (ended w, s') in
      let whole : g.group_steps ≡ g.group_steps - 0 = omega arith in
      rw e (
        bind_assoc (visit_steps visit i g w g.group_steps 0 s) (visit_groups visit w n (i + 1)) last
        ∙ ap (λ d. visit_steps visit i g w d 0 s >>= finish n i w) whole)

  round_lem :
      (fuel n i k m : ℕ) (g : Group) (w : Walk) (s : S)
      → get_elem? w.nodegroup_list i ≡ some g
      → g.group_steps - k ≡ suc m
      → ((s' : S)
          → after_nodes fuel i k g w s' ≡ (visit_steps visit i g w m (k + 1) s' >>= finish n i w))
      → walk_step visit (suc fuel) (at i k g w) s ≡ rest_of n i k g w s
  unfolding walk_step visit_steps
  round_lem fuel n i k m g w s e d h =
      let here =
        get_elem?-set_self w.nodegroup_list i (at_step k g)
          (lt_of_get_elem? w.nodegroup_list i g e) in
      let o = visit_nodes visit (at i k g w) (at_step k g) (node_count g) g.st_node s in
      rw (here, d)
        (bind_congr o (after_nodes fuel i k g w)
            (λ s'. visit_steps visit i g w m (k + 1) s' >>= finish n i w) h
          ∙ sym (bind_assoc o (visit_steps visit i g w m (k + 1)) (finish n i w)))

  walk_step-rest :
      (fuel n i k m : ℕ) (g : Group) (w : Walk) (s : S)
      → AtRest w
      → get_elem? w.nodegroup_list i ≡ some g
      → i + suc n ≡ length w.nodegroup_list
      → length w.nodegroup_list < word
      → g.group_steps ≡ k + suc m
      → suc m + total_steps w.nodegroup_list n (i + 1) ≤ fuel
      → walk_step visit fuel (at i k g w) s ≡ rest_of n i k g w s
  unfolding visit_steps visit_groups
  walk_step-rest zero n i k m g w s r e l b h f = absurd (omega arith)
  walk_step-rest (suc fuel) n i k (suc m) g w s r e l b h f =
      let (z, pos, small) = r i g e in
      let less : g.group_steps - (k + 1) ≡ suc m = omega arith in
      round_lem fuel n i k (suc m) g w s e (omega arith) (λ s'.
        rw (step_forward-going i k g w (omega arith) small) (
          walk_step-rest fuel n i (k + 1) m g w s' r e l b (omega arith) (omega arith)
          ∙ ap (λ d. visit_steps visit i g w d (k + 1) s' >>= finish n i w) less))
  walk_step-rest (suc fuel) zero i k zero g w s r e l b h f =
      let (z, pos, small) = r i g e in
      round_lem fuel zero i k zero g w s e (omega arith)
        (λ s'. rw (step_forward-done i k g w e z (omega arith) small (omega arith) b) refl)
  walk_step-rest (suc fuel) (suc n) i k zero g w s r e l b h f =
      let (z, pos, small) = r i g e in
      let (g', e') = get_elem?-of_lt w.nodegroup_list (i + 1) (omega arith) in
      let (z', pos', small') = r (i + 1) g' e' in
      let enough = ap steps_at e' in
      round_lem fuel (suc n) i k zero g w s e (omega arith) (λ s'.
        rw (step_forward-next i k g w e z (omega arith) small (omega arith) b) (
          ap (λ v. walk_step visit fuel v s') (sym (at_start (i + 1) g' w e' z'))
          ∙ walk_step-rest fuel n (i + 1) 0 (g'.group_steps - 1) g' w s' r e' (omega arith) b
              (omega arith) (omega (arith, enough))
          ∙ sym (all_from_lem n (i + 1) g' w s' e')))

-- The loop of a walk that is before its first group, each of which has steps and is before the first, ends
-- within as many rounds as the groups have steps. It visits the groups in order, the steps of each in
-- order, and in each step the nodes of the group in order, as long as no visit fails; and it leaves the
-- groups as they were, with one global step more fetched.
pub walk_step-visit_groups :
    {S : Type 0} (visit : Visit S) (fuel : ℕ) (w : Walk) (s : S)
    → AtRest w
    → w.curr_group_id ≡ 0
    → 0 < length w.nodegroup_list
    → length w.nodegroup_list < word
    → total_steps w.nodegroup_list (length w.nodegroup_list) 0 ≤ fuel
    → walk_step visit fuel w s
      ≡ (visit_groups visit w (length w.nodegroup_list) 0 s >>= (λ s'. some (ended w, s')))
walk_step-visit_groups visit fuel w s r z pos b f =
    let n = length w.nodegroup_list - 1 in
    let all : suc n ≡ length w.nodegroup_list = omega arith in
    let (g, e) = get_elem?-of_lt w.nodegroup_list 0 pos in
    let (z', pos', small) = r 0 g e in
    let enough : total_steps w.nodegroup_list (suc n) 0 ≤ fuel =
      subst (λ m. total_steps w.nodegroup_list m 0 ≤ fuel) (sym all) f in
    let first = ap steps_at e in
    let here : w ≡ at 0 0 g w = ap (λ i. to_group i w) z ∙ sym (at_start 0 g w e z') in
    ap (λ v. walk_step visit fuel v s) here
    ∙ walk_step-rest visit fuel n 0 0 (g.group_steps - 1) g w s r e (omega arith) b (omega arith)
        (omega (arith, enough, first))
    ∙ sym (all_from_lem visit n 0 g w s e)
    ∙ ap (λ m. all_from visit m 0 w s) all
