-- ===== src/Engine/Warm.antt =====
-- The warm-up of Engine::exec_node_longstep in engine/ar_engine.cpp: Context::warmup of each thread in turn, until all
-- steps of all threads are fetched.
use siena_mem.Base.{
  ℕ, zero, suc, ◌+◌, ◌-◌, ◌≤◌, ◌<◌, ◌≡◌, refl, sym, ap, ◌∙◌, inl, inr, Bool, false, Option, some,
  List, [], ◌∷◌, arith, ltb, ◌==◌, length, word, add64-eq, ◌>>=◌, Bool-cases, ltb→lt, ltb→le,
  lt→ltb, le→ltb, eq→==,
}
use mathlib.Core.Path.{subst}
use siena_mem.DataNode.{DataNode, OpType}
use siena_mem.Walk.{Group, Walk, walk_step}
use siena_mem.Walk.Order.{AtRest, ended, total_steps, visit_groups, walk_step-visit_groups}
use siena_mem.ExecBlock.Window.{first_walk}
use siena_mem.Thread.{Thread, warm_node, warmup}
use siena_mem.Engine.Count.{as_nat, count_done-add}
use siena_mem.Engine.Loop.{Pass, with_caches, count_done, warm_pass, warm_loop}

-- The global steps that a thread still has to fetch.
abbrev pub left : {C : Type 0} → Thread C → ℕ
left t = t.global_control_max - t.walk.fetched_global_step

-- A thread of a block with these nodes and groups, between two global steps.
pub record IsWarm {C : Type 0} (nodes : List DataNode) (groups : List Group) (t : Thread C)
    : Type 0 where
  pub nodes_same : t.datanode_list ≡ nodes
  pub groups_same : t.walk.nodegroup_list ≡ groups
  pub first_group : t.walk.curr_group_id ≡ 0
  pub in_share : t.walk.fetched_global_step ≤ t.global_control_max
  pub small : t.global_control_max < word

abbrev pub AllWarm : {C : Type 0} → List DataNode → List Group → List (Thread C) → Type 0
AllWarm nodes groups [] = Unit
AllWarm nodes groups (t ∷ ts) = IsWarm nodes groups t × AllWarm nodes groups ts

-- Every thread has at most `r` steps left.
abbrev pub AllWithin : {C : Type 0} → ℕ → List (Thread C) → Type 0
AllWithin r [] = Unit
AllWithin r (t ∷ ts) = (left t ≤ r) × AllWithin r ts

-- How many threads have steps left.
abbrev pub busy : {C : Type 0} → List (Thread C) → ℕ
busy [] = 0
busy (t ∷ ts) = as_nat (ltb 0 (left t)) + busy ts

-- In every global step every generator is defined and no lookup fails.
abbrev pub Defined :
    {C : Type 0} → (ℕ → ℕ → OpType → C → Option C) → ℕ → List DataNode → List Group → Type 0
Defined {C} lookup draw nodes groups =
    (tid : ℕ) (w : Walk) (c : C)
    → w.nodegroup_list ≡ groups
    → (c' : C) × (visit_groups (warm_node (lookup tid) draw nodes) w (length w.nodegroup_list) 0 c
        ≡ some c')

module _ {C : Type 0} (lookup : ℕ → ℕ → OpType → C → Option C) (fuel draw : ℕ)
    (nodes : List DataNode) (groups : List Group) (defined : Defined lookup draw nodes groups)
    (at_rest : AtRest (first_walk groups)) (has_groups : 0 < length groups)
    (few_groups : length groups < word) (enough : total_steps groups (length groups) 0 ≤ fuel) where
  -- A thread with its next step fetched.
  abbrev warmed : C → Thread C → Thread C
  warmed c t = record t { walk = ended t.walk; ctx = record t.ctx { l1 = c } }

  warmup-left :
      (tid : ℕ) (t : Thread C)
      → IsWarm nodes groups t
      → t.walk.fetched_global_step < t.global_control_max
      → (c : C) × (warmup (lookup tid) fuel draw t
          ≡ some (warmed c t, (ended t.walk).fetched_global_step == t.global_control_max))
  unfolding warmup
  warmup-left tid t i more =
      let visit = warm_node (lookup tid) draw t.datanode_list in
      let n = length t.walk.nodegroup_list in
      let rest = subst (λ gs. AtRest (first_walk gs)) (sym i.groups_same) at_rest in
      let sizes = ap length i.groups_same in
      let total : total_steps t.walk.nodegroup_list n 0 ≤ fuel =
        subst (λ gs. total_steps gs (length gs) 0 ≤ fuel) (sym i.groups_same) enough in
      let (c, run) =
        subst
          (λ (ns : List DataNode).
            (c : C) × (visit_groups (warm_node (lookup tid) draw ns) t.walk n 0 t.ctx.l1 ≡ some c))
          (sym i.nodes_same) (defined tid t.walk t.ctx.l1 i.groups_same) in
      let walked : walk_step visit fuel t.walk t.ctx.l1 ≡ some (ended t.walk, c) =
        walk_step-visit_groups visit fuel t.walk t.ctx.l1 rest i.first_group (omega (arith, sizes))
          (omega (arith, sizes)) total
        ∙ ap (λ o. o >>= (λ s'. some (ended t.walk, s'))) run in
      (
        c,
        rw
            (
              lt→ltb t.walk.fetched_global_step t.global_control_max more,
              eq→== t.walk.curr_group_id 0 i.first_group,
              walked,
            )
            refl,
      )

  warmup-none_left :
      (tid : ℕ) (t : Thread C)
      → t.global_control_max ≤ t.walk.fetched_global_step
      → warmup (lookup tid) fuel draw t ≡ some (t, false)
  unfolding warmup
  warmup-none_left tid t h = rw (le→ltb t.walk.fetched_global_step t.global_control_max h) refl

  -- Either way: the thread after it, which has a step less to fetch if it had one.
  record Warmed (tid : ℕ) (t : Thread C) : Type 0 where
    after : Thread C
    done : Bool
    run : warmup (lookup tid) fuel draw t ≡ some (after, done)
    warm : IsWarm nodes groups after
    less : left after ≡ left t - 1
    counted : as_nat done + as_nat (ltb 0 (left after)) ≡ as_nat (ltb 0 (left t))

  warmup_lem : (tid : ℕ) (t : Thread C) → IsWarm nodes groups t → Warmed tid t
  warmup_lem tid t i = elim (Bool-cases (ltb t.walk.fetched_global_step t.global_control_max)) [
    | inl q ↦
        let more = ltb→lt t.walk.fetched_global_step t.global_control_max q in
        let (c, run) = warmup-left tid t i more in
        let next = add64-eq t.walk.fetched_global_step 1 (omega (arith, more, i.small)) in
        record {
          after = warmed c t;
          done = (ended t.walk).fetched_global_step == t.global_control_max;
          run = run;
          warm = record {
            nodes_same = i.nodes_same;
            groups_same = i.groups_same;
            first_group = refl;
            in_share = omega (arith, next, more);
            small = i.small;
          };
          less = omega (arith, next);
          counted = ground (arith, next, more);
        }
    | inr q ↦
        let over = ltb→le t.walk.fetched_global_step t.global_control_max q in
        record {
          after = t;
          done = false;
          run = warmup-none_left tid t over;
          warm = i;
          less = omega (arith, over);
          counted = ground (arith, over);
        }
  ]

  warm_pass_lem :
      (tid : ℕ) (ts : List (Thread C)) (c : C) (finished r : ℕ)
      → AllWarm nodes groups ts
      → AllWithin r ts
      → finished + busy ts < word
      → (p : Pass C) × (warm_pass lookup fuel draw tid ts c finished ≡ some p)
        × AllWarm nodes groups p.threads
        × AllWithin (r - 1) p.threads
        × (p.num_finished_threads + busy p.threads ≡ finished + busy ts)
        × (length p.threads ≡ length ts)
  unfolding warm_pass
  warm_pass_lem tid [] c finished r w b small = (
    record { threads = []; caches = c; num_finished_threads = finished; next_step = 0 },
    refl,
    tt,
    tt,
    refl,
    refl,
  )
  warm_pass_lem tid (t ∷ ts) c finished r w b small =
      let i : IsWarm nodes groups (with_caches c t) = record {
        nodes_same = w.0.nodes_same;
        groups_same = w.0.groups_same;
        first_group = w.0.first_group;
        in_share = w.0.in_share;
        small = w.0.small;
      } in
      let h = warmup_lem tid (with_caches c t) i in
      let finished' = count_done h.done finished in
      let same : finished' ≡ finished + as_nat h.done =
        count_done-add h.done finished (omega (arith, h.counted)) in
      let (p, run, warm, within, counted, sizes) =
        warm_pass_lem (tid + 1) ts h.after.ctx.l1 finished' r w.1 b.1
          (omega (arith, h.counted, same)) in
      (
        record p { threads = h.after ∷ p.threads },
        rw (h.run, run) refl,
        (h.warm, warm),
        (omega (arith, h.less, b.0), within),
        omega (arith, counted, same, h.counted),
        ap suc sizes,
      )

  AllWithin-none : (ts : List (Thread C)) → AllWithin 0 ts → busy ts ≡ 0
  AllWithin-none [] b = refl
  AllWithin-none (t ∷ ts) b = ground (arith, AllWithin-none ts)

  busy-none : (ts : List (Thread C)) → busy ts ≡ 0 → AllWithin 0 ts
  busy-none [] b = tt
  busy-none (t ∷ ts) b = ground (arith, busy-none ts)

  -- Where every generator is defined in every global step and no lookup fails, the groups can be walked
  -- through, and the threads are between two global steps: if the threads that are finished and those that have steps left are
  -- `num_threads` together, and no thread has more than `r` steps left, then the warm-up ends after at most `r` passes,
  -- with all of them finished, as many threads as before, and no step of any of them left.
  pub warm_loop-Within :
      (num_threads r : ℕ) (ts : List (Thread C)) (c : C) (finished : ℕ)
      → AllWarm nodes groups ts
      → AllWithin r ts
      → finished + busy ts ≡ num_threads
      → num_threads < word
      → (p : Pass C) × (warm_loop lookup fuel draw num_threads (suc r) ts c finished ≡ some p)
        × (p.num_finished_threads ≡ num_threads)
        × (length p.threads ≡ length ts)
        × AllWithin 0 p.threads
  unfolding warm_loop
  warm_loop-Within num_threads zero ts c finished w b e small =
      let over : num_threads ≤ finished = omega (arith, AllWithin-none ts b) in
      (
        record { threads = ts; caches = c; num_finished_threads = finished; next_step = 0 },
        rw (le→ltb finished num_threads over) refl,
        omega (arith, e, over),
        refl,
        b,
      )
  warm_loop-Within num_threads (suc r) ts c finished w b e small =
      elim (Bool-cases (ltb finished num_threads)) [
        | inl q ↦
            let (p, run, warm, within, counted, sizes) =
              warm_pass_lem 0 ts c finished (suc r) w b (omega arith) in
            let one_less : suc r - 1 ≡ r = omega arith in
            let within' = subst (λ x. AllWithin x p.threads) one_less within in
            let (p', rest, all, same, none_left) =
              warm_loop-Within num_threads r p.threads p.caches p.num_finished_threads warm within'
                (counted ∙ e) small in
            (p', rw (q, run) rest, all, same ∙ sizes, none_left)
        | inr q ↦
            let over = ltb→le finished num_threads q in
            (
              record { threads = ts; caches = c; num_finished_threads = finished; next_step = 0 },
              rw q refl,
              omega (arith, e, over),
              refl,
              busy-none ts (omega (arith, e, over)),
            )
      ]
