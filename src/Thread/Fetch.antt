-- ===== src/Thread/Fetch.antt =====
-- Where a step of engine/ar_context.cpp puts its operations.
use siena_mem.Base.{
  ℕ, ◌+◌, ◌≤◌, ◌<◌, ◌≡◌, refl, ap, ◌∙◌, inl, inr, true, Option, some, List, [], ◌∷◌, arith, ltb,
  length, get_elem?, word, ◌>>=◌, length-set, Option-cases, lt→ltb, eq→==,
}
use mathlib.Core.Path.{subst}
use siena_mem.DataNode.{DataNode}
use siena_mem.DataNode.Generators.{gen_addr}
use siena_mem.Walk.{Group, Walk, local_step, walk_step}
use siena_mem.Walk.Order.{AtRest, ended, total_steps, visit_groups, walk_step-visit_groups}
use siena_mem.Walk.Relate.{visit_groups-Follows}
use siena_mem.Thread.{
  Thread, Offset, Fetched, fetched_op, next_offsets, fetch_addrs, fetch_node, fetch_global_step,
  with_fetched,
}
use siena_mem.Thread.Ring.{Wrote, Wrote-next, Wrote-none, place, place-lt, write_op}

-- What holds between the writes of a step: after `m` operations, that do not outrun the window.
record Fetching (d : ℕ) (f₀ : Fetched) (m : ℕ) (f : Fetched) : Type 0 where
  same_length : length f.window ≡ d
  exact : m ≤ d → Wrote d (place d f₀.pos) m f₀ f

module _ (d : ℕ) (f₀ : Fetched) where
  -- A window that is not empty, and whose size and load are far from the end of the words.
  record Roomy : Type 0 where
    not_empty : 0 < d
    small : d < word
    fits : f₀.win_load + d < word

  fetch_addrs-Fetching :
      (node : DataNode) (os : List Offset) (i : ℕ) (addrs : List ℕ) (m : ℕ) (f : Fetched)
      → Roomy
      → Fetching d f₀ m f
      → (f' : Fetched) × (fetch_addrs d node os i addrs f ≡ some f')
        × Fetching d f₀ (m + length addrs) f'
  unfolding fetch_addrs
  fetch_addrs-Fetching node os i [] m f r g =
      (f, refl, subst (λ n. Fetching d f₀ n f) (omega arith) g)
  fetch_addrs-Fetching node os i (addr ∷ addrs) m f r g =
      let q = place d f.pos in
      let op = fetched_op node os i addr q in
      let inside : ltb q (length f.window) ≡ true =
        lt→ltb q (length f.window) (omega (arith, place-lt d f.pos r.not_empty, g.same_length)) in
      let next : Fetching d f₀ (m + 1) (write_op q op f) = record {
        same_length = length-set f.window q op ∙ g.same_length;
        exact = λ le.
            Wrote-next d (place d f₀.pos) m op f₀ f (place-lt d f₀.pos r.not_empty) (omega arith)
              r.small r.fits g.same_length refl refl (g.exact (omega arith));
      } in
      let (f', run, done) =
        fetch_addrs-Fetching node os (i + 1) addrs (m + 1) (write_op q op f) r next in
      (f', rw inside run, subst (λ n. Fetching d f₀ n f') (omega arith) done)

-- The operations of a node at a step of its group, if its generator and its offsets are defined, added up.
abbrev pub count_node : ℕ → List DataNode → Walk → Group → ℕ → ℕ → Option ℕ
count_node draw nodes w group node_id m = do
  node ← get_elem? nodes node_id
  addrs ← gen_addr draw node (local_step group w)
  os ← next_offsets nodes w group node node.next
  some (m + length addrs)

fetch_node-Fetching :
    (d : ℕ) (f₀ : Fetched) (draw : ℕ) (nodes : List DataNode) (w : Walk) (group : Group)
    (node_id m m' : ℕ) (f : Fetched)
    → Roomy d f₀
    → Fetching d f₀ m f
    → count_node draw nodes w group node_id m ≡ some m'
    → (f' : Fetched) × (fetch_node draw d nodes w group node_id f ≡ some f') × Fetching d f₀ m' f'
unfolding fetch_node
fetch_node-Fetching d f₀ draw nodes w group node_id m m' f r g c =
    elim (Option-cases (get_elem? nodes node_id)) [
      | inl e ↦ absurd (cc (rw e at c))
      | inr (node, e) ↦ elim (Option-cases (gen_addr draw node (local_step group w))) [
        | inl e1 ↦ absurd (cc (rw (e, e1) at c))
        | inr (addrs, e1) ↦ elim (Option-cases (next_offsets nodes w group node node.next)) [
          | inl e2 ↦ absurd (cc (rw (e, e1, e2) at c))
          | inr (os, e2) ↦
              let counted : some (m + length addrs) ≡ some m' = rw (e, e1, e2) at c in
              let (f', run, done) = fetch_addrs-Fetching d f₀ node os 0 addrs m f r g in
              let same : m + length addrs ≡ m' = cc counted in
              (f', rw (fetch_node, e, e1, e2) run, subst (λ n. Fetching d f₀ n f') same done)
        ]
      ]
    ]

-- The operations of a whole global step.
abbrev pub step_ops : {C : Type 0} → ℕ → Thread C → Option ℕ
step_ops draw t =
    visit_groups (count_node draw t.datanode_list) t.walk (length t.walk.nodegroup_list) 0 0

-- The part of a thread that fetching changes, with the position at which it writes.
abbrev pub fetched_of : {C : Type 0} → ℕ → Thread C → Fetched
fetched_of pos t = record { window = t.ctx.window; win_load = t.win_load; pos = pos }

-- A thread between two global steps: its walk is before its first group, and its window is not empty and
-- has the size that ib_depth says. The sizes are far from the end of the words.
pub record IsResting {C : Type 0} (t : Thread C) : Type 0 where
  pub at_rest : AtRest t.walk
  pub first_group : t.walk.curr_group_id ≡ 0
  pub has_groups : 0 < length t.walk.nodegroup_list
  pub few_groups : length t.walk.nodegroup_list < word
  pub window_length : length t.ctx.window ≡ t.ib_depth
  pub not_empty : 0 < t.ib_depth
  pub small : t.ib_depth + t.ib_depth < word
  pub load : t.win_load ≤ t.ib_depth
  pub control : t.global_control_max < word

-- The fuel that the walk through the groups of a thread needs.
abbrev pub walk_fuel : {C : Type 0} → Thread C → ℕ
walk_fuel t = total_steps t.walk.nodegroup_list (length t.walk.nodegroup_list) 0

module _ {C : Type 0} where
  -- A thread between two global steps, with a step left whose operations fit into its window, fetches
  -- that step: the operations go to the places that follow one another from `pos` on, around the end of the
  -- window, each knows its place, every other place of the window is as it was, win_load counts them, the
  -- position that is returned is the place after the last, and one step more is fetched.
  pub fetch_global_step-Wrote :
      (fuel draw pos m : ℕ) (t : Thread C)
      → IsResting t
      → walk_fuel t ≤ fuel
      → t.walk.fetched_global_step < t.global_control_max
      → step_ops draw t ≡ some m
      → m ≤ t.ib_depth
      → (f : Fetched) × (fetch_global_step fuel draw pos t
          ≡ some (with_fetched (ended t.walk) f t, f.pos))
        × Wrote t.ib_depth (place t.ib_depth pos) m (fetched_of pos t) f
        × (length f.window ≡ t.ib_depth)
  unfolding fetch_global_step
  fetch_global_step-Wrote fuel draw pos m t i enough left ops le =
      let d = t.ib_depth in
      let n = length t.walk.nodegroup_list in
      let f = fetched_of pos t in
      let roomy : Roomy d f = record {
        not_empty = i.not_empty;
        small = omega (arith, i.small);
        fits = omega (arith, i.small, i.load);
      } in
      let visit = fetch_node draw d t.datanode_list in
      let start : Fetching d f 0 f = record {
        same_length = i.window_length;
        exact = λ z. Wrote-none d f i.not_empty;
      } in
      let (f', run, done) =
        visit_groups-Follows (Fetching d f) (count_node draw t.datanode_list) visit
          (λ w g id a a' s r e.
            fetch_node-Fetching d f draw t.datanode_list w g id a a' s roomy r e)
          t.walk n 0 0 m f start ops in
      let walked : walk_step visit fuel t.walk f ≡ some (ended t.walk, f') =
        walk_step-visit_groups visit fuel t.walk f i.at_rest i.first_group i.has_groups i.few_groups
          enough
        ∙ ap (λ o. o >>= (λ s'. some (ended t.walk, s'))) run in
      (
        f',
        rw
            (
              lt→ltb t.walk.fetched_global_step t.global_control_max left,
              eq→== t.walk.curr_group_id 0 i.first_group,
              walked,
            )
            refl,
        done.exact le,
        done.same_length,
      )
