-- ===== src/Graph/Visits.antt =====
-- How often a walk through the groups of a graph visits each node: what Engine::build_execgraph of
-- engine/ar_parse.cpp makes and the walks of engine/ar_context.cpp and engine/ar_execblock.cpp read.
use siena_mem.Base.{
  ℕ, zero, suc, ◌+◌, ◌*◌, ◌/◌, ◌≤◌, ◌<◌, ◌≡◌, refl, sym, ap, ◌∙◌, Option, some, List, [], ◌∷◌,
  arith, ◌==◌, if◌then◌else◌, length, get_elem?, word, ◌>>=◌, some_inj, Option-cases, inl, inr,
  lt_of_get_elem?, ◌&&◌, leb, ltb,
}
use mathlib.Core.Path.{subst}
use siena_mem.DataNode.{DataNode}
use siena_mem.Walk.{Group, Walk, Visit, node_count, visit_nodes, walk_step}
use siena_mem.Walk.Order.{
  at, ended, total_steps, AtRest, visit_steps, visit_groups, walk_step-visit_groups,
}
use siena_mem.ExecBlock.{ExecBlock}
use siena_mem.ExecBlock.Window.{first_walk}
use siena_mem.Graph.{build_execgraph}
use siena_mem.Graph.Kept.{look, read_of}
use siena_mem.Graph.Groups.{Covers, InGroup, AllReady, AllReady-get_elem?, length-Covers}
use siena_mem.Graph.Entries.{InOrder}
use siena_mem.Graph.Built.{Busy, Built, graph_entries-Built, key}

-- A visit that counts how often the node `k` is visited.
abbrev pub seen : ℕ → Visit ℕ
seen k w g id n = some (if id == k then n + 1 else n)

-- One, if `k` is one of the `n` nodes from `id` on.
abbrev visits_in : ℕ → ℕ → ℕ → ℕ
visits_in k id n = if leb id k && ltb k (id + n) then 1 else 0

visits_before : (s t k id n : ℕ) → k < id → s + t * visits_in k id n ≡ s
visits_before s t k id n h =
    let none_here : visits_in k id n ≡ 0 = ground arith in rw none_here (omega arith)

visits_inside : (s t k id n : ℕ) → id ≤ k → k < id + n → s + t * visits_in k id n ≡ s + t
visits_inside s t k id n g h =
    let one_here : visits_in k id n ≡ 1 = ground arith in rw one_here (omega arith)

visits_after : (s t k id n : ℕ) → id + n ≤ k → s + t * visits_in k id n ≡ s
visits_after s t k id n h =
    let none_here : visits_in k id n ≡ 0 = ground arith in rw none_here (omega arith)

visit_nodes-seen :
    (k : ℕ) (w : Walk) (g : Group) (n id s : ℕ)
    → visit_nodes (seen k) w g n id s ≡ some (s + visits_in k id n)
unfolding visit_nodes
visit_nodes-seen k w g zero id s = ground arith
visit_nodes-seen k w g (suc n) id s =
    visit_nodes-seen k w g n (id + 1) (if id == k then s + 1 else s) ∙ ap some (ground arith)

visit_steps-seen :
    (k i : ℕ) (g : Group) (w : Walk) (n step s : ℕ)
    → visit_steps (seen k) i g w n step s ≡ some (s + n * visits_in k g.st_node (node_count g))
unfolding visit_steps
visit_steps-seen k i g w zero step s = ap some (omega arith)
visit_steps-seen k i g w (suc n) step s =
    let h = visits_in k g.st_node (node_count g) in
    let g' : Group = record g { curr_group_step = step } in
    let once : visit_nodes (seen k) (at i step g w) g' (node_count g) g.st_node s ≡ some (s + h) =
      visit_nodes-seen k (at i step g w) g' (node_count g) g.st_node s in
    ap (λ o. o >>= visit_steps (seen k) i g w n (step + 1)) once
    ∙ visit_steps-seen k i g w n (step + 1) (s + h)
    ∙ ap some (grind arith)

-- A walk whose groups from `i` on are these.
abbrev From : Walk → ℕ → List Group → Type 0
From w i gs = (j : ℕ) → get_elem? w.nodegroup_list (i + j) ≡ get_elem? gs j

From-next : (w : Walk) (i : ℕ) (g : Group) (gs : List Group) → From w i (g ∷ gs) → From w (i + 1) gs
From-next w i g gs f j = ap (get_elem? w.nodegroup_list) (omega arith) ∙ f (suc j)

From-here :
    (w : Walk) (i : ℕ) (g : Group) (gs : List Group)
    → From w i (g ∷ gs)
    → get_elem? w.nodegroup_list i ≡ some g
From-here w i g gs f = ap (get_elem? w.nodegroup_list) (omega arith) ∙ f 0

visit_groups_cons :
    (k : ℕ) (w : Walk) (i s : ℕ) (g : Group) (gs : List Group)
    → From w i (g ∷ gs)
    → visit_groups (seen k) w (length (g ∷ gs)) i s
      ≡ visit_groups
          (seen k)
          w
          (length gs)
          (i + 1)
          (s + g.group_steps * visits_in k g.st_node (node_count g))
unfolding visit_groups
visit_groups_cons k w i s g gs f =
    rw (From-here w i g gs f, visit_steps-seen k i g w g.group_steps 0 s) refl

InGroup-le :
    (st : ℕ) (gs : List Group) (stop j k n : ℕ) → Covers st gs stop → InGroup gs j k n → st ≤ k
InGroup-le st [] stop j k n c m = absurd (cc (m.1))
InGroup-le st (g ∷ gs) stop zero k n c (h, e, a, b, d) =
    let same : h.st_node ≡ g.st_node = ap (λ (x : Group). x.st_node) (sym (some_inj g h e)) in
    omega (arith, c.0)
InGroup-le st (g ∷ gs) stop (suc j) k n c m =
    let ih = InGroup-le (g.end_node + 1) gs stop j k n c.2 m in omega arith

-- A node before the first of these groups is not visited.
visit_groups-before :
    (k st stop : ℕ) (w : Walk) (i s : ℕ) (gs : List Group)
    → Covers st gs stop
    → From w i gs
    → k < st
    → visit_groups (seen k) w (length gs) i s ≡ some s
unfolding visit_groups
visit_groups-before k st stop w i s [] c f h = refl
visit_groups-before k st stop w i s (g ∷ gs) c f h =
    visit_groups_cons k w i s g gs f
    ∙ visit_groups-before k (g.end_node + 1) stop w (i + 1)
        (s + g.group_steps * visits_in k g.st_node (node_count g)) gs c.2 (From-next w i g gs f)
        (omega arith)
    ∙ ap some (visits_before s g.group_steps k g.st_node (node_count g) (omega arith))

-- A node of one of the groups is visited in each step of the group.
visit_groups-seen :
    (k st stop : ℕ) (w : Walk) (i s j n : ℕ) (gs : List Group)
    → Covers st gs stop
    → From w i gs
    → InGroup gs j k n
    → visit_groups (seen k) w (length gs) i s ≡ some (s + n)
visit_groups-seen k st stop w i s j n [] c f m = absurd (cc (m.1))
visit_groups-seen k st stop w i s zero n (g ∷ gs) c f (h, e, a, b, d) =
    let same : g ≡ h = some_inj g h e in
    let in_g : (g.st_node ≤ k) × (k ≤ g.end_node) × (g.group_steps ≡ n) =
      subst (λ (x : Group). (x.st_node ≤ k) × (k ≤ x.end_node) × (x.group_steps ≡ n)) (sym same)
        (a, b, d) in
    visit_groups_cons k w i s g gs f
    ∙ visit_groups-before k (g.end_node + 1) stop w (i + 1)
        (s + g.group_steps * visits_in k g.st_node (node_count g)) gs c.2 (From-next w i g gs f)
        (omega (arith, in_g.1))
    ∙ ap some (
        visits_inside s g.group_steps k g.st_node (node_count g) in_g.0 (omega (arith, in_g.1))
        ∙ ap (λ x. s + x) in_g.2)
visit_groups-seen k st stop w i s (suc j) n (g ∷ gs) c f m =
    let later = InGroup-le (g.end_node + 1) gs stop j k n c.2 m in
    visit_groups_cons k w i s g gs f
    ∙ visit_groups-seen k (g.end_node + 1) stop w (i + 1)
        (s + g.group_steps * visits_in k g.st_node (node_count g)) j n gs c.2 (From-next w i g gs f)
        m
    ∙ ap (λ x. some (x + n)) (visits_after s g.group_steps k g.st_node (node_count g) (omega arith))

pub look-some :
    (nodes : List DataNode) (k c : ℕ)
    → look (λ n. n.access_count) nodes k ≡ some c
    → (n : DataNode) × (get_elem? nodes k ≡ some n) × (n.access_count ≡ c)
look-some nodes k c e = elim (Option-cases (get_elem? nodes k)) [
  | inl q ↦ absurd (cc (sym (ap (read_of (λ n. n.access_count)) q) ∙ e))
  | inr (n, q) ↦ (n, q, some_inj n.access_count c (sym (ap (read_of (λ n. n.access_count)) q) ∙ e))
]

module _ (mem_of : ℕ → Option ℕ) (b b' : ExecBlock) (stop : ℕ) (o : InOrder 0 b.node_list stop)
    (small : stop < word) (empty : b.nodegroup_list ≡ []) (busy : Busy b)
    (built : build_execgraph mem_of b ≡ some b') where
  pub built_lem : Built b stop b'
  unfolding build_execgraph
  built_lem =
      graph_entries-Built mem_of b 0 stop b.node_list b b' o small
        (record {
          grouped = record {
            covers = subst (λ gs. Covers 0 gs 0) (sym empty) refl;
            placed = λ k i c h e. absurd (omega arith);
          };
          control = refl;
          accesses = λ i. refl;
          ready = λ q. subst AllReady (sym empty) tt;
        })
        built

  pub build_execgraph-AtRest : AtRest (first_walk b'.nodegroup_list)
  build_execgraph-AtRest i g e = AllReady-get_elem? b'.nodegroup_list i g (built_lem.ready busy) e

  pub build_execgraph-few : length b'.nodegroup_list < word
  build_execgraph-few =
      omega (arith, length-Covers 0 b'.nodegroup_list stop built_lem.grouped.covers)

  -- On a block without groups whose data nodes stand in the order of node_list, fewer than 2 ^ 64, each with an access
  -- in every global step and fewer than 2 ^ 64 accesses: if build_execgraph succeeds, then the walk through one global
  -- step of its groups ends within as many rounds as the groups have steps, leaves the groups as they were, and visits
  -- each data node access_count / global_control times.
  pub build_execgraph-visits :
      (fuel k c : ℕ)
      → k < stop
      → look (λ n. n.access_count) b.datanode_list k ≡ some c
      → total_steps b'.nodegroup_list (length b'.nodegroup_list) 0 ≤ fuel
      → walk_step (seen k) fuel (first_walk b'.nodegroup_list) 0
        ≡ some (ended (first_walk b'.nodegroup_list), c / b.global_control)
  build_execgraph-visits fuel k c inside found enough =
      let t = built_lem in
      let gs = b'.nodegroup_list in
      let w = first_walk gs in
      let (n, e, q) = look-some b'.datanode_list k c (t.accesses k ∙ found) in
      let here : look key b'.datanode_list k ≡ some (n.group_id, c) =
        ap (read_of key) e ∙ ap (λ x. some (n.group_id, x)) q in
      let m = t.grouped.placed k n.group_id c inside here in
      let some_group : 0 < length gs = omega (arith, lt_of_get_elem? gs n.group_id m.0 m.1) in
      walk_step-visit_groups (seen k) fuel w 0 build_execgraph-AtRest refl some_group
        build_execgraph-few enough
      ∙ ap (λ o. o >>= (λ s'. some (ended w, s')))
          (visit_groups-seen k 0 stop w 0 0 n.group_id (c / b'.global_control) gs t.grouped.covers
            (λ j. ap (get_elem? gs) (omega arith)) m)
      ∙ ap (λ x. some (ended w, x)) (omega (arith, ap (λ x. c / x) t.control))
