-- ===== src/ExecBlock/Window.antt =====
-- The window size that init_offsets of engine/ar_execblock.cpp finds.
use siena_mem.Base.{
  ℕ, ◌+◌, ◌%◌, ◌≤◌, ◌<◌, ◌≡◌, refl, ap, ◌∙◌, inl, inr, Bool, Option, some, List, arith, ◌==◌,
  if◌then◌else◌, length, get_elem?, get_or, set, add64, mul64, word, ◌>>=◌, bind-some, Bool-cases,
}
use siena_mem.DataNode.{DataNode}
use siena_mem.DataNode.Generators.{gen_addr}
use siena_mem.DataNode.Counters.{gen_addr_counted}
use siena_mem.Walk.{Group, Walk, local_step, walk_step}
use siena_mem.Walk.Order.{AtRest, ended, total_steps, visit_groups, walk_step-visit_groups}
use siena_mem.Walk.Relate.{visit_groups-Follows}
use siena_mem.ExecBlock.Offsets.{Offsets, prev_ops, offset_node, init_offsets}
use siena_mem.ExecBlock.Recount.{counted, Same, Same-set, prev_ops-Same}

-- The operations of a node at a step of its group, if its generator is defined and the nodes before it
-- exist, added up.
abbrev pub count_ops : ℕ → List DataNode → Walk → Group → ℕ → ℕ → Option ℕ
count_ops draw nodes w group node_id m = do
  node ← get_elem? nodes node_id
  addrs ← gen_addr draw node (local_step group w)
  k ← prev_ops nodes w.nodegroup_list w.curr_group_id node.prev 0
  some (m + length addrs)

-- What holds between the visits.
record Counting (nodes : List DataNode) (m : ℕ) (s : Offsets) : Type 0 where
  same : Same nodes s.datanode_list
  size : s.window_size ≡ m % word

size_lem : (size m ops m' : ℕ) → size ≡ m % word → m + ops ≡ m' → add64 size ops ≡ m' % word
unfolding add64
size_lem size m ops m' e f = omega arith

-- The node after its visit, with what it adds for the nodes before it.
abbrev visited : List ℕ → Offsets → ℕ → Walk → Group → DataNode → ℕ → Offsets
visited addrs s node_id w group node prev =
    let ops = length addrs in
    let first = group.curr_group_step == 0 in
    let nodes1 = set s.datanode_list node_id node in
    record {
      datanode_list = set nodes1 node_id (record node { num_prev_ops = prev });
      num_ops =
          if first
          then set s.num_ops w.curr_group_id (add64 (get_or s.num_ops w.curr_group_id 0) ops)
          else s.num_ops;
      window_size = add64 s.window_size ops;
      total_ops = add64 s.total_ops (mul64 ops (add64 1 node.comp));
    }

offset_node_lem :
    (draw : ℕ) (w : Walk) (group : Group) (node_id : ℕ) (s : Offsets) (node : DataNode)
    (addrs : List ℕ) (prev : ℕ)
    → get_elem? s.datanode_list node_id ≡ some node
    → gen_addr draw node (local_step group w) ≡ some addrs
    → (let node1 = record node {
      ops_step = length addrs;
      offset = if group.curr_group_step == 0 then s.window_size else node.offset;
    } in
        if group.curr_group_step == 0
        then prev_ops
            (set s.datanode_list node_id node1)
            w.nodegroup_list
            w.curr_group_id
            node.prev
            node.num_prev_ops
        else some node.num_prev_ops)
      ≡ some prev
    → offset_node draw w group node_id s
      ≡ some (
          visited addrs s node_id w group
            (record node {
              ops_step = length addrs;
              offset = if group.curr_group_step == 0 then s.window_size else node.offset;
            })
            prev)
unfolding offset_node
offset_node_lem draw w group node_id s node addrs prev found gen p = rw (found, gen, p) refl

offset_node-Counting :
    (draw : ℕ) (nodes : List DataNode) (w : Walk) (group : Group) (node_id m m' : ℕ) (s : Offsets)
    → Counting nodes m s
    → count_ops draw nodes w group node_id m ≡ some m'
    → (s' : Offsets) × (offset_node draw w group node_id s ≡ some s') × Counting nodes m' s'
offset_node-Counting draw nodes w group node_id m m' s t e =
    let (node, e1, f1) = bind-some (get_elem? nodes node_id) _ m' e in
    let (addrs, e2, f2) =
      bind-some (gen_addr draw node (local_step group w))
        (λ addrs.
          prev_ops nodes w.nodegroup_list w.curr_group_id node.prev 0
          >>= (λ k. some (m + length addrs)))
        m' f1 in
    let (k, e3, f3) =
      bind-some (prev_ops nodes w.nodegroup_list w.curr_group_id node.prev 0)
        (λ k. some (m + length addrs)) m' f2 in
    let (a, b, c, found) = t.same node_id node e1 in
    let ops = length addrs in
    let first = group.curr_group_step == 0 in
    let off = if first then s.window_size else b in
    let node1 = counted ops off c node in
    let nodes1 = set s.datanode_list node_id node1 in
    let same1 = Same-set nodes s.datanode_list node_id ops off c node t.same e1 in
    let (prev, counts) =
      prev_ops-Same nodes nodes1 w.nodegroup_list w.curr_group_id node.prev 0 c k same1 e3 in
    let gen = gen_addr_counted draw (local_step group w) a b c node ∙ e2 in
    let last : (p : ℕ) → Counting nodes m' (visited addrs s node_id w group node1 p) = λ p. record {
      same = Same-set nodes nodes1 node_id ops off p node same1 e1;
      size = size_lem s.window_size m ops m' t.size (cc f3);
    } in
    let taken : Bool → Option ℕ =
      λ x. if x then prev_ops nodes1 w.nodegroup_list w.curr_group_id node.prev c else some c in
    elim (Bool-cases first) [
      | inl q ↦ (
        visited addrs s node_id w group node1 prev,
        offset_node_lem draw w group node_id s (counted a b c node) addrs prev found gen
            (ap taken q ∙ counts),
        last prev,
      )
      | inr q ↦ (
        visited addrs s node_id w group node1 c,
        offset_node_lem draw w group node_id s (counted a b c node) addrs c found gen (ap taken q),
        last c,
      )
    ]

-- The walk before its first step.
abbrev pub first_walk : List Group → Walk
first_walk groups = record { nodegroup_list = groups; curr_group_id = 0; fetched_global_step = 0 }

abbrev first_offsets : List ℕ → List DataNode → Offsets
first_offsets num_ops nodes = record {
  datanode_list = nodes;
  num_ops = num_ops;
  window_size = 0;
  total_ops = 0;
}

-- Where there is a group, the number of groups and the steps of each fit a machine word, every group has steps
-- and is before its first, and in the first global step the generator of every node is defined and the nodes
-- before it exist: with at least as much fuel as the groups have steps, init_offsets ends with a result,
-- whose window size is the number of operations of the first global step, modulo 2 ^ 64.
pub init_offsets-window_size :
    (fuel draw global_control m : ℕ) (groups : List Group) (num_ops : List ℕ)
    (nodes : List DataNode)
    → AtRest (first_walk groups)
    → 0 < length groups
    → length groups < word
    → total_steps groups (length groups) 0 ≤ fuel
    → visit_groups (count_ops draw nodes) (first_walk groups) (length groups) 0 0 ≡ some m
    → (s : Offsets) × (init_offsets fuel draw global_control groups num_ops nodes ≡ some s)
      × (s.window_size ≡ m % word)
unfolding init_offsets
init_offsets-window_size fuel draw global_control m groups num_ops nodes rest some_groups small
      enough ops =
    let w = first_walk groups in
    let start = first_offsets num_ops nodes in
    let begun : Counting nodes 0 start = record {
      same = λ i n e. (n.ops_step, n.offset, n.num_prev_ops, e);
      size = refl;
    } in
    let n = length groups in
    let visit = offset_node draw in
    let (s, run, t) =
      visit_groups-Follows (Counting nodes) (count_ops draw nodes) visit
        (λ w g id a a' s r e. offset_node-Counting draw nodes w g id a a' s r e) w n 0 0 m start
        begun ops in
    let walked : walk_step visit fuel w start ≡ some (ended w, s) =
      walk_step-visit_groups visit fuel w start rest refl some_groups small enough
      ∙ ap (λ o. o >>= (λ s'. some (ended w, s'))) run in
    (record s { total_ops = mul64 s.total_ops global_control }, rw walked refl, t.size)
