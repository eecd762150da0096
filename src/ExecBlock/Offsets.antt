-- ===== src/ExecBlock/Offsets.antt =====
-- engine/ar_execblock.cpp: ExecBlock::init_offsets, one walk through all groups of a block. num_ops of the
-- groups, which the walk does not read, is a list of its own here. `none` is as in the walk.
use siena_mem.Base.{
  ℕ, Option, none, some, List, [], ◌∷◌, ◌==◌, if◌then◌else◌, length, get_elem?, get_or, set, add64,
  mul64, ◌>>=◌,
}
use siena_mem.DataNode.{DataNode}
use siena_mem.DataNode.Generators.{gen_addr}
use siena_mem.Walk.{Group, Walk, local_step, walk_step}

pub record Offsets : Type 0 where
  pub datanode_list : List DataNode
  pub num_ops : List ℕ
  pub window_size : ℕ
  pub total_ops : ℕ

-- What a node that is in `prev` adds to num_prev_ops.
abbrev pub prev_count : List Group → ℕ → DataNode → Option ℕ
prev_count groups curr_group_id p =
    if p.group_id == curr_group_id then some p.ops_step else elim (get_elem? groups p.group_id) [
      | none ↦ none
      | some g ↦ some (mul64 p.ops_step g.group_steps)
    ]

-- The loop over node.prev, from what num_prev_ops holds.
unfoldable pub prev_ops : List DataNode → List Group → ℕ → List ℕ → ℕ → Option ℕ
prev_ops nodes groups curr_group_id [] acc = some acc
prev_ops nodes groups curr_group_id (id ∷ ids) acc = do
  p ← get_elem? nodes id
  k ← prev_count groups curr_group_id p
  prev_ops nodes groups curr_group_id ids (add64 acc k)

-- The body of the loop over the nodes of a group. The flops per access are a double in the source, and total_ops is
-- rounded down at each node; here they are whole, and total_ops is a word.
unfoldable pub offset_node : ℕ → Walk → Group → ℕ → Offsets → Option Offsets
unfolding prev_ops
offset_node draw w group node_id s = do
  node ← get_elem? s.datanode_list node_id
  addrs ← gen_addr draw node (local_step group w)
  let ops = length addrs
  let first = group.curr_group_step == 0
  let node1 : DataNode = record node {
    ops_step = ops;
    offset = if first then s.window_size else node.offset;
  }
  let nodes1 = set s.datanode_list node_id node1
  let i = w.curr_group_id
  prev ←
      (if first
        then prev_ops nodes1 w.nodegroup_list i node.prev node.num_prev_ops
        else some node.num_prev_ops)
  some (record {
    datanode_list = set nodes1 node_id (record node1 { num_prev_ops = prev });
    num_ops = if first then set s.num_ops i (add64 (get_or s.num_ops i 0) ops) else s.num_ops;
    window_size = add64 s.window_size ops;
    total_ops = add64 s.total_ops (mul64 ops (add64 1 node.comp));
  })

-- init_offsets of a block with these groups and nodes.
unfoldable pub init_offsets : ℕ → ℕ → ℕ → List Group → List ℕ → List DataNode → Option Offsets
unfolding walk_step offset_node
init_offsets fuel draw global_control groups num_ops nodes = do
  r ←
      walk_step (offset_node draw) fuel
        (record { nodegroup_list = groups; curr_group_id = 0; fetched_global_step = 0 })
        (record { datanode_list = nodes; num_ops = num_ops; window_size = 0; total_ops = 0 })
  some (record r.1 { total_ops = mul64 r.1.total_ops global_control })
