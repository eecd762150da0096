-- ===== src/ExecBlock.antt =====
-- engine/ar_execblock.cpp: a block of an execution graph, its list of nodes and its number of global steps.
-- `none` is an index out of range.
pub mod Control
pub mod Offsets
pub mod Recount
pub mod Window
use siena_mem.Base.{
  ◌>>=◌, ℕ, zero, suc, ◌+◌, Option, none, some, List, [], ◌∷◌, ◌++◌, ◌==◌, if◌then◌else◌, length,
  get_elem?,
}
use siena_mem.DataNode.{DataNode}
use siena_mem.Walk.{Group}
use siena_mem.Types.{gcd}

-- An OpNode, as far as a block reads it.
pub record OpNode : Type 0 where
  pub count : ℕ

-- An ExecBlock; a node of node_list is its kind, 0 for a data node, and its place in the list of the kind.
pub record ExecBlock : Type 0 where
  pub global_control : ℕ
  pub node_list : List (ℕ × ℕ)
  pub datanode_list : List DataNode
  pub opnode_list : List OpNode
  pub nodegroup_list : List Group

-- add_datanode and add_opnode
unfoldable pub add_datanode : DataNode → ExecBlock → ExecBlock
add_datanode a b = record b {
  node_list = b.node_list ++ (0, length b.datanode_list) ∷ [];
  datanode_list = b.datanode_list ++ a ∷ [];
}

unfoldable pub add_opnode : OpNode → ExecBlock → ExecBlock
add_opnode a b = record b {
  node_list = b.node_list ++ (1, length b.opnode_list) ∷ [];
  opnode_list = b.opnode_list ++ a ∷ [];
}

abbrev pub data_count : Option DataNode → Option ℕ
data_count none = none
data_count (some n) = some n.count

abbrev pub op_count : Option OpNode → Option ℕ
op_count none = none
op_count (some n) = some n.count

-- get_node(i)->get_count(), of the entry of node_list.
unfoldable pub entry_count : ExecBlock → ℕ × ℕ → Option ℕ
entry_count b (kind, i) =
    if kind == 0
    then data_count (get_elem? b.datanode_list i)
    else op_count (get_elem? b.opnode_list i)

-- The loop over the further nodes.
unfoldable pub gcd_counts : ExecBlock → ℕ → List (ℕ × ℕ) → Option ℕ
unfolding entry_count
gcd_counts b out [] = some out
gcd_counts b out (e ∷ l) = do count ← entry_count b e; gcd_counts b (gcd out count) l

-- The loop over all nodes, of which there has to be a first.
unfoldable pub common_count : ExecBlock → List (ℕ × ℕ) → Option ExecBlock
unfolding gcd_counts
common_count b [] = none
common_count b (e ∷ l) = do
  out ← entry_count b e
  g ← gcd_counts b out l
  some (record b { global_control = g })

-- set_global_control
unfoldable pub set_global_control : ℕ → ExecBlock → Option ExecBlock
unfolding common_count
set_global_control given b =
    if given == 0 then common_count b b.node_list else some (record b { global_control = given })
