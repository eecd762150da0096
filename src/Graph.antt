-- ===== src/Graph.antt =====
-- engine/ar_parse.cpp: Engine::build_execgraph, which resolves the dependencies of the nodes of a block and
-- puts them into groups. A number stands for each name. `none` is an exception, a failed assertion, an index out of
-- range or a division by 0. The memory of a name, which alloc_mem_map and machine_memories give, is an argument.
pub mod Built
pub mod Depend
pub mod Entries
pub mod Groups
pub mod Kept
pub mod Links
pub mod Visits
use siena_mem.Base.{
  ℕ, zero, suc, ◌+◌, Option, none, some, List, [], ◌∷◌, ◌++◌, ◌==◌, if◌then◌else◌, length,
  get_elem?, set, add64, sub64, div?, mod?, ◌>>=◌,
}
use siena_mem.DataNode.{DataNode}
use siena_mem.Walk.{Group}
use siena_mem.ExecBlock.{ExecBlock}

-- The search for the latest of the first `pos` nodes that has the name.
unfoldable pub find_dep : List DataNode → ℕ → ℕ → Option ℕ
find_dep nodes name zero = none
find_dep nodes name (suc j) = do
  node ← get_elem? nodes j
  (if name == node.name then some j else find_dep nodes name j)

-- What is done with a dependency that is found: the node `k` has it before, and it has `pos` after it.
unfoldable pub link_nodes : ℕ → ℕ → ℕ → List DataNode → Option (List DataNode)
link_nodes pos k j nodes = do
  a ← get_elem? nodes k
  let nodes1 = set nodes k (record a { prev = a.prev ++ j ∷ [] })
  b ← get_elem? nodes1 j
  some (set nodes1 j (record b { next = b.next ++ pos ∷ [] }))

-- The loop over the dependencies of the node `k`.
unfoldable pub resolve_deps : ℕ → ℕ → List ℕ → List DataNode → Option (List DataNode)
unfolding find_dep link_nodes
resolve_deps pos k [] nodes = some nodes
resolve_deps pos k (name ∷ names) nodes = do
  j ← find_dep nodes name pos
  nodes1 ← link_nodes pos k j nodes
  resolve_deps pos k names nodes1

-- The node at `node_pos` joins the last group, or is the first of a new one.
unfoldable pub extend_groups : ℕ → ℕ → List Group → List Group
extend_groups steps node_pos [] =
    record {
      st_node = node_pos;
      end_node = node_pos;
      curr_group_step = 0;
      group_steps = steps;
      num_ops = 0;
    }
    ∷ []
extend_groups steps node_pos (g ∷ []) =
    if steps == g.group_steps
    then record g { end_node = add64 g.end_node 1 } ∷ []
    else g
      ∷ record {
        st_node = node_pos;
        end_node = node_pos;
        curr_group_step = 0;
        group_steps = steps;
        num_ops = 0;
      }
      ∷ []
extend_groups steps node_pos (g ∷ h ∷ gs) = g ∷ extend_groups steps node_pos (h ∷ gs)

-- The case of an operation node: the data node after it gets its operations per access.
unfoldable pub op_entry : ℕ → List (ℕ × ℕ) → ExecBlock → Option ExecBlock
op_entry k [] b = none
op_entry k ((kind, j) ∷ l) b = do
  op ← get_elem? b.opnode_list k
  a ← (if kind == 0 then get_elem? b.datanode_list j else none)
  rest ← mod? op.count a.access_count
  comp ← div? op.count a.access_count
  (if rest == 0
      then some (record b { datanode_list = set b.datanode_list j (record a { comp = comp }) })
      else none)

-- The case of a data node, the `pos`-th, which stands at `k`.
unfoldable pub data_entry : (ℕ → Option ℕ) → ℕ → ℕ → ExecBlock → Option ExecBlock
unfolding resolve_deps extend_groups
data_entry mem_of pos k b = do
  a ← get_elem? b.datanode_list k
  nodes ← resolve_deps pos k a.dependency b.datanode_list
  mem ← mem_of a.name
  steps ← div? a.access_count b.global_control
  a' ← get_elem? nodes k
  let groups = extend_groups steps k b.nodegroup_list
  let a'' : DataNode = record a' { mem_ptr = mem; group_id = sub64 (length groups) 1 }
  some (record b { datanode_list = set nodes k a''; nodegroup_list = groups })

-- The loop over the nodes, of which `pos` were data nodes so far.
unfoldable pub graph_entries : (ℕ → Option ℕ) → ℕ → List (ℕ × ℕ) → ExecBlock → Option ExecBlock
unfolding op_entry data_entry
graph_entries mem_of pos [] b = some b
graph_entries mem_of pos ((kind, k) ∷ l) b = do
  b' ← (if kind == 0 then data_entry mem_of pos k b else op_entry k l b)
  graph_entries mem_of (if kind == 0 then pos + 1 else pos) l b'

unfoldable pub build_execgraph : (ℕ → Option ℕ) → ExecBlock → Option ExecBlock
unfolding graph_entries
build_execgraph mem_of b = graph_entries mem_of 0 b.node_list b
