-- ===== src/Tests/Graphs.antt =====
-- A block of two data nodes with an operation node between them: engine/ar_parse.cpp on concrete inputs.
use siena_mem.Base.{
  ℕ, zero, suc, ◌≡◌, refl, ◌+◌, Option, some, List, [], ◌<◌, ◌∷◌, arith, sub64, add64, none, ◌*◌,
  get_elem?, word,
}
use siena_mem.DataNode.{DataNode, MemAlloc, OpType, init_data_node, set_pattern, set_stride}
use siena_mem.Types.{gcd}
use siena_mem.Parse.{Requires, Resource, Trait, build_nodes, construct_graph, empty_block}
use siena_mem.Parse.Nodes.{all_asked}
use siena_mem.Parse.Construct.{construct_graph-visits}
use siena_mem.Walk.{walk_step}
use siena_mem.Walk.Order.{ended}
use siena_mem.ExecBlock.{ExecBlock, add_datanode, add_opnode}
use siena_mem.ExecBlock.Window.{first_walk}
use siena_mem.Graph.{build_execgraph}
use siena_mem.Graph.Kept.{look}
use siena_mem.Graph.Links.{name_of, prev_of, next_of, Resolves, Mirrored}
use siena_mem.Graph.Depend.{deps_of, build_execgraph-Resolves}
use siena_mem.Graph.Visits.{seen}
use siena_mem.Tests.Threads.{node}

-- The second node has three times as many accesses, and depends on the first.
abbrev second : DataNode
second = record node { name = 2; access_count = 24; dependency = 1 ∷ [] }

abbrev block : ExecBlock
block = record {
  global_control = 4;
  node_list = (0, 0) ∷ (1, 0) ∷ (0, 1) ∷ [];
  datanode_list = node ∷ second ∷ [];
  opnode_list = record { count = 48 } ∷ [];
  nodegroup_list = [];
}

abbrev memory_of : ℕ → Option ℕ
memory_of name = some (name + 10)

abbrev graph : ExecBlock
graph = record block {
  datanode_list =
      record node { next = 1 ∷ []; mem_ptr = 11; group_id = 0 }
      ∷ record second { comp = 2; prev = 0 ∷ []; mem_ptr = 12; group_id = 1 }
      ∷ [];
  nodegroup_list =
      record { st_node = 0; end_node = 0; curr_group_step = 0; group_steps = 2; num_ops = 0 }
      ∷ record { st_node = 1; end_node = 1; curr_group_step = 0; group_steps = 6; num_ops = 0 }
      ∷ [];
}

graph_lem : build_execgraph memory_of block ≡ some graph
unfolding build_execgraph sub64
graph_lem = refl

no_prev : (k : ℕ) (ps : List ℕ) → look prev_of block.datanode_list k ≡ some ps → ps ≡ []
no_prev zero ps e = cc e
no_prev (suc zero) ps e = cc e
no_prev (suc (suc k)) ps e = absurd (cc e)

no_next : (k : ℕ) (ps : List ℕ) → look next_of block.datanode_list k ≡ some ps → ps ≡ []
no_next zero ps e = cc e
no_next (suc zero) ps e = cc e
no_next (suc (suc k)) ps e = absurd (cc e)

build_execgraph-Resolves_example :
    ((k : ℕ) (ds ps : List ℕ)
      → k < 2
      → look deps_of block.datanode_list k ≡ some ds
      → look prev_of graph.datanode_list k ≡ some ps
      → Resolves (look name_of block.datanode_list) k ds ps)
    × Mirrored graph.datanode_list
build_execgraph-Resolves_example =
    build_execgraph-Resolves memory_of block graph 2 (refl, (refl, refl)) (omega arith) no_prev
      no_next graph_lem

-- The statements of a model: a load of the datum 1 by stride, flops, and a store to the datum 2 that depends on it.
abbrev datum : ℕ → MemAlloc
datum name = record {
  mid = name;
  name = name;
  addr_st = 4096;
  addr_end = 4608;
  size = 512;
  num_dims = 1;
  dim = 4 ∷ [];
  element_size = 128;
  element_num = 4;
}

abbrev memobj_map : ℕ → Option MemAlloc
memobj_map name = some (datum name)

abbrev statements : List Requires
statements =
    record {
      resource = Resource.loads;
      to_from = some 1;
      count = some 8;
      size = none;
      traits = Trait.stride none ∷ [];
    }
    ∷ record {
      resource = Resource.flops;
      to_from = none;
      count = some 48;
      size = none;
      traits = [];
    }
    ∷ record {
      resource = Resource.stores;
      to_from = some 2;
      count = some 24;
      size = some 128;
      traits = Trait.stride (some 128) ∷ Trait.dep (some 1) ∷ [];
    }
    ∷ []

abbrev stored : DataNode
stored = record node {
  op_type = OpType.store;
  name = 2;
  count = 24;
  access_count = 24;
  dependency = 1 ∷ [];
}

abbrev parsed : ExecBlock
parsed = record {
  global_control = 0;
  node_list = (0, 0) ∷ (1, 0) ∷ (0, 1) ∷ [];
  datanode_list = node ∷ stored ∷ [];
  opnode_list = record { count = 48 } ∷ [];
  nodegroup_list = [];
}

parsed_lem : build_nodes node (λ i. 0) memobj_map statements empty_block ≡ some parsed
unfolding build_nodes init_data_node set_pattern add_datanode add_opnode set_stride add64 sub64
parsed_lem = refl

abbrev constructed : ExecBlock
constructed = record parsed {
  global_control = 8;
  datanode_list =
      record node { next = 1 ∷ []; mem_ptr = 11; group_id = 0 }
      ∷ record stored { comp = 2; prev = 0 ∷ []; mem_ptr = 12; group_id = 1 }
      ∷ [];
  nodegroup_list =
      record { st_node = 0; end_node = 0; curr_group_step = 0; group_steps = 1; num_ops = 0 }
      ∷ record { st_node = 1; end_node = 1; curr_group_step = 0; group_steps = 3; num_ops = 0 }
      ∷ [];
}

constructed_lem : construct_graph node (λ i. 0) memobj_map memory_of 0 statements ≡ some constructed
unfolding construct_graph sub64 init_data_node set_pattern add_datanode add_opnode set_stride gcd
    add64
constructed_lem = refl

asked_small : (i x : ℕ) → get_elem? (all_asked statements) i ≡ some x → x < word
asked_small zero x e = let same : x ≡ 8 = cc e in omega (arith, same)
asked_small (suc zero) x e = let same : x ≡ 24 = cc e in omega (arith, same)
asked_small (suc (suc i)) x e = absurd (cc e)

construct_graph-visits_example :
    (m : ℕ) × (walk_step (seen 1) 4 (first_walk constructed.nodegroup_list) 0
      ≡ some (ended (first_walk constructed.nodegroup_list), m))
    × (m * 8 ≡ 24)
construct_graph-visits_example =
    construct_graph-visits node (λ i. 0) memobj_map memory_of statements constructed 4 1 24
      (omega arith) asked_small constructed_lem refl (omega arith)
