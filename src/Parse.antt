-- ===== src/Parse.antt =====
-- engine/ar_parse.cpp: Engine::build_nodes and Engine::parse_memtraits, which make the nodes of a block from the
-- statements of a model, and Engine::construct_graph. The statements are trees of the Aspen library: here they are
-- what its accessors and the evaluation of its expressions give, and a number stands for each name. `none` is an
-- exception, a PANIC, a failed assertion, or a null pointer that is followed. The sum of the bytes of a block and the
-- field bcell, which no other code reads, are left out.
pub mod Nodes
pub mod Construct
use siena_mem.Base.{
  ℕ, Bool, true, false, ◌&&◌, ◌||◌, Option, none, some, List, [], ◌∷◌, ◌++◌, ltb, leb, ◌==◌,
  if◌then◌else◌, ◌>>=◌,
}
use siena_mem.DataNode.{
  MemAlloc, DataNode, OpType, AccessPattern, init_data_node, set_pattern, set_tile, set_stride,
  set_stride_offset, dim_at,
}
use siena_mem.ExecBlock.{ExecBlock, OpNode, add_datanode, add_opnode, set_global_control}
use siena_mem.Graph.{build_execgraph}

-- A trait, by its name, with its value or its list of values. A value of `dep` is a name if it is an identifier.
pub data Trait : Type 0 where
  stride offset random cdf ghostcell : Option ℕ → Trait
  stencil3p stencil4p stencil5p stencil8p stencil9p stencil26p stencil27p transpose : Trait
  tile conv : List ℕ → Trait
  compose unknown : Trait
  dep : Option ℕ → Trait
  deps : List (Option ℕ) → Trait

-- What a statement requires.
pub data Resource : Type 0 where
  flops loads stores other : Resource

-- A statement that requires a resource: the name of the datum, which can be blank, and the count and the size, if any.
pub record Requires : Type 0 where
  pub resource : Resource
  pub to_from : Option ℕ
  pub count : Option ℕ
  pub size : Option ℕ
  pub traits : List Trait

abbrev pub value_or : Option ℕ → ℕ → ℕ
value_or none d = d
value_or (some v) d = v

-- The assertions on a tile.
abbrev pub tile_fits : ℕ → ℕ → ℕ → ℕ → DataNode → Bool
tile_fits dir x y z a =
    leb x (dim_at a 0)
    && (leb a.num_dims 1 || leb y (dim_at a 1))
    && (leb a.num_dims 2 || leb z (dim_at a 2))
    && ltb 0 x
    && ltb 0 y
    && ltb 0 z
    && ltb dir a.num_dims

unfoldable pub parse_tile : (ℕ → ℕ) → List ℕ → DataNode → Option DataNode
parse_tile beyond (dir ∷ x ∷ y ∷ z ∷ []) a =
    if tile_fits dir x y z a then set_tile beyond dir x y z a else none
parse_tile beyond _ a = none

-- The extents of a window, which the source narrows to int: they are taken to be below 2 ^ 31.
abbrev pub conv_fits : ℕ → ℕ → DataNode → Bool
conv_fits x y a = leb x (dim_at a 0) && leb y (dim_at a 1)

unfoldable pub parse_conv : (ℕ → ℕ) → List ℕ → DataNode → Option DataNode
parse_conv beyond (x ∷ y ∷ []) a = if conv_fits x y a then set_tile beyond 0 x y 1 a else none
parse_conv beyond _ a = none

abbrev pub depend_on : ℕ → DataNode → DataNode
depend_on name a = record a { dependency = a.dependency ++ name ∷ [] }

-- The list of a `dep`, each of which has to be the name of a datum.
unfoldable pub parse_deps : (ℕ → Option MemAlloc) → List (Option ℕ) → DataNode → Option DataNode
parse_deps memobj_map [] a = some a
parse_deps memobj_map (v ∷ vs) a = do
  name ← v
  obj ← memobj_map name
  parse_deps memobj_map vs (depend_on name a)

-- The body of the loop of parse_memtraits; `beyond` is as in set_tile.
unfoldable pub parse_trait : (ℕ → ℕ) → (ℕ → Option MemAlloc) → Trait → DataNode → Option DataNode
unfolding parse_tile parse_conv parse_deps
parse_trait beyond memobj_map (stride v) a = do
  a1 ← set_pattern AccessPattern.stride a
  some (set_stride (value_or v a.access_size) a1)
parse_trait beyond memobj_map (offset none) a = none
parse_trait beyond memobj_map (offset (some off)) a = some (set_stride_offset off a)
parse_trait beyond memobj_map (random v) a = do
  a1 ← set_pattern AccessPattern.random a
  some (record a1 { dist_func = value_or v a1.dist_func })
parse_trait beyond memobj_map (cdf none) a = none
parse_trait beyond memobj_map (cdf (some v)) a = some (record a { dist_func = v })
parse_trait beyond memobj_map (ghostcell v) a = set_pattern AccessPattern.ghostcell a
parse_trait beyond memobj_map stencil3p a = set_pattern AccessPattern.stencil3p a
parse_trait beyond memobj_map stencil4p a = set_pattern AccessPattern.stencil4p a
parse_trait beyond memobj_map stencil5p a = set_pattern AccessPattern.stencil5p a
parse_trait beyond memobj_map stencil8p a = set_pattern AccessPattern.stencil8p a
parse_trait beyond memobj_map stencil9p a = set_pattern AccessPattern.stencil9p a
parse_trait beyond memobj_map stencil26p a = set_pattern AccessPattern.stencil26p a
parse_trait beyond memobj_map stencil27p a = set_pattern AccessPattern.stencil27p a
parse_trait beyond memobj_map transpose a = set_pattern AccessPattern.transpose a
parse_trait beyond memobj_map (tile vs) a = do
  a1 ← set_pattern AccessPattern.tile a
  parse_tile beyond vs a1
parse_trait beyond memobj_map (conv vs) a = do
  a1 ← set_pattern AccessPattern.conv a
  parse_conv beyond vs a1
parse_trait beyond memobj_map compose a = none
parse_trait beyond memobj_map unknown a = some a
parse_trait beyond memobj_map (dep none) a = some a
parse_trait beyond memobj_map (dep (some name)) a = some (depend_on name a)
parse_trait beyond memobj_map (deps vs) a = parse_deps memobj_map vs a

unfoldable pub parse_memtraits :
    (ℕ → ℕ) → (ℕ → Option MemAlloc) → List Trait → DataNode → Option DataNode
unfolding parse_trait
parse_memtraits beyond memobj_map [] a = some a
parse_memtraits beyond memobj_map (t ∷ ts) a = do
  a1 ← parse_trait beyond memobj_map t a
  parse_memtraits beyond memobj_map ts a1

-- A statement that loads or stores; `raw` is as in init_data_node. The node joins the block before its traits are read,
-- which change it in its place.
unfoldable pub build_data :
    DataNode → (ℕ → ℕ) → (ℕ → Option MemAlloc) → OpType → Requires → ExecBlock → Option ExecBlock
unfolding parse_memtraits
build_data raw beyond memobj_map type r b = do
  name ← r.to_from
  access_count ← r.count
  obj ← memobj_map name
  (if access_count == 0 then some b else (do
    a ← init_data_node raw obj type access_count (value_or r.size obj.element_size)
    a1 ← parse_memtraits beyond memobj_map r.traits a
    some (add_datanode a1 b)))

-- The body of the loop of build_nodes.
unfoldable pub build_node :
    DataNode → (ℕ → ℕ) → (ℕ → Option MemAlloc) → Requires → ExecBlock → Option ExecBlock
unfolding build_data
build_node raw beyond memobj_map r b = elim r.resource [
  | flops ↦ (do count ← r.count; some (add_opnode (record { count = count }) b))
  | loads ↦ build_data raw beyond memobj_map OpType.load r b
  | stores ↦ build_data raw beyond memobj_map OpType.store r b
  | other ↦ some b
]

-- The loop over the statements that require something; the others are passed over.
unfoldable pub build_nodes :
    DataNode → (ℕ → ℕ) → (ℕ → Option MemAlloc) → List Requires → ExecBlock → Option ExecBlock
unfolding build_node
build_nodes raw beyond memobj_map [] b = some b
build_nodes raw beyond memobj_map (r ∷ rs) b = do
  b1 ← build_node raw beyond memobj_map r b
  build_nodes raw beyond memobj_map rs b1

-- A block as its constructor leaves it.
abbrev pub empty_block : ExecBlock
empty_block = record {
  global_control = 0;
  node_list = [];
  datanode_list = [];
  opnode_list = [];
  nodegroup_list = [];
}

-- construct_graph up to init_offsets, for a block whose id is not in executeblock_map, as it asserts; `given` is the parameter global_control of the model, or 0.
unfoldable pub construct_graph :
    DataNode
    → (ℕ → ℕ)
    → (ℕ → Option MemAlloc)
    → (ℕ → Option ℕ)
    → ℕ
    → List Requires
    → Option ExecBlock
unfolding build_nodes set_global_control build_execgraph
construct_graph raw beyond memobj_map mem_of given rs = do
  b ← build_nodes raw beyond memobj_map rs empty_block
  b1 ← set_global_control given b
  build_execgraph mem_of b1
