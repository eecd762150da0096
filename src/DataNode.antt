-- ===== src/DataNode.antt =====
-- The nodes of an execution graph: engine/ar_node.h, engine/ar_dnode.h and, of engine/ar_dnode.cpp, the
-- constructor, set_pattern and set_tile. `none` is a PANIC or a failed assertion. The fields that the
-- constructor leaves uninitialised are those of the argument `raw`.
pub mod Generators
pub mod Layout
pub mod Pattern
pub mod Interior
pub mod Slices
pub mod Windows
pub mod Faults
pub mod Counters
use siena_mem.Base.{
  div?, ◌>>=◌, ℕ, zero, suc, ◌+◌, ◌/◌, Bool, true, false, ◌||◌, Option, none, some, List, [], ◌∷◌,
  ltb, leb, ◌==◌, if◌then◌else◌, get_or, add64, sub64, mul64,
}

pub data OpType : Type 0 where
  load store sp dp mul div : OpType

pub data AccessPattern : Type 0 where
  stride random ghostcell stencil3p stencil4p stencil5p stencil8p stencil9p stencil26p stencil27p :
      AccessPattern
  tile conv transpose template compose unset : AccessPattern

-- The member functions that `pattern_generator` points to.
pub data Generator : Type 0 where
  stride_generator random_generator ghostcell2d_generator ghostcell3d_generator : Generator
  stencil3p_generator stencil4p_generator stencil5p_generator stencil8p_generator : Generator
  stencil9p_generator stencil26p_generator stencil27p_generator tile2d_generator : Generator
  conv_generator : Generator

-- A MemAlloc of engine/ar_memalloc.h. Names are only compared: a number stands for each.
pub record MemAlloc : Type 0 where
  pub mid : ℕ
  pub name : ℕ
  pub addr_st : ℕ
  pub addr_end : ℕ
  pub size : ℕ
  pub num_dims : ℕ
  pub dim : List ℕ
  pub element_size : ℕ
  pub element_num : ℕ

-- A data node. `comp` is num_flops_per_access: build_execgraph stores a whole number there.
pub record DataNode : Type 0 where
  pub op_type : OpType
  pub name : ℕ
  pub count : ℕ
  pub num_prev_ops : ℕ
  pub addr_st : ℕ
  pub addr_end : ℕ
  pub size : ℕ
  pub num_dims : ℕ
  pub dim : List ℕ
  pub element_size : ℕ
  pub element_num : ℕ
  pub mem_ptr : ℕ
  pub access_count : ℕ
  pub access_size : ℕ
  pub num_cacheline_per_access : ℕ
  pub access_pattern : AccessPattern
  pub comp : ℕ
  pub dependency : List ℕ
  pub prev : List ℕ
  pub next : List ℕ
  pub pattern_generator : Option Generator
  pub local_stride : ℕ
  pub dist_func : ℕ
  pub diff0 : ℕ
  pub diff1 : ℕ
  pub diff2 : ℕ
  pub tile_dim_x : ℕ
  pub tile_dim_y : ℕ
  pub tile_dim_z : ℕ
  pub tile_dir : ℕ
  pub cropped_dim_x : ℕ
  pub cropped_dim_y : ℕ
  pub cropped_dim_z : ℕ
  pub local_tile_control : ℕ
  pub group_id : ℕ
  pub offset : ℕ
  pub ops_step : ℕ

abbrev pub cacheline_bytes : ℕ
cacheline_bytes = 64

-- The first `n` of the extents of an allocation.
unfoldable pub copy_dims : ℕ → List ℕ → List ℕ
copy_dims zero ds = []
copy_dims (suc n) [] = []
copy_dims (suc n) (d ∷ ds) = d ∷ copy_dims n ds

-- The constructor; `raw` is the storage before it runs.
unfoldable pub init_data_node : DataNode → MemAlloc → OpType → ℕ → ℕ → Option DataNode
unfolding copy_dims
init_data_node raw m type access_count access_size =
    if access_size == m.element_size
    then some (record raw {
      op_type = type;
      name = m.name;
      count = access_count;
      num_prev_ops = 0;
      addr_st = m.addr_st;
      addr_end = m.addr_end;
      size = m.size;
      num_dims = m.num_dims;
      dim = copy_dims m.num_dims m.dim;
      element_size = m.element_size;
      element_num = m.element_num;
      access_count = access_count;
      access_size = access_size;
      num_cacheline_per_access = add64 (sub64 access_size 1 / cacheline_bytes) 1;
      access_pattern = unset;
      comp = 0;
      dependency = [];
      prev = [];
      next = [];
      pattern_generator = none;
    })
    else none

-- dim[i]; set_pattern and the parser assert that the extents that are read exist.
abbrev pub dim_at : DataNode → ℕ → ℕ
dim_at n i = get_or n.dim i 0

-- diff0, diff1 and diff2, as every stencil pattern sets them.
unfoldable pub with_diffs : DataNode → Generator → DataNode
with_diffs n g = record n {
  diff0 = n.access_size;
  diff1 = mul64 (dim_at n 0) n.access_size;
  diff2 = mul64 (mul64 (dim_at n 0) (dim_at n 1)) n.access_size;
  pattern_generator = some g;
}

abbrev pub check : Bool → DataNode → Option DataNode
check true n = some n
check false n = none

-- The cases of set_pattern, on the node whose access_pattern is set.
unfoldable pub pattern_case : AccessPattern → DataNode → Option DataNode
unfolding with_diffs
pattern_case stride n = some (record n { pattern_generator = some stride_generator })
pattern_case random n = some (record n { pattern_generator = some random_generator })
pattern_case ghostcell n =
    check (n.num_dims == 2 || n.num_dims == 3)
      (with_diffs n (if n.num_dims == 2 then ghostcell2d_generator else ghostcell3d_generator))
pattern_case stencil3p n = check (n.num_dims == 3) (with_diffs n stencil3p_generator)
pattern_case stencil4p n = check (n.num_dims == 2) (with_diffs n stencil4p_generator)
pattern_case stencil5p n = check (n.num_dims == 2) (with_diffs n stencil5p_generator)
pattern_case stencil8p n = check (n.num_dims == 3) (with_diffs n stencil8p_generator)
pattern_case stencil9p n = check (leb 2 n.num_dims) (with_diffs n stencil9p_generator)
pattern_case stencil26p n = check (n.num_dims == 3) (with_diffs n stencil26p_generator)
pattern_case stencil27p n = check (n.num_dims == 3) (with_diffs n stencil27p_generator)
pattern_case tile n =
    if n.num_dims == 2
    then check (n.tile_dir == 0 || n.tile_dir == 1)
        (record n { pattern_generator = some tile2d_generator })
    else some n
pattern_case conv n = check (n.num_dims == 2) (record n {
  diff0 = n.access_size;
  diff1 = mul64 (dim_at n 0) n.access_size;
  pattern_generator = some conv_generator;
})
pattern_case transpose n = some n
pattern_case compose n = some n
pattern_case template n = none
pattern_case unset n = none

unfoldable pub set_pattern : AccessPattern → DataNode → Option DataNode
unfolding pattern_case
set_pattern p n = pattern_case p (record n { access_pattern = p })

-- set_tile. It reads dim[2] whatever num_dims is: `beyond` is what stands past the end of the vector.
-- `none` is a division by 0.
unfoldable pub set_tile : (ℕ → ℕ) → ℕ → ℕ → ℕ → ℕ → DataNode → Option DataNode
set_tile beyond dir x y z n = do
  nx ← div? (get_or n.dim 0 (beyond 0)) x
  ny ← div? (get_or n.dim 1 (beyond 1)) y
  nz ← div? (get_or n.dim 2 (beyond 2)) z
  control ← div? (mul64 (mul64 (mul64 nx x) (mul64 ny y)) (mul64 nz z)) (mul64 (mul64 x y) z)
  some (record n {
    tile_dir = dir;
    tile_dim_x = x;
    tile_dim_y = y;
    tile_dim_z = z;
    cropped_dim_x = mul64 nx x;
    cropped_dim_y = mul64 ny y;
    cropped_dim_z = mul64 nz z;
    local_tile_control = control;
  })

-- set_stride and set_stride_offset
unfoldable pub set_stride : ℕ → DataNode → DataNode
set_stride s n = record n { local_stride = s }

unfoldable pub set_stride_offset : ℕ → DataNode → DataNode
set_stride_offset off n = record n { addr_st = add64 n.addr_st off }
