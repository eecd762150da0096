-- ===== src/Tests/Nodes.antt =====
-- Arrays of 4 * 5 * 6 and of 4 * 5 elements of 8 bytes: engine/ar_dnode.cpp on concrete inputs.
use siena_mem.Base.{
  ℕ, ◌+◌, ◌-◌, get_elem?, ◌*◌, ◌/◌, ◌%◌, ◌≡◌, refl, none, some, List, [], ◌∷◌, arith,
}
use siena_mem.DataNode.{DataNode, OpType, AccessPattern, set_pattern}
use siena_mem.DataNode.Generators.{gen_addr, cache_lines, expand}
use siena_mem.DataNode.Layout.{cell, InArray, AllInArray}
use siena_mem.DataNode.Interior.{Centre}
use siena_mem.DataNode.Slices.{ring}
use siena_mem.DataNode.Pattern.{IsArray, stencil3p-accesses, ghostcell-accesses, stencil9p-accesses}
use siena_mem.DataNode.Windows.{window_cells, conv-accesses}
use siena_mem.DataNode.Faults.{cross_cells, AllFrom, stencil5p-beyond, stencil26p-below}

abbrev cube : DataNode
cube = record {
  op_type = OpType.load;
  name = 1;
  count = 24;
  num_prev_ops = 0;
  addr_st = 4096;
  addr_end = 5056;
  size = 960;
  num_dims = 3;
  dim = 4 ∷ 5 ∷ 6 ∷ [];
  element_size = 8;
  element_num = 120;
  mem_ptr = 0;
  access_count = 24;
  access_size = 8;
  num_cacheline_per_access = 1;
  access_pattern = AccessPattern.unset;
  comp = 0;
  dependency = [];
  prev = [];
  next = [];
  pattern_generator = none;
  local_stride = 0;
  dist_func = 0;
  diff0 = 0;
  diff1 = 0;
  diff2 = 0;
  tile_dim_x = 2;
  tile_dim_y = 3;
  tile_dim_z = 1;
  tile_dir = 0;
  cropped_dim_x = 4;
  cropped_dim_y = 3;
  cropped_dim_z = 6;
  local_tile_control = 2;
  group_id = 0;
  offset = 0;
  ops_step = 0;
}

abbrev square : DataNode
square = record cube {
  num_dims = 2;
  dim = 4 ∷ 5 ∷ [];
  size = 160;
  addr_end = 4256;
  element_num = 20;
}

cube-IsArray : IsArray cube 4 5 6
cube-IsArray = record {
  dims = refl;
  extents = record { extent0 = refl; extent1 = refl; fits = omega arith; size = omega arith };
}

stencil3p-accesses_example :
    (n' : DataNode) × (set_pattern AccessPattern.stencil3p cube ≡ some n')
    × ((c : Centre 2 3 4 7) × (let at = cell cube 4 5 in
          let cells =
            at c.x (c.y + 1) (c.z + 1)
            ∷ at (c.x + 1) (c.y + 1) (c.z + 1)
            ∷ at (c.x + 2) (c.y + 1) (c.z + 1)
            ∷ [] in
          (gen_addr 0 n' 7 ≡ some (expand 1 cells)) × AllInArray cube 4 5 6 cells))
stencil3p-accesses_example =
    stencil3p-accesses cube 2 3 4 0 7 cube-IsArray (omega arith) (omega arith) (omega arith)

ghostcell-accesses_example :
    (n' : DataNode) × (set_pattern AccessPattern.ghostcell cube ≡ some n')
    × ((c : Centre 2 3 4 7) × (gen_addr 0 n' 7
          ≡ some (cache_lines 1 (cell cube 4 5 (c.x + 1) (c.y + 1) (c.z + 1))))
        × InArray cube 4 5 6 (cell cube 4 5 (c.x + 1) (c.y + 1) (c.z + 1)))
ghostcell-accesses_example =
    ghostcell-accesses cube 2 3 4 0 7 cube-IsArray (omega arith) (omega arith) (omega arith)

stencil9p-accesses_example :
    (n' : DataNode) × (set_pattern AccessPattern.stencil9p cube ≡ some n')
    × ((c : Centre 4 3 4 7) × (gen_addr 0 n' 7
          ≡ some (expand 1 (cell cube 4 5 c.x (c.y + 1) (c.z + 1) ∷ ring cube 4 3 4 c.x c.y c.z)))
        × AllInArray cube 4 5 6
            (cell cube 4 5 c.x (c.y + 1) (c.z + 1) ∷ ring cube 4 3 4 c.x c.y c.z))
stencil9p-accesses_example =
    stencil9p-accesses cube 4 3 4 0 7 cube-IsArray (omega arith) (omega arith) (omega arith)

conv-accesses_example :
    (n' : DataNode) × (set_pattern AccessPattern.conv square ≡ some n')
    × ((gen_addr 0 n' 4 ≡ some (expand 1 (window_cells square 4 5 (4 % 3) (4 / 3) 2 3)))
        × AllInArray square 4 5 1 (window_cells square 4 5 (4 % 3) (4 / 3) 2 3))
conv-accesses_example =
    conv-accesses 0 square 4 5 3 3 4 refl refl refl (omega arith) (omega arith) refl refl
      (omega arith) (omega arith) (omega arith) (omega arith) (omega arith)

stencil5p-beyond_example :
    (n' : DataNode) × (set_pattern AccessPattern.stencil5p square ≡ some n')
    × ((c : Centre 2 3 1 5) × (gen_addr 0 n' 5
          ≡ some (expand 1 (cross_cells square 2 3 c.x c.y c.z)))
        × AllFrom (4096 + (2 + 2) * (3 + 2) * 8) (cross_cells square 2 3 c.x c.y c.z))
stencil5p-beyond_example =
    stencil5p-beyond 0 square 2 3 5 refl
      (record { extent0 = refl; extent1 = refl; fits = omega arith; size = omega arith })
      (omega arith) (omega arith) (omega arith)

stencil26p-below_example :
    (n' : DataNode) × (set_pattern AccessPattern.stencil26p cube ≡ some n')
    × ((cells : List ℕ) × (gen_addr 0 n' 0 ≡ some (expand 1 cells))
        × (get_elem? cells 18 ≡ some (4096 - 8)))
stencil26p-below_example =
    stencil26p-below 0 cube 4 3 4 refl
      (record { extent0 = refl; extent1 = refl; fits = omega arith; size = omega arith })
      (omega arith) (omega arith) (omega arith)
