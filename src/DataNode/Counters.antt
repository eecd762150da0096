-- ===== src/DataNode/Counters.antt =====
-- The fields of a node of engine/ar_dnode.cpp that the generators do not read.
use siena_mem.Base.{ℕ, ◌≡◌, refl}
use siena_mem.DataNode.{DataNode}
use siena_mem.DataNode.Generators.{
  gen_addr, gen_stride, gen_random, gen_ghostcell2d, gen_ghostcell3d, gen_stencil3p, gen_stencil4p,
  gen_stencil5p, gen_stencil8p, gen_stencil9p, gen_stencil26p, gen_stencil27p, gen_tile2d, gen_conv,
  coords2, coords3, slices3, addrs3p, addrs4p, addrs5p, addrs8p, addrs9p, addrs26p, addrs27p,
  tile_row, tile_rows, tile_corner,
}

-- The addresses of a step do not depend on what init_offsets writes into the node.
pub gen_addr_counted :
    (draw t ops_step offset num_prev_ops : ℕ) (n : DataNode)
    → gen_addr draw
        (record n { ops_step = ops_step; offset = offset; num_prev_ops = num_prev_ops })
        t
      ≡ gen_addr draw n t
unfolding gen_addr gen_stride gen_random gen_ghostcell2d gen_ghostcell3d gen_stencil3p gen_stencil4p
    gen_stencil5p gen_stencil8p gen_stencil9p gen_stencil26p gen_stencil27p gen_tile2d gen_conv
    coords2 coords3 slices3 addrs3p addrs4p addrs5p addrs8p addrs9p addrs26p addrs27p tile_row
    tile_rows tile_corner
gen_addr_counted draw t a b c n = refl
