-- ===== src/DataNode/Generators.antt =====
-- The address generators of engine/ar_dnode.cpp: what each access of a pattern touches, in order.
-- `none` is a division by 0 or a failed assertion. The DEBUG_DATA checks are not compiled in.
use siena_mem.Base.{
  mod?, div?, ◌>>=◌, ℕ, zero, suc, ◌+◌, ◌-◌, ◌%◌, ◌&&◌, Option, none, some, List, [], ◌∷◌, ◌++◌,
  ltb, ◌==◌, if◌then◌else◌, add64, sub64, mul64,
}
use siena_mem.DataNode.{
  DataNode, dim_at, cacheline_bytes, stride_generator, random_generator, ghostcell2d_generator,
  ghostcell3d_generator, stencil3p_generator, stencil4p_generator, stencil5p_generator,
  stencil8p_generator, stencil9p_generator, stencil26p_generator, stencil27p_generator,
  tile2d_generator, conv_generator,
}

-- The loop over the further cache lines of an access: `rounds` of them.
unfoldable pub next_lines : ℕ → ℕ → List ℕ
next_lines zero addr = []
next_lines (suc rounds) addr =
    let addr' = add64 addr cacheline_bytes in addr' ∷ next_lines rounds addr'

-- One access: its address, and one for each further cache line.
unfoldable pub cache_lines : ℕ → ℕ → List ℕ
unfolding next_lines
cache_lines num addr = addr ∷ next_lines (num - 1) addr

-- The loop over `addrs`.
unfoldable pub expand : ℕ → List ℕ → List ℕ
expand num [] = []
expand num (a ∷ addrs) = cache_lines num a ++ expand num addrs

unfoldable pub gen_stride : DataNode → ℕ → Option (List ℕ)
gen_stride n local_control =
    if n.element_num == 0
    then none
    else some (
        cache_lines n.num_cacheline_per_access
          (add64 n.addr_st (mul64 (local_control % n.element_num) n.local_stride)))

-- `draw` is (ADDR_T)(element_num * r) for r = rand() / RAND_MAX. The source draws anew at every call; a walk of the
-- model takes one draw for all its calls.
unfoldable pub gen_random : DataNode → ℕ → Option (List ℕ)
gen_random n draw =
    some (cache_lines n.num_cacheline_per_access (add64 n.addr_st (mul64 draw n.access_size)))

-- The coordinates of the centre in an array of two extents without its border.
unfoldable pub coords2 : DataNode → ℕ → Option (ℕ × ℕ)
coords2 n local_control = do
  let w = sub64 (dim_at n 0) 2
  num_dim0 ← div? local_control w
  some (add64 (sub64 local_control (mul64 num_dim0 w)) 1, add64 num_dim0 1)

-- Three extents, without the border.
unfoldable pub coords3 : DataNode → ℕ → Option (ℕ × ℕ × ℕ)
coords3 n local_control = do
  let w = sub64 (dim_at n 0) 2
  let h = sub64 (dim_at n 1) 2
  num_dim0 ← div? local_control w
  id_dim2 ← div? num_dim0 h
  some (
    add64 (sub64 local_control (mul64 num_dim0 w)) 1,
    add64 (sub64 num_dim0 (mul64 id_dim2 h)) 1,
    add64 id_dim2 1,
  )

-- Three extents, the first whole and the others without the border.
unfoldable pub slices3 : DataNode → ℕ → Option (ℕ × ℕ × ℕ)
slices3 n local_control = do
  let w = dim_at n 0
  let h = sub64 (dim_at n 1) 2
  num_dim0 ← div? local_control w
  id_dim2 ← div? num_dim0 h
  some (
    sub64 local_control (mul64 num_dim0 w),
    add64 (sub64 num_dim0 (mul64 id_dim2 h)) 1,
    add64 id_dim2 1,
  )

-- addr_st + diff1*id_dim1 + diff0*id_dim0, and with diff2*id_dim2.
abbrev pub at2 : DataNode → ℕ → ℕ → ℕ
at2 n x y = add64 (add64 n.addr_st (mul64 n.diff1 y)) (mul64 n.diff0 x)

abbrev pub at3 : DataNode → ℕ → ℕ → ℕ → ℕ
at3 n x y z = add64 (add64 (add64 n.addr_st (mul64 n.diff2 z)) (mul64 n.diff1 y)) (mul64 n.diff0 x)

unfoldable pub gen_ghostcell2d : DataNode → ℕ → Option (List ℕ)
unfolding coords2
gen_ghostcell2d n local_control = do
  (x, y) ← coords2 n local_control
  some (cache_lines n.num_cacheline_per_access (at2 n x y))

unfoldable pub gen_ghostcell3d : DataNode → ℕ → Option (List ℕ)
unfolding coords3
gen_ghostcell3d n local_control = do
  (x, y, z) ← coords3 n local_control
  some (cache_lines n.num_cacheline_per_access (at3 n x y z))

unfoldable pub addrs3p : DataNode → ℕ → List ℕ
addrs3p n a = sub64 a n.diff0 ∷ a ∷ add64 a n.diff0 ∷ []

unfoldable pub addrs4p : DataNode → ℕ → List ℕ
addrs4p n a = sub64 a n.diff0 ∷ add64 a n.diff0 ∷ sub64 a n.diff1 ∷ add64 a n.diff1 ∷ []

unfoldable pub addrs5p : DataNode → ℕ → List ℕ
addrs5p n a = sub64 a n.diff0 ∷ a ∷ add64 a n.diff0 ∷ sub64 a n.diff1 ∷ add64 a n.diff1 ∷ []

unfoldable pub addrs8p : DataNode → ℕ → List ℕ
addrs8p n a =
    sub64 a n.diff1
    ∷ add64 a n.diff1
    ∷ sub64 a n.diff2
    ∷ add64 a n.diff2
    ∷ sub64 (sub64 a n.diff1) n.diff2
    ∷ sub64 (add64 a n.diff1) n.diff2
    ∷ add64 (sub64 a n.diff1) n.diff2
    ∷ add64 (add64 a n.diff1) n.diff2
    ∷ []

unfoldable pub addrs9p : DataNode → ℕ → List ℕ
unfolding addrs8p
addrs9p n a = a ∷ addrs8p n a

unfoldable pub addrs26p : DataNode → ℕ → List ℕ
addrs26p n a =
    let l = sub64 a n.diff0 in
    let r = add64 a n.diff0 in
    let d = sub64 a n.diff1 in
    let u = add64 a n.diff1 in
    l
    ∷ r
    ∷ d
    ∷ u
    ∷ sub64 a n.diff2
    ∷ add64 a n.diff2
    ∷ sub64 l n.diff1
    ∷ add64 l n.diff1
    ∷ sub64 r n.diff1
    ∷ add64 r n.diff1
    ∷ sub64 l n.diff2
    ∷ add64 l n.diff2
    ∷ sub64 r n.diff2
    ∷ add64 r n.diff2
    ∷ sub64 d n.diff2
    ∷ add64 d n.diff2
    ∷ sub64 u n.diff2
    ∷ add64 u n.diff2
    ∷ sub64 (sub64 l n.diff1) n.diff2
    ∷ add64 (sub64 l n.diff1) n.diff2
    ∷ sub64 (add64 l n.diff1) n.diff2
    ∷ add64 (add64 l n.diff1) n.diff2
    ∷ sub64 (sub64 r n.diff1) n.diff2
    ∷ add64 (sub64 r n.diff1) n.diff2
    ∷ sub64 (add64 r n.diff1) n.diff2
    ∷ add64 (add64 r n.diff1) n.diff2
    ∷ []

unfoldable pub addrs27p : DataNode → ℕ → List ℕ
unfolding addrs26p
addrs27p n a = a ∷ addrs26p n a

unfoldable pub gen_stencil3p : DataNode → ℕ → Option (List ℕ)
unfolding coords3
gen_stencil3p n local_control = do
  (x, y, z) ← coords3 n local_control
  some (expand n.num_cacheline_per_access (addrs3p n (at3 n x y z)))

unfoldable pub gen_stencil4p : DataNode → ℕ → Option (List ℕ)
unfolding coords2
gen_stencil4p n local_control = do
  (x, y) ← coords2 n local_control
  some (expand n.num_cacheline_per_access (addrs4p n (at2 n x y)))

unfoldable pub gen_stencil5p : DataNode → ℕ → Option (List ℕ)
unfolding coords3
gen_stencil5p n local_control = do
  (x, y, z) ← coords3 n local_control
  some (expand n.num_cacheline_per_access (addrs5p n (at3 n x y z)))

unfoldable pub gen_stencil8p : DataNode → ℕ → Option (List ℕ)
unfolding slices3
gen_stencil8p n local_control = do
  (x, y, z) ← slices3 n local_control
  some (expand n.num_cacheline_per_access (addrs8p n (at3 n x y z)))

unfoldable pub gen_stencil9p : DataNode → ℕ → Option (List ℕ)
unfolding slices3
gen_stencil9p n local_control = do
  (x, y, z) ← slices3 n local_control
  some (expand n.num_cacheline_per_access (addrs9p n (at3 n x y z)))

unfoldable pub gen_stencil26p : DataNode → ℕ → Option (List ℕ)
unfolding slices3
gen_stencil26p n local_control = do
  (x, y, z) ← slices3 n local_control
  some (expand n.num_cacheline_per_access (addrs26p n (at3 n x y z)))

unfoldable pub gen_stencil27p : DataNode → ℕ → Option (List ℕ)
unfolding slices3
gen_stencil27p n local_control = do
  (x, y, z) ← slices3 n local_control
  some (expand n.num_cacheline_per_access (addrs27p n (at3 n x y z)))

-- The two loops over the cells of a tile whose corner is (x0, y0).
unfoldable pub tile_row : DataNode → ℕ → ℕ → ℕ → ℕ → List ℕ
tile_row n x0 y zero x = []
tile_row n x0 y (suc cols) x = at2 n (add64 x x0) y ∷ tile_row n x0 y cols (x + 1)

unfoldable pub tile_rows : DataNode → ℕ → ℕ → ℕ → ℕ → List ℕ
unfolding tile_row
tile_rows n x0 y0 zero y = []
tile_rows n x0 y0 (suc rows) y =
    tile_row n x0 (add64 y y0) n.tile_dim_x 0 ++ tile_rows n x0 y0 rows (y + 1)

-- The corner of a 2D tile, by the direction in which the tiles are walked.
unfoldable pub tile_corner : DataNode → ℕ → Option (ℕ × ℕ)
tile_corner n local_control =
    if n.tile_dir == 0
    then (do
      let num_dim0 = mul64 local_control n.tile_dim_x
      x ← mod? num_dim0 n.cropped_dim_x
      row ← div? num_dim0 n.cropped_dim_x
      y ← mod? (mul64 row n.tile_dim_y) n.cropped_dim_y
      some (x, y))
    else (do
      let num_dim1 = mul64 local_control n.tile_dim_y
      y ← mod? num_dim1 n.cropped_dim_y
      col ← div? num_dim1 n.cropped_dim_y
      x ← mod? (mul64 col n.tile_dim_x) n.cropped_dim_x
      some (x, y))

unfoldable pub gen_tile2d : DataNode → ℕ → Option (List ℕ)
unfolding tile_corner tile_rows
gen_tile2d n local_control = do
  step ← mod? local_control n.local_tile_control
  (x, y) ← tile_corner n step
  if ltb x (dim_at n 0) && ltb y (dim_at n 1)
      then some (expand n.num_cacheline_per_access (tile_rows n x y n.tile_dim_y 0))
      else none

unfoldable pub gen_conv : DataNode → ℕ → Option (List ℕ)
unfolding tile_rows
gen_conv n local_control = do
  let w = add64 (sub64 (dim_at n 0) n.tile_dim_x) 1
  y ← div? local_control w
  x ← mod? local_control w
  some (expand n.num_cacheline_per_access (tile_rows n x y n.tile_dim_y 0))

-- gen_addr: the call through `pattern_generator`, `none` if it is null. `draw` is used by the random
-- pattern alone.
unfoldable pub gen_addr : ℕ → DataNode → ℕ → Option (List ℕ)
gen_addr draw n local_control = elim n.pattern_generator [
  | none ↦ none
  | some g ↦ elim g [
    | stride_generator ↦ gen_stride n local_control
    | random_generator ↦ gen_random n draw
    | ghostcell2d_generator ↦ gen_ghostcell2d n local_control
    | ghostcell3d_generator ↦ gen_ghostcell3d n local_control
    | stencil3p_generator ↦ gen_stencil3p n local_control
    | stencil4p_generator ↦ gen_stencil4p n local_control
    | stencil5p_generator ↦ gen_stencil5p n local_control
    | stencil8p_generator ↦ gen_stencil8p n local_control
    | stencil9p_generator ↦ gen_stencil9p n local_control
    | stencil26p_generator ↦ gen_stencil26p n local_control
    | stencil27p_generator ↦ gen_stencil27p n local_control
    | tile2d_generator ↦ gen_tile2d n local_control
    | conv_generator ↦ gen_conv n local_control
  ]
]
