-- ===== src/DataNode/Pattern.antt =====
-- From set_pattern to the addresses: what a node does once its pattern is set.
use siena_mem.Base.{ℕ, ◌+◌, ◌*◌, ◌<◌, ◌≡◌, refl, some, [], ◌∷◌, arith, eq→==, word, mul64, mul64-eq}
use siena_mem.DataNode.{
  DataNode, dim_at, AccessPattern, ghostcell, stencil3p, stencil8p, stencil9p, Generator,
  with_diffs, set_pattern,
}
use siena_mem.DataNode.Generators.{gen_addr, cache_lines, expand}
use siena_mem.DataNode.Layout.{IsLaid, cell, InArray, AllInArray, le-mul}
use siena_mem.DataNode.Interior.{Centre, gen_ghostcell3d-cell, gen_stencil3p-cells}
use siena_mem.DataNode.Slices.{ring, gen_stencil8p-ring, gen_stencil9p-ring}

-- The extents of d0 * d1 * d2 elements of the size that is accessed, inside the address space.
pub record Extents (n : DataNode) (d0 d1 d2 : ℕ) : Type 0 where
  pub extent0 : dim_at n 0 ≡ d0
  pub extent1 : dim_at n 1 ≡ d1
  pub fits : n.addr_st + d0 * d1 * d2 * n.access_size < word
  pub size : 0 < n.access_size

-- An array of three dimensions.
pub record IsArray (n : DataNode) (d0 d1 d2 : ℕ) : Type 0 where
  pub dims : n.num_dims ≡ 3
  pub extents : Extents n d0 d1 d2

distances :
    (d0 d1 d2 s : ℕ)
    → d0 * d1 * d2 * s < word
    → 0 < d1
    → 0 < d2
    → 0 < s
    → (mul64 d0 s ≡ d0 * s) × (mul64 (mul64 d0 d1) s ≡ d0 * d1 * s)
distances d0 d1 d2 s fits p1 p2 ps =
    let plane : d0 * d1 * s < word = omega (arith, le-mul (d0 * d1 * s) d2 p2) in
    let one_row : d0 * s < word = omega (arith, plane, le-mul (d0 * s) d1 p1) in
    let rows : mul64 d0 d1 ≡ d0 * d1 =
      mul64-eq d0 d1 (omega (arith, plane, le-mul (d0 * d1) s ps)) in
    (mul64-eq d0 s one_row, rw rows (mul64-eq (d0 * d1) s plane))

-- The node whose access_pattern and three distances are set is laid out as the array.
pub set_up :
    (n : DataNode) (p : AccessPattern) (g : Generator) (d0 d1 d2 : ℕ)
    → Extents n d0 d1 d2
    → 0 < d1
    → 0 < d2
    → IsLaid (with_diffs (record n { access_pattern = p }) g) d0 d1 d2
unfolding with_diffs
set_up n p g d0 d1 d2 a p1 p2 =
    let (row, slice) = distances d0 d1 d2 n.access_size (omega (arith, a.fits)) p1 p2 a.size in
    record {
      extent0 = a.extent0;
      extent1 = a.extent1;
      element = refl;
      row = rw a.extent0 row;
      slice = rw (a.extent0, a.extent1) slice;
      fits = a.fits;
    }

module _ (n : DataNode) (w h l : ℕ) where
  -- Setting the three-point stencil on an array of w + 2, h + 2 and l + 2 elements inside the address
  -- space, w and h not 0, gives a node that at every step t < w * h * l touches three neighbours in a
  -- row, centred off the border, each inside the array; the centre is the cell number t of the w * h *
  -- l cells away from the border.
  pub stencil3p-accesses :
      (draw t : ℕ)
      → IsArray n (w + 2) (h + 2) (l + 2)
      → 0 < w
      → 0 < h
      → t < w * h * l
      → (n' : DataNode) × (set_pattern stencil3p n ≡ some n')
        × ((c : Centre w h l t) × (let at = cell n (w + 2) (h + 2) in
              let cells =
                at c.x (c.y + 1) (c.z + 1)
                ∷ at (c.x + 1) (c.y + 1) (c.z + 1)
                ∷ at (c.x + 2) (c.y + 1) (c.z + 1)
                ∷ [] in
              (gen_addr draw n' t ≡ some (expand n.num_cacheline_per_access cells))
              × AllInArray n (w + 2) (h + 2) (l + 2) cells))
  unfolding set_pattern gen_addr cell
  stencil3p-accesses draw t a pw ph small =
      let g = Generator.stencil3p_generator in
      let laid =
        set_up n stencil3p g (w + 2) (h + 2) (l + 2) a.extents (omega arith) (omega arith) in
      (
        with_diffs (record n { access_pattern = stencil3p }) g,
        rw (eq→== n.num_dims 3 a.dims),
        gen_stencil3p-cells _ w h l t laid a.extents.size pw ph small,
      )

  -- Setting the ghost-cell pattern on an array of w + 2, h + 2 and l + 2 elements inside the address
  -- space, w and h not 0, gives a node that at every step t < w * h * l touches the cell number t of
  -- the w * h * l cells away from the border, and that cell alone; the cell is inside the array.
  pub ghostcell-accesses :
      (draw t : ℕ)
      → IsArray n (w + 2) (h + 2) (l + 2)
      → 0 < w
      → 0 < h
      → t < w * h * l
      → (n' : DataNode) × (set_pattern ghostcell n ≡ some n')
        × ((c : Centre w h l t) × (gen_addr draw n' t
              ≡ some (
                  cache_lines n.num_cacheline_per_access
                    (cell n (w + 2) (h + 2) (c.x + 1) (c.y + 1) (c.z + 1))))
            × InArray n
                (w + 2)
                (h + 2)
                (l + 2)
                (cell n (w + 2) (h + 2) (c.x + 1) (c.y + 1) (c.z + 1)))
  unfolding set_pattern gen_addr cell
  ghostcell-accesses draw t a pw ph small =
      let g = Generator.ghostcell3d_generator in
      let laid =
        set_up n ghostcell g (w + 2) (h + 2) (l + 2) a.extents (omega arith) (omega arith) in
      (
        with_diffs (record n { access_pattern = ghostcell }) g,
        rw a.dims refl,
        gen_ghostcell3d-cell _ w h l t laid a.extents.size pw ph small,
      )

  -- Setting the eight-point stencil on an array of w, h + 2 and l + 2 elements inside the address
  -- space, w and h not 0, gives a node that at every step t < w * h * l touches the eight neighbours,
  -- in the plane of its first coordinate, of the cell number t of the w * h * l cells that are not on
  -- the border of the last two extents. All eight are inside the array.
  pub stencil8p-accesses :
      (draw t : ℕ)
      → IsArray n w (h + 2) (l + 2)
      → 0 < w
      → 0 < h
      → t < w * h * l
      → (n' : DataNode) × (set_pattern stencil8p n ≡ some n')
        × ((c : Centre w h l t) × (gen_addr draw n' t
              ≡ some (expand n.num_cacheline_per_access (ring n w h l c.x c.y c.z)))
            × AllInArray n w (h + 2) (l + 2) (ring n w h l c.x c.y c.z))
  unfolding set_pattern gen_addr cell
  stencil8p-accesses draw t a pw ph small =
      let g = Generator.stencil8p_generator in
      let laid = set_up n stencil8p g w (h + 2) (l + 2) a.extents (omega arith) (omega arith) in
      (
        with_diffs (record n { access_pattern = stencil8p }) g,
        rw (eq→== n.num_dims 3 a.dims),
        gen_stencil8p-ring _ w h l t laid a.extents.size pw ph small,
      )

  -- Setting the nine-point stencil on an array of w, h + 2 and l + 2 elements inside the address
  -- space, w and h not 0, gives a node that at every step t < w * h * l touches the cell number t of
  -- the w * h * l cells that are not on the border of the last two extents, and then its eight
  -- neighbours in the plane of its first coordinate. All nine are inside the array.
  pub stencil9p-accesses :
      (draw t : ℕ)
      → IsArray n w (h + 2) (l + 2)
      → 0 < w
      → 0 < h
      → t < w * h * l
      → (n' : DataNode) × (set_pattern stencil9p n ≡ some n')
        × ((c : Centre w h l t) × (gen_addr draw n' t
              ≡ some (
                  expand n.num_cacheline_per_access
                    (cell n w (h + 2) c.x (c.y + 1) (c.z + 1) ∷ ring n w h l c.x c.y c.z)))
            × AllInArray n w
                (h + 2)
                (l + 2)
                (cell n w (h + 2) c.x (c.y + 1) (c.z + 1) ∷ ring n w h l c.x c.y c.z))
  unfolding set_pattern gen_addr cell
  stencil9p-accesses draw t a pw ph small =
      let g = Generator.stencil9p_generator in
      let laid = set_up n stencil9p g w (h + 2) (l + 2) a.extents (omega arith) (omega arith) in
      (
        with_diffs (record n { access_pattern = stencil9p }) g,
        rw a.dims refl,
        gen_stencil9p-ring _ w h l t laid a.extents.size pw ph small,
      )
