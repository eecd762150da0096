-- ===== src/DataNode/Windows.antt =====
-- The patterns on arrays of two extents of engine/ar_dnode.cpp: the window that a convolution slides over
-- the array, and the four-point stencil.
use native.Mathlib.Nat.{mod-lt, div-lt_iff_lt-mul}
use siena_mem.Base.{
  ℕ, zero, suc, ◌+◌, ◌-◌, ◌*◌, ◌/◌, ◌%◌, ◌≤◌, ◌<◌, ◌≡◌, refl, sym, ap, ◌∙◌, some, List, [], ◌∷◌,
  ◌++◌, arith, eq→==, ne→==, word, add64, add64-eq, sub64, sub64-eq, mul64, mul64-eq,
}
use siena_mem.DataNode.{DataNode, dim_at, conv, Generator, set_pattern}
use siena_mem.DataNode.Generators.{gen_addr, gen_conv, tile_row, tile_rows, expand, at2}
use siena_mem.DataNode.Layout.{cell, InArray, AllInArray, cell-InArray, extents_small}
use mathlib.Core.Path.{subst}

-- The node is laid out as `d0` by `d1` elements that fit into the address space.
pub record IsPlane (n : DataNode) (d0 d1 : ℕ) : Type 0 where
  pub extent0 : dim_at n 0 ≡ d0
  pub extent1 : dim_at n 1 ≡ d1
  pub element : n.diff0 ≡ n.access_size
  pub row : n.diff1 ≡ d0 * n.access_size
  pub fits : n.addr_st + d0 * d1 * 1 * n.access_size < word
  pub size : 0 < n.access_size

-- The cells (x, y), (x + 1, y), ...; and the rows y, y + 1, ... of such.
abbrev pub row_cells : DataNode → ℕ → ℕ → ℕ → ℕ → ℕ → List ℕ
row_cells n d0 d1 x y zero = []
row_cells n d0 d1 x y (suc cols) = cell n d0 d1 x y 0 ∷ row_cells n d0 d1 (x + 1) y cols

abbrev pub window_cells : DataNode → ℕ → ℕ → ℕ → ℕ → ℕ → ℕ → List ℕ
window_cells n d0 d1 x y cols zero = []
window_cells n d0 d1 x y cols (suc rows) =
    row_cells n d0 d1 x y cols ++ window_cells n d0 d1 x (y + 1) cols rows

plane_sum :
    (a b c d e : ℕ)
    → a + b * c + d * e < word
    → add64 (add64 a (mul64 b c)) (mul64 d e) ≡ a + b * c + d * e
unfolding add64 mul64
plane_sum a b c d e h = omega arith

module _ (n : DataNode) (d0 d1 : ℕ) (laid : IsPlane n d0 d1) where
  abbrev at : ℕ → ℕ → ℕ
  at x y = cell n d0 d1 x y 0

  inside : (x y : ℕ) → x < d0 → y < d1 → InArray n d0 d1 1 (at x y)
  inside x y hx hy = cell-InArray n d0 d1 1 x y 0 hx hy (omega arith)

  spot_sum : (x y : ℕ) → at x y ≡ n.addr_st + n.diff1 * y + n.diff0 * x
  unfolding cell
  spot_sum x y = omega (arith, ap (λ (t : ℕ). t * y) laid.row, ap (λ (t : ℕ). t * x) laid.element)

  at2-cell : (x y : ℕ) → x < d0 → y < d1 → at2 n x y ≡ at x y
  at2-cell x y hx hy =
      plane_sum n.addr_st n.diff1 y n.diff0 x
        (omega (arith, inside x y hx hy, laid.fits, spot_sum x y))
      ∙ sym (spot_sum x y)

  extents : 0 < d0 → 0 < d1 → (d0 < word) × (d1 < word)
  extents p0 p1 =
      let (s0, s1, s2, all) =
        extents_small n.addr_st d0 d1 1 n.access_size laid.fits p0 p1 (omega arith) laid.size in
      (s0, s1)

  tile_row-cells :
      (x0 y cols x : ℕ)
      → x + x0 + cols ≤ d0
      → y < d1
      → d0 < word
      → (tile_row n x0 y cols x ≡ row_cells n d0 d1 (x + x0) y cols)
        × AllInArray n d0 d1 1 (row_cells n d0 d1 (x + x0) y cols)
  unfolding tile_row
  tile_row-cells x0 y zero x fits hy small = (refl, tt)
  tile_row-cells x0 y (suc cols) x fits hy small =
      let (same, all) = tile_row-cells x0 y cols (x + 1) (omega arith) hy small in
      let shift : x + 1 + x0 ≡ x + x0 + 1 = omega arith in
      let rest = ap (λ (k : ℕ). row_cells n d0 d1 k y cols) shift in
      (
        rw (add64-eq x x0 (omega arith), at2-cell (x + x0) y (omega arith) hy, same, shift) refl,
        (
          inside (x + x0) y (omega arith) hy,
          subst (λ (k : ℕ). AllInArray n d0 d1 1 (row_cells n d0 d1 k y cols)) shift all,
        ),
      )

  AllInArray-append :
      (l k : List ℕ)
      → AllInArray n d0 d1 1 l
      → AllInArray n d0 d1 1 k
      → AllInArray n d0 d1 1 (l ++ k)
  AllInArray-append [] k p q = q
  AllInArray-append (a ∷ l) k (h, p) q = (h, AllInArray-append l k p q)

  tile_rows-cells :
      (x0 y0 rows y : ℕ)
      → x0 + n.tile_dim_x ≤ d0
      → y + y0 + rows ≤ d1
      → d0 < word
      → d1 < word
      → (tile_rows n x0 y0 rows y ≡ window_cells n d0 d1 x0 (y + y0) n.tile_dim_x rows)
        × AllInArray n d0 d1 1 (window_cells n d0 d1 x0 (y + y0) n.tile_dim_x rows)
  unfolding tile_rows
  tile_rows-cells x0 y0 zero y hx hy s0 s1 = (refl, tt)
  tile_rows-cells x0 y0 (suc rows) y hx hy s0 s1 =
      let (same, all) = tile_rows-cells x0 y0 rows (y + 1) hx (omega arith) s0 s1 in
      let (row, row_in) =
        tile_row-cells x0 (y + y0) n.tile_dim_x 0 (omega (arith, hx)) (omega arith) s0 in
      let shift : y + 1 + y0 ≡ y + y0 + 1 = omega arith in
      let from : 0 + x0 ≡ x0 = omega arith in
      (
        rw (add64-eq y y0 (omega arith), row, same, shift, from) refl,
        AllInArray-append (row_cells n d0 d1 x0 (y + y0) n.tile_dim_x) _ (rw from at row_in) (
            subst (λ (k : ℕ). AllInArray n d0 d1 1 (window_cells n d0 d1 x0 k n.tile_dim_x rows))
              shift all),
      )

  -- At step `t` the convolution touches the window of tile_dim_x by tile_dim_y cells whose corner is the
  -- cell (t % w, t / w), row after row, all inside the array, where w is the number of windows in a row
  -- and `t` is below the number of all windows.
  pub gen_conv-window :
      (w h t : ℕ)
      → w + n.tile_dim_x ≡ d0 + 1
      → h + n.tile_dim_y ≡ d1 + 1
      → 0 < w
      → 0 < n.tile_dim_x
      → 0 < n.tile_dim_y
      → t < w * h
      → let cells = window_cells n d0 d1 (t % w) (t / w) n.tile_dim_x n.tile_dim_y in
        (gen_conv n t ≡ some (expand n.num_cacheline_per_access cells)) × AllInArray n d0 d1 1 cells
  unfolding gen_conv
  gen_conv-window w h t ew eh pw px py small =
      let column = mod-lt t pw in
      let line : t / w < h = (div-lt_iff_lt-mul pw).1 (omega arith) in
      let (s0, s1) = extents (omega arith) (omega (arith, line)) in
      let width : add64 (sub64 d0 n.tile_dim_x) 1 ≡ w =
        ap (λ (k : ℕ). add64 k 1) (sub64-eq d0 n.tile_dim_x (omega arith) s0)
        ∙ add64-eq (d0 - n.tile_dim_x) 1 (omega (arith, s0))
        ∙ omega arith in
      let (same, all) =
        tile_rows-cells (t % w) (t / w) n.tile_dim_y 0 (omega (arith, column)) (omega (arith, line))
          s0 s1 in
      let from : 0 + t / w ≡ t / w = omega arith in
      (rw (laid.extent0, width, ne→== w 0 (omega arith), same, from) refl, rw from at all)

row_fits : (d0 d1 s : ℕ) → 0 < d1 → d0 * s ≤ d0 * d1 * 1 * s
row_fits d0 zero s pos = absurd (omega arith)
row_fits d0 (suc d1) s pos = omega arith

-- Setting the convolution on an array of d0 by d1 elements inside the address space, with a tile that is
-- not empty and not larger than the array, gives a node that at every step t < w * h touches the window of
-- the tile's extents whose corner is the cell (t % w, t / w), row after row, all inside the array; w and h
-- count the windows in the two directions.
pub conv-accesses :
    (draw : ℕ) (n : DataNode) (d0 d1 w h t : ℕ)
    → n.num_dims ≡ 2
    → dim_at n 0 ≡ d0
    → dim_at n 1 ≡ d1
    → n.addr_st + d0 * d1 * 1 * n.access_size < word
    → 0 < n.access_size
    → w + n.tile_dim_x ≡ d0 + 1
    → h + n.tile_dim_y ≡ d1 + 1
    → 0 < w
    → 0 < h
    → 0 < n.tile_dim_x
    → 0 < n.tile_dim_y
    → t < w * h
    → (n' : DataNode) × (set_pattern conv n ≡ some n')
      × ((gen_addr draw n' t
            ≡ some (
                expand n.num_cacheline_per_access
                  (window_cells n d0 d1 (t % w) (t / w) n.tile_dim_x n.tile_dim_y)))
          × AllInArray n d0 d1 1 (window_cells n d0 d1 (t % w) (t / w) n.tile_dim_x n.tile_dim_y))
unfolding set_pattern gen_addr cell
conv-accesses draw n d0 d1 w h t dims e0 e1 fits size ew eh pw ph px py small =
    let n' : DataNode = record n {
      access_pattern = conv;
      diff0 = n.access_size;
      diff1 = mul64 (dim_at n 0) n.access_size;
      pattern_generator = some Generator.conv_generator;
    } in
    let row : mul64 (dim_at n 0) n.access_size ≡ d0 * n.access_size = rw e0 (
      mul64-eq d0 n.access_size
        (omega (arith, row_fits d0 d1 n.access_size (omega (arith, ew, eh))))) in
    let laid : IsPlane n' d0 d1 = record {
      extent0 = e0;
      extent1 = e1;
      element = refl;
      row = row;
      fits = fits;
      size = size;
    } in
    (
      n',
      rw (eq→== n.num_dims 2 dims) refl,
      gen_conv-window n' d0 d1 laid w h t ew eh pw px py small,
    )
