-- ===== src/DataNode/Faults.antt =====
-- Where the five-point and the 26-point stencils of engine/ar_dnode.cpp read.
use native.Mathlib.Nat.{mul-le-mul_right, mod-eq_of_lt, zero-div}
use siena_mem.Base.{
  ℕ, ◌+◌, ◌-◌, ◌*◌, ◌≤◌, ◌<◌, ◌≡◌, refl, ap, ◌∙◌, some, List, [], ◌∷◌, arith, eq→==, add64-eq,
  sub64, sub64-eq, get_elem?,
}
use siena_mem.DataNode.{DataNode, stencil5p, stencil26p, Generator, with_diffs, set_pattern}
use siena_mem.DataNode.Generators.{
  gen_addr, gen_stencil5p, addrs5p, gen_stencil26p, addrs26p, expand, slices3,
}
use siena_mem.DataNode.Layout.{
  IsLaid, cell, at3-cell, cell-lt-word, extents_small, left, right, down, up,
}
use siena_mem.DataNode.Interior.{Centre, centre_found, inner, plus_two, some_triple}
use siena_mem.DataNode.Slices.{slices3_lem}
use siena_mem.DataNode.Pattern.{Extents, set_up}

-- All of a list of addresses from `bound` on.
abbrev pub AllFrom : ℕ → List ℕ → Type 0
AllFrom bound [] = Unit
AllFrom bound (a ∷ l) = (bound ≤ a) × AllFrom bound l

-- The addresses that the five-point stencil forms around a cell, as an array with slices would have them.
abbrev pub cross_cells : DataNode → (w h x y z : ℕ) → List ℕ
cross_cells n w h x y z =
    let at = cell n (w + 2) (h + 2) in
    at x (y + 1) (z + 1)
    ∷ at (x + 1) (y + 1) (z + 1)
    ∷ at (x + 2) (y + 1) (z + 1)
    ∷ at (x + 1) y (z + 1)
    ∷ at (x + 1) (y + 2) (z + 1)
    ∷ []

module _ (n : DataNode) (w h t : ℕ) (laid : IsLaid n (w + 2) (h + 2) 3)
    (size : 0 < n.access_size) where
  beyond :
      (x y z : ℕ)
      → n.addr_st + (w + 2) * (h + 2) * n.access_size ≤ cell n (w + 2) (h + 2) x y (z + 1)
  unfolding cell
  beyond x y z =
      let index : (w + 2) * (h + 2) ≤ ((z + 1) * (h + 2) + y) * (w + 2) + x = omega arith in
      omega (arith, mul-le-mul_right n.access_size index)

  gen_stencil5p-beyond :
      0 < w
      → 0 < h
      → t < w * h * 1
      → (c : Centre w h 1 t) × (gen_stencil5p n t
          ≡ some (expand n.num_cacheline_per_access (cross_cells n w h c.x c.y c.z)))
        × AllFrom (n.addr_st + (w + 2) * (h + 2) * n.access_size) (cross_cells n w h c.x c.y c.z)
  unfolding gen_stencil5p addrs5p
  gen_stencil5p-beyond pw ph small =
      let (c, found) = centre_found n w h 1 t laid size pw ph small in
      let x = c.x in
      let y = c.y in
      let z = c.z in
      (
        c,
        rw
            (
              found,
              at3-cell n _ _ _ laid (x + 1) (y + 1) (z + 1) (inner c.x_in) (inner c.y_in)
                  (inner c.z_in),
              left n _ _ _ laid x (y + 1) (z + 1) (inner c.x_in) (inner c.y_in) (inner c.z_in),
              right n _ _ _ laid (x + 1) (y + 1) (z + 1) (omega (arith, c.x_in)) (inner c.y_in)
                  (inner c.z_in),
              down n _ _ _ laid (x + 1) y (z + 1) (inner c.x_in) (inner c.y_in) (inner c.z_in),
              up n _ _ _ laid (x + 1) (y + 1) (z + 1) (inner c.x_in) (omega (arith, c.y_in))
                  (inner c.z_in),
              plus_two x,
              plus_two y,
            )
            refl,
        (
          beyond x (y + 1) z,
          (
            beyond (x + 1) (y + 1) z,
            (beyond (x + 2) (y + 1) z, (beyond (x + 1) y z, (beyond (x + 1) (y + 2) z, tt))),
          ),
        ),
      )

-- Setting the five-point stencil on an array of two dimensions, of w + 2 and h + 2 elements with w
-- and h not 0, gives a node that at every step t < w * h touches exactly five places: those of a
-- cell and its four neighbours in the slice z + 1, so all five past the end of the array, if the address
-- space has room for three such arrays.
pub stencil5p-beyond :
    (draw : ℕ) (n : DataNode) (w h t : ℕ)
    → n.num_dims ≡ 2
    → Extents n (w + 2) (h + 2) 3
    → 0 < w
    → 0 < h
    → t < w * h
    → (n' : DataNode) × (set_pattern stencil5p n ≡ some n')
      × ((c : Centre w h 1 t) × (gen_addr draw n' t
            ≡ some (expand n.num_cacheline_per_access (cross_cells n w h c.x c.y c.z)))
          × AllFrom (n.addr_st + (w + 2) * (h + 2) * n.access_size) (cross_cells n w h c.x c.y c.z))
unfolding set_pattern gen_addr cell
stencil5p-beyond draw n w h t dims a pw ph small =
    let g = Generator.stencil5p_generator in
    let laid = set_up n stencil5p g (w + 2) (h + 2) 3 a (omega arith) (omega arith) in
    (
      with_diffs (record n { access_pattern = stencil5p }) g,
      rw (eq→== n.num_dims 2 dims) refl,
      gen_stencil5p-beyond _ w h t laid a.size pw ph (omega arith),
    )

-- The corner below a cell whose two last coordinates are 1, for a walk that starts at the border.
corner_below :
    (n : DataNode) (d0 d1 d2 : ℕ)
    → IsLaid n d0 d1 d2
    → 0 < d0
    → 1 < d1
    → 1 < d2
    → n.access_size ≤ n.addr_st
    → sub64 (sub64 (sub64 (cell n d0 d1 0 1 1) n.diff0) n.diff1) n.diff2 ≡ n.addr_st - n.access_size
unfolding cell
corner_below n d0 d1 d2 laid p0 p1 p2 room =
    let small = cell-lt-word n d0 d1 d2 laid 0 1 1 p0 p1 p2 in
    let at : cell n d0 d1 0 1 1 ≡ n.addr_st + n.diff1 + n.diff2 =
      omega (arith, laid.row, laid.slice) in
    let a = n.addr_st + n.diff1 + n.diff2 in
    let e0 = sub64-eq a n.diff0 (omega (arith, laid.element, room)) (omega (arith, small, at)) in
    let e1 =
      sub64-eq (a - n.diff0) n.diff1 (omega (arith, laid.element, room))
        (omega (arith, small, at)) in
    let e2 =
      sub64-eq (a - n.diff0 - n.diff1) n.diff2 (omega (arith, laid.element, room))
        (omega (arith, small, at)) in
    ap (λ (k : ℕ). sub64 (sub64 (sub64 k n.diff0) n.diff1) n.diff2) at
    ∙ ap (λ (k : ℕ). sub64 (sub64 k n.diff1) n.diff2) e0
    ∙ ap (λ (k : ℕ). sub64 k n.diff2) e1
    ∙ e2
    ∙ omega (arith, laid.element, room)

first_slice :
    (n : DataNode) (w h l : ℕ)
    → IsLaid n w (h + 2) (l + 2)
    → 0 < n.access_size
    → 0 < w
    → 0 < h
    → slices3 n 0 ≡ some (0, 1, 1)
first_slice n w h l laid size pw ph =
    let (s0, s1, s2, all) =
      extents_small n.addr_st w (h + 2) (l + 2) n.access_size laid.fits pw (omega arith)
        (omega arith) size in
    slices3_lem n w h 0 pw ph laid.extent0 laid.extent1 s1 (omega arith)
    ∙ some_triple (mod-eq_of_lt pw) (rw (zero-div w, mod-eq_of_lt ph) (add64-eq 0 1 (omega arith)))
        (rw (zero-div w, zero-div h) (add64-eq 0 1 (omega arith)))

gen_stencil26p-below :
    (n : DataNode) (w h l : ℕ)
    → IsLaid n w (h + 2) (l + 2)
    → 0 < n.access_size
    → n.access_size ≤ n.addr_st
    → 0 < w
    → 0 < h
    → (cells : List ℕ) × (gen_stencil26p n 0 ≡ some (expand n.num_cacheline_per_access cells))
      × (get_elem? cells 18 ≡ some (n.addr_st - n.access_size))
unfolding gen_stencil26p addrs26p
gen_stencil26p-below n w h l laid size room pw ph = (
  addrs26p n (cell n w (h + 2) 0 1 1),
  rw
      (
        first_slice n w h l laid size pw ph,
        at3-cell n _ _ _ laid 0 1 1 pw (omega arith) (omega arith),
      )
      refl,
  ap some (corner_below n w (h + 2) (l + 2) laid pw (omega arith) (omega arith) room),
)

-- Setting the 26-point stencil on an array of w, h + 2 and l + 2 elements inside the address space,
-- with w and h not 0 and room for one element below the array, gives a node whose first step
-- touches, as its address number 18 from 0, the place of one element before the array begins.
pub stencil26p-below :
    (draw : ℕ) (n : DataNode) (w h l : ℕ)
    → n.num_dims ≡ 3
    → Extents n w (h + 2) (l + 2)
    → n.access_size ≤ n.addr_st
    → 0 < w
    → 0 < h
    → (n' : DataNode) × (set_pattern stencil26p n ≡ some n')
      × ((cells : List ℕ) × (gen_addr draw n' 0 ≡ some (expand n.num_cacheline_per_access cells))
          × (get_elem? cells 18 ≡ some (n.addr_st - n.access_size)))
unfolding set_pattern gen_addr
stencil26p-below draw n w h l dims a room pw ph =
    let g = Generator.stencil26p_generator in
    let laid = set_up n stencil26p g w (h + 2) (l + 2) a (omega arith) (omega arith) in
    (
      with_diffs (record n { access_pattern = stencil26p }) g,
      rw (eq→== n.num_dims 3 dims) refl,
      gen_stencil26p-below _ w h l laid a.size room pw ph,
    )
