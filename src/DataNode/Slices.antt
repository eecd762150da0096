-- ===== src/DataNode/Slices.antt =====
-- The patterns that walk whole rows of a three-dimensional array and step in the other two directions
-- alone: the eight-point and nine-point stencils.
use native.Mathlib.Nat.{div-le_self}
use siena_mem.Base.{
  ℕ, ◌+◌, ◌*◌, ◌/◌, ◌%◌, ◌<◌, ◌≡◌, refl, ◌∙◌, some, List, [], ◌∷◌, arith, ne→==, word, add64,
  add64-eq,
}
use siena_mem.DataNode.{DataNode, dim_at}
use siena_mem.DataNode.Generators.{slices3, expand, addrs8p, addrs9p, gen_stencil8p, gen_stencil9p}
use siena_mem.DataNode.Layout.{
  IsLaid, cell, cell-InArray, AllInArray, extents_small, at3-cell, down, up, back, front,
}
use siena_mem.DataNode.Interior.{
  remainder, without_border, Centre, centre, some_triple, plus_two, inner,
}

pub slices3_lem :
    (n : DataNode) (w h t : ℕ)
    → 0 < w
    → 0 < h
    → dim_at n 0 ≡ w
    → dim_at n 1 ≡ h + 2
    → h + 2 < word
    → t < word
    → slices3 n t ≡ some (t % w, add64 (t / w % h) 1, add64 (t / w / h) 1)
unfolding slices3
slices3_lem n w h t pw ph e0 e1 sh st = rw (
  e0,
  e1,
  without_border h sh,
  ne→== w 0 (omega arith),
  ne→== h 0 (omega arith),
  remainder t w st,
  remainder (t / w) h (omega (arith, div-le_self t w)),
)

-- The eight neighbours of (x, y + 1, z + 1) at the same x.
abbrev pub ring : DataNode → ℕ → ℕ → ℕ → ℕ → ℕ → ℕ → List ℕ
ring n w h l x y z =
    let at = cell n w (h + 2) in
    at x y (z + 1)
    ∷ at x (y + 2) (z + 1)
    ∷ at x (y + 1) z
    ∷ at x (y + 1) (z + 2)
    ∷ at x y z
    ∷ at x (y + 2) z
    ∷ at x y (z + 2)
    ∷ at x (y + 2) (z + 2)
    ∷ []

module _ (n : DataNode) (w h l t : ℕ) (laid : IsLaid n w (h + 2) (l + 2))
    (size : 0 < n.access_size) where
  abbrev at : ℕ → ℕ → ℕ → ℕ
  at = cell n w (h + 2)

  abbrev around : ℕ → ℕ → ℕ → List ℕ
  around = ring n w h l

  pub slice_found :
      0 < w
      → 0 < h
      → t < w * h * l
      → (c : Centre w h l t) × (slices3 n t ≡ some (c.x, c.y + 1, c.z + 1))
  unfolding centre
  slice_found pw ph small =
      let (s0, s1, s2, all) =
        extents_small n.addr_st w (h + 2) (l + 2) n.access_size laid.fits (omega arith)
          (omega arith) (omega arith) size in
      let c = centre w h l t pw ph small in
      (
        c,
        slices3_lem n w h t pw ph laid.extent0 laid.extent1 s1 (omega arith)
            ∙ some_triple refl (add64-eq (t / w % h) 1 (omega (arith, c.y_in)))
                (add64-eq (t / w / h) 1 (omega (arith, c.z_in))),
      )

  addrs8p-ring :
      (x y z : ℕ) → x < w → y < h → z < l → addrs8p n (at x (y + 1) (z + 1)) ≡ around x y z
  unfolding addrs8p
  addrs8p-ring x y z hx hy hz = rw (
    down n _ _ _ laid x y (z + 1) hx (inner hy) (inner hz),
    up n _ _ _ laid x (y + 1) (z + 1) hx (omega arith) (inner hz),
    back n _ _ _ laid x (y + 1) z hx (inner hy) (inner hz),
    front n _ _ _ laid x (y + 1) (z + 1) hx (inner hy) (omega arith),
    back n _ _ _ laid x y z hx (omega arith) (inner hz),
    back n _ _ _ laid x (y + 1 + 1) z hx (omega arith) (inner hz),
    front n _ _ _ laid x y (z + 1) hx (omega arith) (omega arith),
    front n _ _ _ laid x (y + 1 + 1) (z + 1) hx (omega arith) (omega arith),
    plus_two y,
    plus_two z,
  )

  ring-InArray : (x y z : ℕ) → x < w → y < h → z < l → AllInArray n w (h + 2) (l + 2) (around x y z)
  ring-InArray x y z hx hy hz =
      let inside = λ (b c : ℕ) (hb : b < h + 2) (hc : c < l + 2).
        cell-InArray n w (h + 2) (l + 2) x b c hx hb hc in
      (
        inside _ _ (omega arith) (omega arith),
        (
          inside _ _ (omega arith) (omega arith),
          (
            inside _ _ (omega arith) (omega arith),
            (
              inside _ _ (omega arith) (omega arith),
              (
                inside _ _ (omega arith) (omega arith),
                (
                  inside _ _ (omega arith) (omega arith),
                  (
                    inside _ _ (omega arith) (omega arith),
                    (inside _ _ (omega arith) (omega arith), tt),
                  ),
                ),
              ),
            ),
          ),
        ),
      )

  -- At step `t` the eight-point stencil touches the eight neighbours of (x, y + 1, z + 1) in its
  -- plane of constant x, all inside the array, where t = (z * h + y) * w + x.
  pub gen_stencil8p-ring :
      0 < w
      → 0 < h
      → t < w * h * l
      → (c : Centre w h l t) × (gen_stencil8p n t
          ≡ some (expand n.num_cacheline_per_access (around c.x c.y c.z)))
        × AllInArray n w (h + 2) (l + 2) (around c.x c.y c.z)
  unfolding gen_stencil8p
  gen_stencil8p-ring pw ph small =
      let (c, found) = slice_found pw ph small in
      (
        c,
        rw (
          found,
          at3-cell n _ _ _ laid c.x (c.y + 1) (c.z + 1) c.x_in (inner c.y_in) (inner c.z_in),
          addrs8p-ring c.x c.y c.z c.x_in c.y_in c.z_in,
        ),
        ring-InArray c.x c.y c.z c.x_in c.y_in c.z_in,
      )

  -- The nine-point stencil on three extents touches (x, y + 1, z + 1) first, and then the same eight.
  pub gen_stencil9p-ring :
      0 < w
      → 0 < h
      → t < w * h * l
      → (c : Centre w h l t) × (gen_stencil9p n t
          ≡ some
              (expand n.num_cacheline_per_access (at c.x (c.y + 1) (c.z + 1) ∷ around c.x c.y c.z)))
        × AllInArray n w (h + 2) (l + 2) (at c.x (c.y + 1) (c.z + 1) ∷ around c.x c.y c.z)
  unfolding gen_stencil9p addrs9p
  gen_stencil9p-ring pw ph small =
      let (c, found) = slice_found pw ph small in
      (
        c,
        rw (
          found,
          at3-cell n _ _ _ laid c.x (c.y + 1) (c.z + 1) c.x_in (inner c.y_in) (inner c.z_in),
          addrs8p-ring c.x c.y c.z c.x_in c.y_in c.z_in,
        ),
        (
          cell-InArray n _ _ _ _ _ _ c.x_in (inner c.y_in) (inner c.z_in),
          ring-InArray c.x c.y c.z c.x_in c.y_in c.z_in,
        ),
      )
