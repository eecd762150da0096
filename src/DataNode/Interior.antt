-- ===== src/DataNode/Interior.antt =====
-- The patterns that walk the cells away from the border of a three-dimensional array: ghost cells and
-- the three-point stencil.
use native.Mathlib.Nat.{div-add-mod', mod-lt, div-lt_iff_lt-mul, div-le_self}
use siena_mem.Base.{
  ℕ, ◌+◌, ◌*◌, ◌/◌, ◌%◌, ◌<◌, ◌≡◌, ap, ◌∙◌, Option, some, [], ◌∷◌, arith, ne→==, word, add64,
  add64-eq, sub64, sub64-eq, mul64, mul64-eq,
}
use siena_mem.DataNode.{DataNode, dim_at}
use siena_mem.DataNode.Generators.{
  coords3, cache_lines, expand, addrs3p, gen_ghostcell3d, gen_stencil3p,
}
use siena_mem.DataNode.Layout.{
  IsLaid, cell, InArray, cell-InArray, AllInArray, extents_small, at3-cell, left, right,
}

-- `a - a / w * w` on words is the remainder.
pub remainder : (a w : ℕ) → a < word → sub64 a (mul64 (a / w) w) ≡ a % w
remainder a w small =
    let exact = div-add-mod' a w in
    let quotient : mul64 (a / w) w ≡ a / w * w = mul64-eq (a / w) w (omega arith) in
    rw quotient (sub64-eq a (a / w * w) (omega arith) small ∙ omega arith)

-- The quotients and remainders of a step below w * h * l.
pub step_bounds :
    (t w h l : ℕ) → 0 < w → 0 < h → t < w * h * l → (t % w < w) × (t / w % h < h) × (t / w / h < l)
step_bounds t w h l pw ph small = (
  mod-lt t pw,
  mod-lt (t / w) ph,
  (div-lt_iff_lt-mul ph).1 ((div-lt_iff_lt-mul pw).1 (omega arith)),
)

pub without_border : (w : ℕ) → w + 2 < word → sub64 (w + 2) 2 ≡ w
without_border w h = sub64-eq (w + 2) 2 (omega arith) h ∙ omega arith

-- The centres, for an array whose first two extents are w + 2 and h + 2.
pub coords3_lem :
    (n : DataNode) (w h t : ℕ)
    → 0 < w
    → 0 < h
    → dim_at n 0 ≡ w + 2
    → dim_at n 1 ≡ h + 2
    → w + 2 < word
    → h + 2 < word
    → t < word
    → coords3 n t ≡ some (add64 (t % w) 1, add64 (t / w % h) 1, add64 (t / w / h) 1)
unfolding coords3
coords3_lem n w h t pw ph e0 e1 sw sh st = rw (
  e0,
  e1,
  without_border w sw,
  without_border h sh,
  ne→== w 0 (omega arith),
  ne→== h 0 (omega arith),
  remainder t w st,
  remainder (t / w) h (omega (arith, div-le_self t w)),
)

-- A centre away from the border: step `t` of the walk.
pub record Centre (w h l t : ℕ) : Type 0 where
  pub x : ℕ
  pub y : ℕ
  pub z : ℕ
  pub x_in : x < w
  pub y_in : y < h
  pub z_in : z < l
  pub step : (z * h + y) * w + x ≡ t

pub step_of : (t w h : ℕ) → (t / w / h * h + t / w % h) * w + t % w ≡ t
step_of t w h = omega (arith, div-add-mod' t w, ap (λ (q : ℕ). q * w) (div-add-mod' (t / w) h))

unfoldable pub centre : (w h l t : ℕ) → 0 < w → 0 < h → t < w * h * l → Centre w h l t
centre w h l t pw ph small =
    let (bx, by, bz) = step_bounds t w h l pw ph small in
    record {
      x = t % w;
      y = t / w % h;
      z = t / w / h;
      x_in = bx;
      y_in = by;
      z_in = bz;
      step = step_of t w h;
    }

pub some_triple :
    {a b c a' b' c' : ℕ}
    → a ≡ a'
    → b ≡ b'
    → c ≡ c'
    → ◌≡◌ {A = Option (ℕ × ℕ × ℕ)} (some (a, b, c)) (some (a', b', c'))
some_triple p q r = λ i. some (p i, q i, r i)

pub plus_two : (x : ℕ) → x + 1 + 1 ≡ x + 2
plus_two x = omega arith

pub inner : {x w : ℕ} → x < w → x + 1 < w + 2
inner h = omega arith

module _ (n : DataNode) (w h l t : ℕ) (laid : IsLaid n (w + 2) (h + 2) (l + 2))
    (size : 0 < n.access_size) where
  abbrev at : ℕ → ℕ → ℕ → ℕ
  at = cell n (w + 2) (h + 2)

  pub centre_found :
      0 < w
      → 0 < h
      → t < w * h * l
      → (c : Centre w h l t) × (coords3 n t ≡ some (c.x + 1, c.y + 1, c.z + 1))
  unfolding centre
  centre_found pw ph small =
      let (s0, s1, s2, all) =
        extents_small n.addr_st (w + 2) (h + 2) (l + 2) n.access_size laid.fits (omega arith)
          (omega arith) (omega arith) size in
      let c = centre w h l t pw ph small in
      (
        c,
        coords3_lem n w h t pw ph laid.extent0 laid.extent1 s0 s1 (omega arith)
            ∙ some_triple (add64-eq (t % w) 1 (omega (arith, c.x_in)))
                (add64-eq (t / w % h) 1 (omega (arith, c.y_in)))
                (add64-eq (t / w / h) 1 (omega (arith, c.z_in))),
      )

  -- At step `t` the ghost-cell pattern touches the cell (x + 1, y + 1, z + 1) alone, where
  -- t = (z * h + y) * w + x counts the cells away from the border.
  pub gen_ghostcell3d-cell :
      0 < w
      → 0 < h
      → t < w * h * l
      → (c : Centre w h l t) × (gen_ghostcell3d n t
          ≡ some (cache_lines n.num_cacheline_per_access (at (c.x + 1) (c.y + 1) (c.z + 1))))
        × InArray n (w + 2) (h + 2) (l + 2) (at (c.x + 1) (c.y + 1) (c.z + 1))
  unfolding gen_ghostcell3d
  gen_ghostcell3d-cell pw ph small =
      let (c, found) = centre_found pw ph small in
      (
        c,
        rw (
          found,
          at3-cell n _ _ _ laid (c.x + 1) (c.y + 1) (c.z + 1) (inner c.x_in) (inner c.y_in)
              (inner c.z_in),
        ),
        cell-InArray n _ _ _ _ _ _ (inner c.x_in) (inner c.y_in) (inner c.z_in),
      )

  -- At step `t` the three-point stencil touches (x, y + 1, z + 1), (x + 1, y + 1, z + 1) and
  -- (x + 2, y + 1, z + 1), all inside the array, where t = (z * h + y) * w + x.
  pub gen_stencil3p-cells :
      0 < w
      → 0 < h
      → t < w * h * l
      → (c : Centre w h l t) × (let cells =
            at c.x (c.y + 1) (c.z + 1)
            ∷ at (c.x + 1) (c.y + 1) (c.z + 1)
            ∷ at (c.x + 2) (c.y + 1) (c.z + 1)
            ∷ [] in
          (gen_stencil3p n t ≡ some (expand n.num_cacheline_per_access cells))
          × AllInArray n (w + 2) (h + 2) (l + 2) cells)
  unfolding gen_stencil3p addrs3p
  gen_stencil3p-cells pw ph small =
      let (c, found) = centre_found pw ph small in
      let y_in = inner c.y_in in
      let z_in = inner c.z_in in
      (
        c,
        (
          rw (
            found,
            at3-cell n _ _ _ laid (c.x + 1) (c.y + 1) (c.z + 1) (inner c.x_in) y_in z_in,
            left n _ _ _ laid c.x (c.y + 1) (c.z + 1) (inner c.x_in) y_in z_in,
            right n _ _ _ laid (c.x + 1) (c.y + 1) (c.z + 1) (omega (arith, c.x_in)) y_in z_in,
            plus_two c.x,
          ),
          (
            cell-InArray n _ _ _ _ _ _ (omega (arith, c.x_in)) y_in z_in,
            (
              cell-InArray n _ _ _ _ _ _ (inner c.x_in) y_in z_in,
              (cell-InArray n _ _ _ _ _ _ (omega (arith, c.x_in)) y_in z_in, tt),
            ),
          ),
        ),
      )
