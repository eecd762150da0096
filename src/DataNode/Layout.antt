-- ===== src/DataNode/Layout.antt =====
-- The cells of an array of three extents, and the addresses that the stencil generators compute.
use siena_mem.Base.{
  List, [], ◌∷◌, ℕ, ◌+◌, ◌*◌, ◌≤◌, ◌<◌, ◌≡◌, sym, ap, ◌∙◌, arith, word, add64, sub64, mul64,
}
use siena_mem.DataNode.{DataNode, dim_at}
use siena_mem.DataNode.Generators.{at3}

-- The node is laid out as `d0` by `d1` by `d2` elements that fit into the address space, and its
-- three distances are those of one element, one row and one slice.
pub record IsLaid (n : DataNode) (d0 d1 d2 : ℕ) : Type 0 where
  pub extent0 : dim_at n 0 ≡ d0
  pub extent1 : dim_at n 1 ≡ d1
  pub element : n.diff0 ≡ n.access_size
  pub row : n.diff1 ≡ d0 * n.access_size
  pub slice : n.diff2 ≡ d0 * d1 * n.access_size
  pub fits : n.addr_st + d0 * d1 * d2 * n.access_size < word

-- The address of the cell (x, y, z).
unfoldable pub cell : DataNode → ℕ → ℕ → ℕ → ℕ → ℕ → ℕ
cell n d0 d1 x y z = n.addr_st + ((z * d1 + y) * d0 + x) * n.access_size

-- An address of an element of the allocation.
abbrev pub InArray : DataNode → ℕ → ℕ → ℕ → ℕ → Type 0
InArray n d0 d1 d2 a =
    (n.addr_st ≤ a) × (a + n.access_size ≤ n.addr_st + d0 * d1 * d2 * n.access_size)

-- All of a list of addresses.
abbrev pub AllInArray : DataNode → ℕ → ℕ → ℕ → List ℕ → Type 0
AllInArray n d0 d1 d2 [] = Unit
AllInArray n d0 d1 d2 (a ∷ l) = InArray n d0 d1 d2 a × AllInArray n d0 d1 d2 l

index_lt : (i j m k : ℕ) → i < m → j < k → j * m + i < k * m
index_lt i j m k p q = grind arith

index_below : (d0 d1 d2 x y z : ℕ) → x < d0 → y < d1 → z < d2 → (z * d1 + y) * d0 + x < d0 * d1 * d2
index_below d0 d1 d2 x y z hx hy hz =
    omega (arith, index_lt x (z * d1 + y) d0 (d2 * d1) hx (index_lt y z d1 d2 hy hz))

scaled : (i k s : ℕ) → i < k → i * s + s ≤ k * s
scaled i k s h = grind arith

sum_exact :
    (a b c d e f g : ℕ)
    → a + b * c + d * e + f * g < word
    → add64 (add64 (add64 a (mul64 b c)) (mul64 d e)) (mul64 f g) ≡ a + b * c + d * e + f * g
unfolding add64 mul64
sum_exact a b c d e f g h = omega arith

pub le-mul : (a b : ℕ) → 0 < b → a ≤ a * b
le-mul a b h = grind arith

-- Every extent is below the size of the address space.
pub extents_small :
    (a d0 d1 d2 s : ℕ)
    → a + d0 * d1 * d2 * s < word
    → 0 < d0
    → 0 < d1
    → 0 < d2
    → 0 < s
    → (d0 < word) × (d1 < word) × (d2 < word) × (d0 * d1 * d2 < word)
extents_small a d0 d1 d2 s fits p0 p1 p2 ps =
    let all = le-mul (d0 * d1 * d2) s ps in
    let plane = le-mul (d0 * d1) d2 p2 in
    let plane_pos : 0 < d0 * d1 = omega (arith, le-mul d0 d1 p1) in
    (
      omega (arith, all, plane, le-mul d0 d1 p1),
      omega (arith, all, plane, le-mul d1 d0 p0),
      omega (arith, all, le-mul d2 (d0 * d1) (plane_pos)),
      omega (arith, all),
    )

module _ (n : DataNode) (d0 d1 d2 : ℕ) where
  pub cell-InArray :
      (x y z : ℕ) → x < d0 → y < d1 → z < d2 → InArray n d0 d1 d2 (cell n d0 d1 x y z)
  unfolding cell
  cell-InArray x y z hx hy hz =
      let inside = scaled _ _ n.access_size (index_below d0 d1 d2 x y z hx hy hz) in
      (omega arith, omega (arith, inside))

  module _ (laid : IsLaid n d0 d1 d2) where
    pub cell-lt-word :
        (x y z : ℕ) → x < d0 → y < d1 → z < d2 → cell n d0 d1 x y z + n.access_size < word
    cell-lt-word x y z hx hy hz = omega (arith, cell-InArray x y z hx hy hz, laid.fits)

    cell-sum :
        (x y z : ℕ) → cell n d0 d1 x y z ≡ n.addr_st + n.diff2 * z + n.diff1 * y + n.diff0 * x
    unfolding cell
    cell-sum x y z = omega (
      arith,
      ap (λ (t : ℕ). t * z) laid.slice,
      ap (λ (t : ℕ). t * y) laid.row,
      ap (λ (t : ℕ). t * x) laid.element,
    )

    -- The address expression of the generators does not wrap: it is the cell's address.
    pub at3-cell : (x y z : ℕ) → x < d0 → y < d1 → z < d2 → at3 n x y z ≡ cell n d0 d1 x y z
    at3-cell x y z hx hy hz =
        sum_exact n.addr_st n.diff2 z n.diff1 y n.diff0 x
          (omega (arith, cell-sum x y z, cell-lt-word x y z hx hy hz))
        ∙ sym (cell-sum x y z)

    -- Steps to the neighbours along the three axes.
    pub left :
        (x y z : ℕ)
        → x + 1 < d0
        → y < d1
        → z < d2
        → sub64 (cell n d0 d1 (x + 1) y z) n.diff0 ≡ cell n d0 d1 x y z
    unfolding sub64
    left x y z hx hy hz =
        omega (arith, cell-sum x y z, cell-sum (x + 1) y z, cell-lt-word (x + 1) y z hx hy hz)

    pub right :
        (x y z : ℕ)
        → x + 1 < d0
        → y < d1
        → z < d2
        → add64 (cell n d0 d1 x y z) n.diff0 ≡ cell n d0 d1 (x + 1) y z
    unfolding add64
    right x y z hx hy hz =
        omega (arith, cell-sum x y z, cell-sum (x + 1) y z, cell-lt-word (x + 1) y z hx hy hz)

    pub down :
        (x y z : ℕ)
        → x < d0
        → y + 1 < d1
        → z < d2
        → sub64 (cell n d0 d1 x (y + 1) z) n.diff1 ≡ cell n d0 d1 x y z
    unfolding sub64
    down x y z hx hy hz =
        omega (arith, cell-sum x y z, cell-sum x (y + 1) z, cell-lt-word x (y + 1) z hx hy hz)

    pub up :
        (x y z : ℕ)
        → x < d0
        → y + 1 < d1
        → z < d2
        → add64 (cell n d0 d1 x y z) n.diff1 ≡ cell n d0 d1 x (y + 1) z
    unfolding add64
    up x y z hx hy hz =
        omega (arith, cell-sum x y z, cell-sum x (y + 1) z, cell-lt-word x (y + 1) z hx hy hz)

    pub back :
        (x y z : ℕ)
        → x < d0
        → y < d1
        → z + 1 < d2
        → sub64 (cell n d0 d1 x y (z + 1)) n.diff2 ≡ cell n d0 d1 x y z
    unfolding sub64
    back x y z hx hy hz =
        omega (arith, cell-sum x y z, cell-sum x y (z + 1), cell-lt-word x y (z + 1) hx hy hz)

    pub front :
        (x y z : ℕ)
        → x < d0
        → y < d1
        → z + 1 < d2
        → add64 (cell n d0 d1 x y z) n.diff2 ≡ cell n d0 d1 x y (z + 1)
    unfolding add64
    front x y z hx hy hz =
        omega (arith, cell-sum x y z, cell-sum x y (z + 1), cell-lt-word x y (z + 1) hx hy hz)
