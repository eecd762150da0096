-- ===== src/ExecBlock/Control.antt =====
-- The number of global steps of a block of engine/ar_execblock.cpp.
use siena_mem.Base.{ℕ, ◌*◌, ◌≡◌, refl, ap, some, List, [], ◌∷◌, arith}
use siena_mem.Types.{gcd}
use siena_mem.Types.Gcd.{Divides, gcd-IsGcd}
use siena_mem.ExecBlock.{ExecBlock, entry_count, gcd_counts, common_count, set_global_control}

-- The counts of the nodes of a list of entries.
pub data Counts (b : ExecBlock) : List (ℕ × ℕ) → List ℕ → Type 0 where
  none_left : Counts b [] []
  next :
      {e : ℕ × ℕ} {l : List (ℕ × ℕ)} {count : ℕ} {cs : List ℕ}
      → entry_count b e ≡ some count
      → Counts b l cs
      → Counts b (e ∷ l) (count ∷ cs)

abbrev pub DividesAll : ℕ → List ℕ → Type 0
DividesAll g [] = Unit
DividesAll g (c ∷ cs) = Divides g c × DividesAll g cs

pub Divides-trans : (d g c : ℕ) → Divides d g → Divides g c → Divides d c
Divides-trans d g c (p, e) (q, f) = (q * p, omega (arith, f, ap (λ (t : ℕ). q * t) e))

gcd_counts_lem :
    (b : ExecBlock) (out : ℕ) (l : List (ℕ × ℕ)) (cs : List ℕ)
    → Counts b l cs
    → (g : ℕ) × (gcd_counts b out l ≡ some g)
      × Divides g out
      × DividesAll g cs
      × ((d : ℕ) → Divides d out → DividesAll d cs → Divides d g)
unfolding gcd_counts
gcd_counts_lem b out [] [] none_left = (out, refl, (1, omega arith), tt, λ d p q. p)
gcd_counts_lem b out [] (c ∷ cs) counts = elim counts [ ]
gcd_counts_lem b out (e ∷ l) [] counts = elim counts [ ]
gcd_counts_lem b out (e ∷ l) (c ∷ cs) (next found rest) =
    let (g, run, left, all, greatest) = gcd_counts_lem b (gcd out c) l cs rest in
    let h = gcd-IsGcd out c in
    (
      g,
      rw found run,
      Divides-trans g (gcd out c) out left h.left,
      (Divides-trans g (gcd out c) c left h.right, all),
      λ d p q. greatest d (h.greatest d p q.0) q.1,
    )

common_count_lem :
    (b : ExecBlock) (l : List (ℕ × ℕ)) (count : ℕ) (cs : List ℕ)
    → Counts b l (count ∷ cs)
    → (b' : ExecBlock) × (common_count b l ≡ some b')
      × DividesAll b'.global_control (count ∷ cs)
      × ((d : ℕ) → DividesAll d (count ∷ cs) → Divides d b'.global_control)
unfolding common_count
common_count_lem b [] count cs counts = elim counts [ ]
common_count_lem b (e ∷ l) count cs (next found rest) =
    let (g, run, left, all, greatest) = gcd_counts_lem b count l cs rest in
    (record b { global_control = g }, rw (found, run) refl, (left, all), λ d p. greatest d p.0 p.1)

-- Without a given number, set_global_control on a block with a node takes the greatest common divisor of
-- the counts of all nodes: it divides each, and whatever divides each divides it.
pub set_global_control-gcd :
    (b : ExecBlock) (count : ℕ) (cs : List ℕ)
    → Counts b b.node_list (count ∷ cs)
    → (b' : ExecBlock) × (set_global_control 0 b ≡ some b')
      × DividesAll b'.global_control (count ∷ cs)
      × ((d : ℕ) → DividesAll d (count ∷ cs) → Divides d b'.global_control)
unfolding set_global_control
set_global_control-gcd b count cs counts = common_count_lem b b.node_list count cs counts
