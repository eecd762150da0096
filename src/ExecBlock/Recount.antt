-- ===== src/ExecBlock/Recount.antt =====
-- The counts that init_offsets of engine/ar_execblock.cpp writes into the nodes, which it does not need to go on.
use siena_mem.Base.{
  ℕ, ◌≡◌, refl, sym, ap, ◌∙◌, inl, inr, some, List, [], ◌∷◌, ◌==◌, get_elem?, set, add64, mul64,
  bind-some, get_elem?-set_self, get_elem?-set_ne, lt_of_get_elem?, Bool-cases, ==→eq, ==→ne,
  Option-cases,
}
use siena_mem.DataNode.{DataNode}
use siena_mem.Walk.{Group}
use siena_mem.ExecBlock.Offsets.{prev_count, prev_ops}

-- A node with other counts.
abbrev pub counted : ℕ → ℕ → ℕ → DataNode → DataNode
counted a b c n = record n { ops_step = a; offset = b; num_prev_ops = c }

-- Lists of nodes that differ in their counts only.
abbrev pub Same : List DataNode → List DataNode → Type 0
Same ns ms =
    (i : ℕ) (n : DataNode)
    → get_elem? ns i ≡ some n
    → (a : ℕ) × (b : ℕ) × (c : ℕ) × (get_elem? ms i ≡ some (counted a b c n))

pub Same-set :
    (ns ms : List DataNode) (i a b c : ℕ) (n : DataNode)
    → Same ns ms
    → get_elem? ns i ≡ some n
    → Same ns (set ms i (counted a b c n))
Same-set ns ms i a b c n s e j m f = elim (Bool-cases (i == j)) [
  | inl q ↦
      let here = ==→eq i j q in
      let (a', b', c', g) = s i n e in
      let same : m ≡ n = cc (sym f ∙ ap (get_elem? ns) (sym here) ∙ e) in
      (
        a,
        b,
        c,
        ap (get_elem? (set ms i (counted a b c n))) (sym here)
            ∙ get_elem?-set_self ms i (counted a b c n)
                (lt_of_get_elem? ms i (counted a' b' c' n) g)
            ∙ ap (λ x. some (counted a b c x)) (sym same),
      )
  | inr q ↦
      let (a', b', c', g) = s j m f in
      (a', b', c', get_elem?-set_ne ms i j (counted a b c n) (==→ne i j q) ∙ g)
]

prev_count-Same :
    (gs : List Group) (curr a b c k : ℕ) (p : DataNode)
    → prev_count gs curr p ≡ some k
    → (k' : ℕ) × (prev_count gs curr (counted a b c p) ≡ some k')
prev_count-Same gs curr a b c k p e = elim (Bool-cases (p.group_id == curr)) [
  | inl q ↦ (a, rw q refl)
  | inr q ↦ elim (Option-cases (get_elem? gs p.group_id)) [
    | inl h ↦ absurd (cc (rw (q, h) at e))
    | inr (g, h) ↦ (mul64 a g.group_steps, rw (q, h) refl)
  ]
]

pub prev_ops-Same :
    (ns ms : List DataNode) (gs : List Group) (curr : ℕ) (ids : List ℕ) (acc acc' k : ℕ)
    → Same ns ms
    → prev_ops ns gs curr ids acc ≡ some k
    → (k' : ℕ) × (prev_ops ms gs curr ids acc' ≡ some k')
unfolding prev_ops
prev_ops-Same ns ms gs curr [] acc acc' k s e = (acc', refl)
prev_ops-Same ns ms gs curr (id ∷ ids) acc acc' k s e =
    let (p, e1, e2) = bind-some (get_elem? ns id) _ k e in
    let (q, e3, e4) =
      bind-some (prev_count gs curr p) (λ v. prev_ops ns gs curr ids (add64 acc v)) k e2 in
    let (a, b, c, found) = s id p e1 in
    let (q', counts) = prev_count-Same gs curr a b c q p e3 in
    let (k', rest) = prev_ops-Same ns ms gs curr ids (add64 acc q) (add64 acc' q') k s e4 in
    (k', rw (found, counts) rest)
