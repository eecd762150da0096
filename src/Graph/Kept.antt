-- ===== src/Graph/Kept.antt =====
-- What engine/ar_parse.cpp leaves as it is in the nodes of a graph.
use siena_mem.Base.{
  ℕ, ◌≡◌, ◌≢◌, ◌<◌, sym, ap, ◌∙◌, inl, inr, Option, none, some, List, [], ◌∷◌, ◌++◌, ◌==◌, length,
  get_elem?, set, bind-some, some_inj, get_elem?-set_self, get_elem?-set_ne, lt_of_get_elem?,
  Bool-cases, ==→eq, ==→ne,
}
use siena_mem.DataNode.{DataNode}
use siena_mem.Graph.{find_dep, link_nodes, resolve_deps}

-- What `f` reads of the node at `i`.
abbrev pub read_of : {A : Type 0} → (DataNode → A) → Option DataNode → Option A
read_of f none = none
read_of f (some n) = some (f n)

abbrev pub look : {A : Type 0} → (DataNode → A) → List DataNode → ℕ → Option A
look f nodes i = read_of f (get_elem? nodes i)

module _ {A : Type 0} (f : DataNode → A) where
  -- A write that does not change what `f` reads.
  pub look-set_same :
      (nodes : List DataNode) (k : ℕ) (n m : DataNode)
      → get_elem? nodes k ≡ some n
      → f m ≡ f n
      → (i : ℕ) → look f (set nodes k m) i ≡ look f nodes i
  look-set_same nodes k n m found same i = elim (Bool-cases (k == i)) [
    | inl q ↦
        let here = ==→eq k i q in
        ap (look f (set nodes k m)) (sym here)
        ∙ ap (read_of f) (get_elem?-set_self nodes k m (lt_of_get_elem? nodes k n found))
        ∙ ap some same
        ∙ sym (ap (read_of f) found)
        ∙ ap (look f nodes) here
    | inr q ↦ ap (read_of f) (get_elem?-set_ne nodes k i m (==→ne k i q))
  ]

  pub look-set_self :
      (nodes : List DataNode) (k : ℕ) (m : DataNode)
      → k < length nodes
      → look f (set nodes k m) k ≡ some (f m)
  look-set_self nodes k m h = ap (read_of f) (get_elem?-set_self nodes k m h)

  pub look-set_ne :
      (nodes : List DataNode) (k i : ℕ) (m : DataNode)
      → k ≢ i
      → look f (set nodes k m) i ≡ look f nodes i
  look-set_ne nodes k i m h = ap (read_of f) (get_elem?-set_ne nodes k i m h)

  module _ (blind : (n : DataNode) (p q : List ℕ) → f (record n { prev = p; next = q }) ≡ f n) where
    -- Resolving dependencies changes nothing but the dependencies.
    pub link_nodes-look :
        (pos k j : ℕ) (nodes nodes' : List DataNode)
        → link_nodes pos k j nodes ≡ some nodes'
        → (i : ℕ) → look f nodes' i ≡ look f nodes i
    unfolding link_nodes
    link_nodes-look pos k j nodes nodes' e i =
        let (a, e1, e2) = bind-some (get_elem? nodes k) _ nodes' e in
        let a' : DataNode = record a { prev = a.prev ++ j ∷ [] } in
        let nodes1 = set nodes k a' in
        let (b, f1, f2) = bind-some (get_elem? nodes1 j) _ nodes' e2 in
        let b' : DataNode = record b { next = b.next ++ pos ∷ [] } in
        let last : set nodes1 j b' ≡ nodes' = some_inj (set nodes1 j b') nodes' f2 in
        sym (ap (λ (x : List DataNode). look f x i) last)
        ∙ look-set_same nodes1 j b b' f1 (blind b b.prev b'.next) i
        ∙ look-set_same nodes k a a' e1 (blind a a'.prev a.next) i

    pub resolve_deps-look :
        (pos k : ℕ) (names : List ℕ) (nodes nodes' : List DataNode)
        → resolve_deps pos k names nodes ≡ some nodes'
        → (i : ℕ) → look f nodes' i ≡ look f nodes i
    unfolding resolve_deps
    resolve_deps-look pos k [] nodes nodes' e i =
        let same : nodes ≡ nodes' = some_inj nodes nodes' e in
        ap (λ (x : List DataNode). look f x i) (sym same)
    resolve_deps-look pos k (name ∷ names) nodes nodes' e i =
        let (j, e1, e2) = bind-some (find_dep nodes name pos) _ nodes' e in
        let (nodes1, f1, f2) =
          bind-some (link_nodes pos k j nodes) (resolve_deps pos k names) nodes' e2 in
        resolve_deps-look pos k names nodes1 nodes' f2 i ∙ link_nodes-look pos k j nodes nodes1 f1 i
