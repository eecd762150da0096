-- ===== src/Graph/Links.antt =====
-- The dependencies that Engine::build_execgraph of engine/ar_parse.cpp resolves: one dependency, and those of a node.
use siena_mem.Base.{
  ℕ, zero, suc, ◌+◌, ◌<◌, ◌≡◌, ◌≢◌, refl, sym, ap, ◌∙◌, inl, inr, ◌&&◌, Option, some, List, [], ◌∷◌,
  ◌++◌, arith, ◌==◌, if◌then◌else◌, get_elem?, set, bind-some, some_inj, Bool-cases, ==→eq, ==→ne,
  lt_of_get_elem?,
}
use mathlib.Core.Path.{subst}
use mathlib.Core.List.{append-nil, append_assoc}
use siena_mem.DataNode.{DataNode}
use siena_mem.Graph.{find_dep, link_nodes, resolve_deps}
use siena_mem.Graph.Kept.{read_of, look, look-set_same, look-set_self, look-set_ne, link_nodes-look}

abbrev pub name_of : DataNode → ℕ
name_of n = n.name

abbrev pub prev_of : DataNode → List ℕ
prev_of n = n.prev

abbrev pub next_of : DataNode → List ℕ
next_of n = n.next

-- How often a number is in a list.
abbrev pub count : ℕ → List ℕ → ℕ
count a [] = 0
count a (x ∷ xs) = (if a == x then 1 else 0) + count a xs

count-append :
    (a : ℕ) (xs : List ℕ) (x : ℕ) → count a (xs ++ x ∷ []) ≡ count a xs + (if a == x then 1 else 0)
count-append a [] x = omega arith
count-append a (y ∷ xs) x = omega (arith, count-append a xs x)

-- `j` is the latest before `k` with the name.
abbrev pub IsLatest : (ℕ → Option ℕ) → ℕ → ℕ → ℕ → Type 0
IsLatest names name k j =
    (j < k) × (names j ≡ some name) × ((i : ℕ) → j < i → i < k → names i ≢ some name)

-- Each of these names stands for the latest node before `k` that has it.
abbrev pub Resolves : (ℕ → Option ℕ) → ℕ → List ℕ → List ℕ → Type 0
Resolves names k [] [] = Unit
Resolves names k [] (j ∷ js) = ⊥
Resolves names k (name ∷ ds) [] = ⊥
Resolves names k (name ∷ ds) (j ∷ js) = IsLatest names name k j × Resolves names k ds js

-- Whatever has a node before it is after that node, as often.
abbrev pub Mirrored : List DataNode → Type 0
Mirrored nodes =
    (i j : ℕ) (p q : List ℕ)
    → look prev_of nodes i ≡ some p
    → look next_of nodes j ≡ some q
    → count j p ≡ count i q

find_dep-IsLatest :
    (names : ℕ → Option ℕ) (nodes : List DataNode) (name k j : ℕ)
    → ((i : ℕ) → look name_of nodes i ≡ names i)
    → find_dep nodes name k ≡ some j
    → IsLatest names name k j
unfolding find_dep
find_dep-IsLatest names nodes name zero j named e = absurd (cc e)
find_dep-IsLatest names nodes name (suc k) j named e =
    let (n, found, rest) = bind-some (get_elem? nodes k) _ j e in
    let here : names k ≡ some n.name = sym (named k) ∙ ap (read_of name_of) found in
    elim (Bool-cases (name == n.name)) [
      | inl q ↦
          let it : k ≡ j = some_inj k j (sym (rw q refl) ∙ rest) in
          (
            omega (arith, it),
            subst (λ x. names x ≡ some name) it (here ∙ ap some (sym (==→eq name n.name q))),
            λ i a b. absurd (omega (arith, it)),
          )
      | inr q ↦
          let before : find_dep nodes name k ≡ some j = sym (rw q refl) ∙ rest in
          let (lt, same, none_later) = find_dep-IsLatest names nodes name k j named before in
          (
            omega (arith, lt),
            same,
            λ i a b. elim (Bool-cases (i == k)) [
              | inl r ↦ λ f.
                  ==→ne name n.name q
                    (sym (some_inj n.name name (sym here ∙ ap names (sym (==→eq i k r)) ∙ f)))
              | inr r ↦ none_later i a (omega (arith, ==→ne i k r))
            ],
          )
    ]

-- What a link of the node `pos` to an earlier one does.
record Linked (pos j : ℕ) (ns ns' : List DataNode) : Type 0 where
  prev_here :
      (ps : List ℕ) → look prev_of ns pos ≡ some ps → look prev_of ns' pos ≡ some (ps ++ j ∷ [])
  prev_else : (i : ℕ) → pos ≢ i → look prev_of ns' i ≡ look prev_of ns i
  next_there :
      (q : List ℕ)
      → look next_of ns' j ≡ some q
      → (qs : List ℕ) × (look next_of ns j ≡ some qs) × (q ≡ qs ++ pos ∷ [])
  next_else : (i : ℕ) → j ≢ i → look next_of ns' i ≡ look next_of ns i

link_nodes-Linked :
    (pos j : ℕ) (ns ns' : List DataNode)
    → j < pos
    → link_nodes pos pos j ns ≡ some ns'
    → Linked pos j ns ns'
unfolding link_nodes
link_nodes-Linked pos j ns ns' lt e =
    let (a, e1, e2) = bind-some (get_elem? ns pos) _ ns' e in
    let a' : DataNode = record a { prev = a.prev ++ j ∷ [] } in
    let ns1 = set ns pos a' in
    let (b, f1, f2) = bind-some (get_elem? ns1 j) _ ns' e2 in
    let b' : DataNode = record b { next = b.next ++ pos ∷ [] } in
    let last : set ns1 j b' ≡ ns' = some_inj (set ns1 j b') ns' f2 in
    subst (Linked pos j ns) last (record {
      prev_here = λ ps h.
          let own : a.prev ≡ ps = some_inj a.prev ps (sym (ap (read_of prev_of) e1) ∙ h) in
          look-set_same prev_of ns1 j b b' f1 refl pos
          ∙ look-set_self prev_of ns pos a' (lt_of_get_elem? ns pos a e1)
          ∙ ap (λ x. some (x ++ j ∷ [])) own;
      prev_else =
          λ i ne. look-set_same prev_of ns1 j b b' f1 refl i ∙ look-set_ne prev_of ns pos i a' ne;
      next_there = λ q h.
          let own : b'.next ≡ q =
            some_inj b'.next q
              (sym (look-set_self next_of ns1 j b' (lt_of_get_elem? ns1 j b f1)) ∙ h) in
          (
            b.next,
            sym (look-set_same next_of ns pos a a' e1 refl j) ∙ ap (read_of next_of) f1,
            sym own,
          );
      next_else =
          λ i ne. look-set_ne next_of ns1 j i b' ne ∙ look-set_same next_of ns pos a a' e1 refl i;
    })

module _ (pos j : ℕ) (ns ns' : List DataNode) (ps : List ℕ) (l : Linked pos j ns ns') where
  -- One more for the link itself.
  abbrev added : ℕ → ℕ → ℕ
  added i j' = if pos == i && j == j' then 1 else 0

  prev_lem :
      (i j' : ℕ) (p : List ℕ)
      → look prev_of ns pos ≡ some ps
      → look prev_of ns' i ≡ some p
      → (p₀ : List ℕ) × (look prev_of ns i ≡ some p₀) × (count j' p ≡ count j' p₀ + added i j')
  prev_lem i j' p own f = elim (Bool-cases (pos == i)) [
    | inl r ↦
        let here = ==→eq pos i r in
        let now : ps ++ j ∷ [] ≡ p =
          some_inj (ps ++ j ∷ []) p (sym (l.prev_here ps own) ∙ ap (look prev_of ns') here ∙ f) in
        (
          ps,
          sym (ap (look prev_of ns) here) ∙ own,
          sym (ap (count j') now) ∙ count-append j' ps j ∙ ground arith,
        )
    | inr r ↦ (p, sym (l.prev_else i (==→ne pos i r)) ∙ f, ground arith)
  ]

  next_lem :
      (i j' : ℕ) (q : List ℕ)
      → look next_of ns' j' ≡ some q
      → (q₀ : List ℕ) × (look next_of ns j' ≡ some q₀) × (count i q ≡ count i q₀ + added i j')
  next_lem i j' q g = elim (Bool-cases (j == j')) [
    | inl r ↦
        let here = ==→eq j j' r in
        let (qs, before, now) = l.next_there q (ap (look next_of ns') here ∙ g) in
        (
          qs,
          sym (ap (look next_of ns) here) ∙ before,
          ap (count i) now ∙ count-append i qs pos ∙ ground arith,
        )
    | inr r ↦ (q, sym (l.next_else j' (==→ne j j' r)) ∙ g, ground arith)
  ]

  Linked-Mirrored : look prev_of ns pos ≡ some ps → Mirrored ns → Mirrored ns'
  Linked-Mirrored own m i j' p q f g =
      let (p₀, f₀, a) = prev_lem i j' p own f in
      let (q₀, g₀, b) = next_lem i j' q g in
      a ∙ ap (λ x. x + added i j') (m i j' p₀ q₀ f₀ g₀) ∙ sym b

-- What the loop over the dependencies of the node `pos` makes of the nodes.
pub record Resolved (names : ℕ → Option ℕ) (pos : ℕ) (ds ps : List ℕ) (ns ns' : List DataNode)
    : Type 0 where
  pub found : List ℕ
  pub prev_here : look prev_of ns' pos ≡ some (ps ++ found)
  pub resolves : Resolves names pos ds found
  pub prev_else : (i : ℕ) → pos ≢ i → look prev_of ns' i ≡ look prev_of ns i
  pub mirrored : Mirrored ns'

pub resolve_deps-Resolved :
    (names : ℕ → Option ℕ) (pos : ℕ) (ds ps : List ℕ) (ns ns' : List DataNode)
    → ((i : ℕ) → look name_of ns i ≡ names i)
    → look prev_of ns pos ≡ some ps
    → Mirrored ns
    → resolve_deps pos pos ds ns ≡ some ns'
    → Resolved names pos ds ps ns ns'
unfolding resolve_deps
resolve_deps-Resolved names pos [] ps ns ns' named own m e =
    subst (Resolved names pos [] ps ns) (some_inj ns ns' e) (record {
      found = [];
      prev_here = own ∙ ap some (sym (append-nil ps));
      resolves = tt;
      prev_else = λ i ne. refl;
      mirrored = m;
    })
resolve_deps-Resolved names pos (name ∷ ds) ps ns ns' named own m e =
    let (j, e1, f1) = bind-some (find_dep ns name pos) _ ns' e in
    let (ns1, e2, f2) = bind-some (link_nodes pos pos j ns) (resolve_deps pos pos ds) ns' f1 in
    let latest = find_dep-IsLatest names ns name pos j named e1 in
    let l = link_nodes-Linked pos j ns ns1 latest.0 e2 in
    let r =
      resolve_deps-Resolved names pos ds (ps ++ j ∷ []) ns1 ns'
        (λ i. link_nodes-look name_of (λ n p q. refl) pos pos j ns ns1 e2 i ∙ named i)
        (l.prev_here ps own) (Linked-Mirrored pos j ns ns1 ps l own m) f2 in
    record {
      found = j ∷ r.found;
      prev_here = r.prev_here ∙ ap some (append_assoc ps (j ∷ []) r.found);
      resolves = (latest, r.resolves);
      prev_else = λ i ne. r.prev_else i ne ∙ l.prev_else i ne;
      mirrored = r.mirrored;
    }
