-- ===== src/Parse/Construct.antt =====
-- Engine::construct_graph of engine/ar_parse.cpp: from the statements of a model to the groups that are walked.
use siena_mem.Base.{
  ℕ, zero, suc, ◌+◌, ◌*◌, ◌/◌, ◌≤◌, ◌<◌, ◌≡◌, ◌⊎◌, refl, sym, ap, ◌∙◌, inl, inr, Option, some, List,
  [], ◌∷◌, arith, ◌==◌, length, get_elem?, word, bind-some, some_inj, lt_of_get_elem?, Ok-some,
  Bool-cases, ==→eq, ==→ne, ◌>>=◌,
}
use mathlib.Core.Path.{subst}
use native.Mathlib.Nat.{mul-div_left}
use siena_mem.DataNode.{DataNode, MemAlloc}
use siena_mem.Types.{gcd}
use siena_mem.Types.Gcd.{Divides, gcd-IsGcd}
use siena_mem.Walk.{walk_step}
use siena_mem.Walk.Order.{ended, total_steps}
use siena_mem.ExecBlock.{
  ExecBlock, entry_count, data_count, gcd_counts, common_count, set_global_control,
}
use siena_mem.ExecBlock.Control.{Divides-trans}
use siena_mem.ExecBlock.Window.{first_walk}
use siena_mem.Graph.{build_execgraph}
use siena_mem.Graph.Kept.{look, read_of}
use siena_mem.Graph.Entries.{InOrder}
use siena_mem.Graph.Built.{Busy}
use siena_mem.Graph.Visits.{seen, built_lem, build_execgraph-visits}
use siena_mem.Parse.{Requires, build_nodes, construct_graph, empty_block}
use siena_mem.Parse.Nodes.{IsNew, AllNew, Fresh, all_asked, build_nodes-Fresh}

abbrev Has : ℕ × ℕ → List (ℕ × ℕ) → Type 0
Has e [] = ⊥
Has e (x ∷ l) = (x ≡ e) ⊎ Has e l

-- `g` divides the counts of these entries.
abbrev DividesEach : ExecBlock → ℕ → List (ℕ × ℕ) → Type 0
DividesEach b g l = (e : ℕ × ℕ) (c : ℕ) → Has e l → entry_count b e ≡ some c → Divides g c

gcd_counts-Divides :
    (b : ExecBlock) (out : ℕ) (l : List (ℕ × ℕ)) (g : ℕ)
    → gcd_counts b out l ≡ some g
    → Divides g out × DividesEach b g l
unfolding gcd_counts
gcd_counts-Divides b out [] g run = ((1, omega (arith, some_inj out g run)), λ e c h f. absurd h)
gcd_counts-Divides b out (x ∷ l) g run =
    let (count, e1, f1) = bind-some (entry_count b x) _ g run in
    let (first, rest) = gcd_counts-Divides b (gcd out count) l g f1 in
    let common = gcd-IsGcd out count in
    (
      Divides-trans g (gcd out count) out first common.left,
      λ e c h f. elim h [
        | inl same ↦
            let it : count ≡ c = some_inj count c (sym e1 ∙ ap (entry_count b) same ∙ f) in
            subst (Divides g) it (Divides-trans g (gcd out count) count first common.right)
        | inr later ↦ rest e c later f
      ],
    )

common_count-Divides :
    (b b1 : ExecBlock) (l : List (ℕ × ℕ))
    → common_count b l ≡ some b1
    → (g : ℕ) × (record b { global_control = g } ≡ b1) × DividesEach b g l
unfolding common_count
common_count-Divides b b1 [] run = absurd (cc run)
common_count-Divides b b1 (x ∷ l) run =
    let (out, e1, f1) = bind-some (entry_count b x) _ b1 run in
    let (g, e2, f2) =
      bind-some (gcd_counts b out l) (λ g. some (record b { global_control = g })) b1 f1 in
    let (first, rest) = gcd_counts-Divides b out l g e2 in
    (
      g,
      some_inj (record b { global_control = g }) b1 f2,
      λ e c h f. elim h [
        | inl same ↦ subst (Divides g) (some_inj out c (sym e1 ∙ ap (entry_count b) same ∙ f)) first
        | inr later ↦ rest e c later f
      ],
    )

-- What set_global_control finds by itself divides the count of every node.
set_global_control-Divides :
    (b b1 : ExecBlock)
    → set_global_control 0 b ≡ some b1
    → (g : ℕ) × (record b { global_control = g } ≡ b1) × DividesEach b g b.node_list
unfolding set_global_control
set_global_control-Divides b b1 run = common_count-Divides b b1 b.node_list run

InOrder-Has :
    (p : ℕ) (l : List (ℕ × ℕ)) (stop k : ℕ) → InOrder p l stop → p ≤ k → k < stop → Has (0, k) l
InOrder-Has p [] stop k o a b = absurd (omega arith)
InOrder-Has p ((zero, j) ∷ l) stop k o a b = elim (Bool-cases (p == k)) [
  | inl q ↦ inl (ap (λ (x : ℕ). (0, x)) (o.0 ∙ ==→eq p k q))
  | inr q ↦ inr (InOrder-Has (p + 1) l stop k o.1 (omega (arith, ==→ne p k q)) b)
]
InOrder-Has p ((suc kind, j) ∷ l) stop k o a b = inr (InOrder-Has p l stop k o a b)

-- The nodes have the accesses that were asked for, node by node.
AllNew-look :
    (cs : List ℕ) (ns : List DataNode) (k c : ℕ)
    → AllNew cs ns
    → look (λ n. n.access_count) ns k ≡ some c
    → get_elem? cs k ≡ some c
AllNew-look [] [] k c t e = absurd (cc e)
AllNew-look [] (n ∷ ns) k c t e = absurd t
AllNew-look (d ∷ cs) [] k c t e = absurd t
AllNew-look (d ∷ cs) (n ∷ ns) zero c t e = ap some (sym t.0.1.2) ∙ e
AllNew-look (d ∷ cs) (n ∷ ns) (suc k) c t e = AllNew-look cs ns k c t.1 e

AllNew-get_elem? :
    (cs : List ℕ) (ns : List DataNode) (k c : ℕ)
    → AllNew cs ns
    → get_elem? cs k ≡ some c
    → (n : DataNode) × (get_elem? ns k ≡ some n) × (0 < c) × IsNew c n
AllNew-get_elem? [] ns k c t e = absurd (cc e)
AllNew-get_elem? (d ∷ cs) [] k c t e = absurd t
AllNew-get_elem? (d ∷ cs) (n ∷ ns) zero c t e =
    let same : d ≡ c = some_inj d c e in
    (n, refl, subst (λ x. 0 < x) same t.0.0, subst (λ x. IsNew x n) same t.0.1)
AllNew-get_elem? (d ∷ cs) (n ∷ ns) (suc k) c t e = AllNew-get_elem? cs ns k c t.1 e

AllNew-length : (cs : List ℕ) (ns : List DataNode) → AllNew cs ns → length ns ≡ length cs
AllNew-length [] [] t = refl
AllNew-length [] (n ∷ ns) t = absurd t
AllNew-length (d ∷ cs) [] t = absurd t
AllNew-length (d ∷ cs) (n ∷ ns) t = ap suc (AllNew-length cs ns t.1)

times_lem : (g c : ℕ) → 0 < c → Divides g c → (0 < c / g) × (c / g * g ≡ c)
times_lem zero c h (q, e) = absurd (omega arith)
times_lem (suc g) c h (zero, e) = absurd (omega arith)
times_lem (suc g) c h (suc q, e) =
    let it : c / suc g ≡ suc q = ap (λ x. x / suc g) e ∙ mul-div_left (suc q) (omega arith) in
    (omega (arith, it), ap (λ x. x * suc g) it ∙ sym e)

-- A data node of a block whose number of global steps is found by set_global_control.
data_node_lem :
    (cs : List ℕ) (b : ExecBlock) (g k c : ℕ)
    → Fresh cs b
    → DividesEach b g b.node_list
    → get_elem? cs k ≡ some c
    → (k < length b.datanode_list)
      × (look (λ n. n.access_count) b.datanode_list k ≡ some c)
      × (0 < c / g)
      × (c / g * g ≡ c)
unfolding entry_count
data_node_lem cs b g k c t each e =
    let (n, found, pos, new) = AllNew-get_elem? cs b.datanode_list k c t.nodes e in
    let inside = lt_of_get_elem? b.datanode_list k n found in
    let here = InOrder-Has 0 b.node_list (length b.datanode_list) k t.order (omega arith) inside in
    let divides = each (0, k) c here (ap data_count found ∙ ap some (new.3)) in
    let (some_step, times) = times_lem g c pos divides in
    (inside, ap (read_of (λ n. n.access_count)) found ∙ ap some (new.2), some_step, times)

module _ (mem_of : ℕ → Option ℕ) (cs : List ℕ) (b b' : ExecBlock) (g : ℕ) (fresh : Fresh cs b)
    (each : DividesEach b g b.node_list) (few : length cs < word)
    (small : (i c : ℕ) → get_elem? cs i ≡ some c → c < word)
    (built : build_execgraph mem_of (record b { global_control = g }) ≡ some b') where
  visits_lem :
      (fuel k c : ℕ)
      → get_elem? cs k ≡ some c
      → total_steps b'.nodegroup_list (length b'.nodegroup_list) 0 ≤ fuel
      → (m : ℕ) × (walk_step (seen k) fuel (first_walk b'.nodegroup_list) 0
          ≡ some (ended (first_walk b'.nodegroup_list), m))
        × (m * b'.global_control ≡ c)
  visits_lem fuel k c asked enough =
      let b1 : ExecBlock = record b { global_control = g } in
      let ns = b.datanode_list in
      let few_nodes : length ns < word = omega (arith, AllNew-length cs ns fresh.nodes, few) in
      let busy : Busy b1 = λ i x e.
        let own = AllNew-look cs ns i x fresh.nodes e in
        ((data_node_lem cs b g i x fresh each own).2, small i x own) in
      let (inside, found, some_step, times) = data_node_lem cs b g k c fresh each asked in
      let same =
        (built_lem mem_of b1 b' (length ns) fresh.order few_nodes fresh.no_groups busy
          built).control in
      (
        c / g,
        build_execgraph-visits mem_of b1 b' (length ns) fresh.order few_nodes fresh.no_groups busy
            built fuel k c inside found enough,
        ap (λ x. c / g * x) same ∙ times,
      )

-- For statements of which fewer than 2 ^ 64 ask for accesses, each for fewer than 2 ^ 64: where
-- construct_graph, without a given global_control, succeeds on them up to init_offsets, the walk through one global
-- step of its groups ends within as many rounds as the groups have steps, leaves the groups as they were, and visits
-- the data node `k` so often that over all global steps these visits are the count of the statement number `k` among
-- those that load or store and whose count is not 0.
pub construct_graph-visits :
    (raw : DataNode) (beyond : ℕ → ℕ) (memobj_map : ℕ → Option MemAlloc) (mem_of : ℕ → Option ℕ)
    (rs : List Requires) (b' : ExecBlock) (fuel k c : ℕ)
    → length (all_asked rs) < word
    → ((i x : ℕ) → get_elem? (all_asked rs) i ≡ some x → x < word)
    → construct_graph raw beyond memobj_map mem_of 0 rs ≡ some b'
    → get_elem? (all_asked rs) k ≡ some c
    → total_steps b'.nodegroup_list (length b'.nodegroup_list) 0 ≤ fuel
    → (m : ℕ) × (walk_step (seen k) fuel (first_walk b'.nodegroup_list) 0
        ≡ some (ended (first_walk b'.nodegroup_list), m))
      × (m * b'.global_control ≡ c)
unfolding construct_graph
construct_graph-visits raw beyond memobj_map mem_of rs b' fuel k c few small built found enough =
    let made = build_nodes raw beyond memobj_map rs empty_block in
    let (b, nodes, rest) =
      bind-some made (λ b. set_global_control 0 b >>= build_execgraph mem_of) b' built in
    let (b1, e2, f2) = bind-some (set_global_control 0 b) (build_execgraph mem_of) b' rest in
    let fresh =
      Ok-some (Fresh (all_asked rs)) made b (build_nodes-Fresh raw beyond memobj_map rs) nodes in
    let (g, same, each) = set_global_control-Divides b b1 e2 in
    visits_lem mem_of (all_asked rs) b b' g fresh each few small
      (subst (λ x. build_execgraph mem_of x ≡ some b') (sym same) f2) fuel k c found enough
