-- ===== src/Graph/Depend.antt =====
-- The dependencies of the graph that Engine::build_execgraph of engine/ar_parse.cpp makes.
use siena_mem.Base.{
  ℕ, ◌+◌, ◌/◌, ◌≤◌, ◌<◌, ◌≡◌, ◌≢◌, refl, sym, ap, ◌∙◌, inl, inr, Option, some, List, [], arith,
  ◌==◌, length, get_elem?, set, word, sub64, some_inj, Bool-cases, ==→eq, ==→ne,
}
use mathlib.Core.Path.{subst}
use siena_mem.DataNode.{DataNode}
use siena_mem.Walk.{Group}
use siena_mem.ExecBlock.{ExecBlock}
use siena_mem.Graph.{resolve_deps, extend_groups, op_entry, data_entry, build_execgraph}
use siena_mem.Graph.Kept.{read_of, look, look-set_same, resolve_deps-look}
use siena_mem.Graph.Entries.{InOrder, data_entry-inv, op_entry-inv, graph_entries-keeps}
use siena_mem.Graph.Links.{
  count, name_of, prev_of, next_of, Resolves, Mirrored, resolve_deps-Resolved,
}

abbrev pub deps_of : DataNode → List ℕ
deps_of n = n.dependency

-- What holds of the block `b` after `pos` data nodes of the block `b₀` were entered.
record Depends (b₀ : ExecBlock) (pos : ℕ) (b : ExecBlock) : Type 0 where
  named : (i : ℕ) → look name_of b.datanode_list i ≡ look name_of b₀.datanode_list i
  same_deps : (i : ℕ) → look deps_of b.datanode_list i ≡ look deps_of b₀.datanode_list i
  resolved :
      (k : ℕ) (ds ps : List ℕ)
      → k < pos
      → look deps_of b.datanode_list k ≡ some ds
      → look prev_of b.datanode_list k ≡ some ps
      → Resolves (look name_of b₀.datanode_list) k ds ps
  untouched : (k : ℕ) (ps : List ℕ) → pos ≤ k → look prev_of b.datanode_list k ≡ some ps → ps ≡ []
  mirrored : Mirrored b.datanode_list

-- A write that leaves the links of a node as they are.
Mirrored-set :
    (ns : List DataNode) (k : ℕ) (n m : DataNode)
    → get_elem? ns k ≡ some n
    → m.prev ≡ n.prev
    → m.next ≡ n.next
    → Mirrored ns
    → Mirrored (set ns k m)
Mirrored-set ns k n m e p q t i j ps qs f g =
    t i j ps qs (sym (look-set_same prev_of ns k n m e p i) ∙ f)
      (sym (look-set_same next_of ns k n m e q j) ∙ g)

-- The same of everything: a write to a node that changes none of the four.
Depends-set :
    (b₀ : ExecBlock) (pos k : ℕ) (b : ExecBlock) (n m : DataNode)
    → get_elem? b.datanode_list k ≡ some n
    → name_of m ≡ name_of n
    → deps_of m ≡ deps_of n
    → prev_of m ≡ prev_of n
    → next_of m ≡ next_of n
    → Depends b₀ pos b
    → Depends b₀ pos (record b { datanode_list = set b.datanode_list k m })
Depends-set b₀ pos k b n m e a d p q t =
    let ns = b.datanode_list in
    record {
      named = λ i. look-set_same name_of ns k n m e a i ∙ t.named i;
      same_deps = λ i. look-set_same deps_of ns k n m e d i ∙ t.same_deps i;
      resolved = λ i ds ps lt f g.
          t.resolved i ds ps lt (sym (look-set_same deps_of ns k n m e d i) ∙ f)
            (sym (look-set_same prev_of ns k n m e p i) ∙ g);
      untouched = λ i ps le f. t.untouched i ps le (sym (look-set_same prev_of ns k n m e p i) ∙ f);
      mirrored = Mirrored-set ns k n m e p q t.mirrored;
    }

op_entry-Depends :
    (b₀ : ExecBlock) (pos k : ℕ) (l : List (ℕ × ℕ)) (b b' : ExecBlock)
    → Depends b₀ pos b
    → op_entry k l b ≡ some b'
    → Depends b₀ pos b'
op_entry-Depends b₀ pos k l b b' t e =
    let (j, a, comp, found, same) = op_entry-inv k l b b' e in
    subst (Depends b₀ pos) same
      (Depends-set b₀ pos j b a (record a { comp = comp }) found refl refl refl refl t)

-- The links of the node that is entered.
resolve_deps-Depends :
    (b₀ : ExecBlock) (pos : ℕ) (b : ExecBlock) (a : DataNode) (nodes : List DataNode)
    (groups : List Group)
    → Depends b₀ pos b
    → get_elem? b.datanode_list pos ≡ some a
    → resolve_deps pos pos a.dependency b.datanode_list ≡ some nodes
    → Depends b₀ (pos + 1) (record b { datanode_list = nodes; nodegroup_list = groups })
resolve_deps-Depends b₀ pos b a nodes groups t e1 e2 =
    let ns = b.datanode_list in
    let own : look prev_of ns pos ≡ some a.prev = ap (read_of prev_of) e1 in
    let empty = t.untouched pos a.prev (omega arith) own in
    let r =
      resolve_deps-Resolved (look name_of b₀.datanode_list) pos a.dependency [] ns nodes t.named
        (own ∙ ap some empty) t.mirrored e2 in
    let deps_same = resolve_deps-look deps_of (λ n p q. refl) pos pos a.dependency ns nodes e2 in
    record {
      named = λ i.
          resolve_deps-look name_of (λ n p q. refl) pos pos a.dependency ns nodes e2 i ∙ t.named i;
      same_deps = λ i. deps_same i ∙ t.same_deps i;
      resolved = λ k ds ps lt f g. elim (Bool-cases (pos == k)) [
        | inl q ↦
            let here = ==→eq pos k q in
            let ds_own : a.dependency ≡ ds = some_inj a.dependency ds (
              sym (ap (read_of deps_of) e1)
              ∙ sym (deps_same pos)
              ∙ ap (look deps_of nodes) here
              ∙ f) in
            let ps_own : r.found ≡ ps =
              some_inj r.found ps (sym r.prev_here ∙ ap (look prev_of nodes) here ∙ g) in
            subst (λ x. Resolves (look name_of b₀.datanode_list) x ds ps) here
              (subst (λ x. Resolves (look name_of b₀.datanode_list) pos x ps) ds_own
                (subst (Resolves (look name_of b₀.datanode_list) pos a.dependency) ps_own
                  r.resolves))
        | inr q ↦
            t.resolved k ds ps (omega (arith, ==→ne pos k q)) (sym (deps_same k) ∙ f)
              (sym (r.prev_else k (==→ne pos k q)) ∙ g)
      ];
      untouched = λ k ps le f.
          let ne : pos ≢ k = λ x. absurd (omega arith) in
          t.untouched k ps (omega arith) (sym (r.prev_else k ne) ∙ f);
      mirrored = r.mirrored;
    }

data_entry-Depends :
    (mem_of : ℕ → Option ℕ) (b₀ : ExecBlock) (pos : ℕ) (b b' : ExecBlock)
    → pos + 1 < word
    → Depends b₀ pos b
    → data_entry mem_of pos pos b ≡ some b'
    → Depends b₀ (pos + 1) b'
data_entry-Depends mem_of b₀ pos b b' small t e =
    let (nodes, a, a', mem, e1, e2, e3, same) = data_entry-inv mem_of pos pos b b' e in
    let steps = a.access_count / b.global_control in
    let groups = extend_groups steps pos b.nodegroup_list in
    let after =
      Depends-set b₀ (pos + 1) pos (record b { datanode_list = nodes; nodegroup_list = groups }) a'
        (record a' { mem_ptr = mem; group_id = sub64 (length groups) 1 }) e3 refl refl refl refl
        (resolve_deps-Depends b₀ pos b a nodes groups t e1 e2) in
    subst (Depends b₀ (pos + 1)) same after

-- Where the data nodes stand in the order of node_list, have no links yet, and are fewer than 2 ^ 64: if
-- build_execgraph succeeds, then every node has before it, for each of its dependencies in order, the latest
-- node with that name among those before it in the block, so never itself; and the node `j` is before the node
-- `i` exactly as often as `i` is after `j`.
pub build_execgraph-Resolves :
    (mem_of : ℕ → Option ℕ) (b b' : ExecBlock) (stop : ℕ)
    → InOrder 0 b.node_list stop
    → stop < word
    → ((k : ℕ) (ps : List ℕ) → look prev_of b.datanode_list k ≡ some ps → ps ≡ [])
    → ((k : ℕ) (ps : List ℕ) → look next_of b.datanode_list k ≡ some ps → ps ≡ [])
    → build_execgraph mem_of b ≡ some b'
    → ((k : ℕ) (ds ps : List ℕ)
        → k < stop
        → look deps_of b.datanode_list k ≡ some ds
        → look prev_of b'.datanode_list k ≡ some ps
        → Resolves (look name_of b.datanode_list) k ds ps)
      × Mirrored b'.datanode_list
unfolding build_execgraph
build_execgraph-Resolves mem_of b b' stop o small no_prev no_next e =
    let first : Depends b 0 b = record {
      named = λ i. refl;
      same_deps = λ i. refl;
      resolved = λ k ds ps lt f g. absurd (omega arith);
      untouched = λ k ps le f. no_prev k ps f;
      mirrored = λ i j p q f g. ap (count j) (no_prev i p f) ∙ sym (ap (count i) (no_next j q g));
    } in
    let t =
      graph_entries-keeps (Depends b) mem_of (data_entry-Depends mem_of b) (op_entry-Depends b) 0
        stop b.node_list b b' o small first e in
    (λ k ds ps lt f g. t.resolved k ds ps lt (t.same_deps k ∙ f) g, t.mirrored)
