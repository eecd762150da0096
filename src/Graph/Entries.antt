-- ===== src/Graph/Entries.antt =====
-- The loop of Engine::build_execgraph in engine/ar_parse.cpp over the nodes of a block: what an entry does, and what
-- the loop keeps.
use siena_mem.Base.{
  ℕ, zero, suc, ◌+◌, ◌/◌, ◌≤◌, ◌<◌, ◌≡◌, refl, sym, ap, ◌∙◌, Option, none, some, List, [], ◌∷◌,
  arith, ◌==◌, if◌then◌else◌, length, get_elem?, set, word, sub64, div?, mod?, ne→==, ◌>>=◌,
  bind-some, guarded-some, some_inj,
}
use mathlib.Core.Path.{subst}
use siena_mem.DataNode.{DataNode}
use siena_mem.ExecBlock.{ExecBlock}
use siena_mem.Graph.{resolve_deps, extend_groups, op_entry, data_entry, graph_entries}

-- The data nodes among the entries of node_list stand one after the other from `pos` up to `stop`.
abbrev pub InOrder : ℕ → List (ℕ × ℕ) → ℕ → Type 0
InOrder pos [] stop = pos ≡ stop
InOrder pos ((zero, k) ∷ l) stop = (k ≡ pos) × InOrder (pos + 1) l stop
InOrder pos ((suc kind, k) ∷ l) stop = InOrder pos l stop

InOrder-le : (pos : ℕ) (l : List (ℕ × ℕ)) (stop : ℕ) → InOrder pos l stop → pos ≤ stop
InOrder-le pos [] stop o = omega arith
InOrder-le pos ((zero, k) ∷ l) stop o = let ih = InOrder-le (pos + 1) l stop o.1 in omega arith
InOrder-le pos ((suc kind, k) ∷ l) stop o = InOrder-le pos l stop o

div?-some : (a b q : ℕ) → div? a b ≡ some q → a / b ≡ q
div?-some a b q e = ground arith

-- The block after a data node, with what was computed on the way.
abbrev pub after_data : ExecBlock → List DataNode → ℕ → ℕ → ℕ → DataNode → ExecBlock
after_data b nodes k mem steps a =
    let groups = extend_groups steps k b.nodegroup_list in
    record b {
      datanode_list = set nodes k (record a { mem_ptr = mem; group_id = sub64 (length groups) 1 });
      nodegroup_list = groups;
    }

-- A data node that is entered: what was found on the way.
pub data_entry-inv :
    (mem_of : ℕ → Option ℕ) (pos k : ℕ) (b b' : ExecBlock)
    → data_entry mem_of pos k b ≡ some b'
    → (nodes : List DataNode) × (a a' : DataNode) × (mem : ℕ) × (get_elem? b.datanode_list k
        ≡ some a)
      × (resolve_deps pos k a.dependency b.datanode_list ≡ some nodes)
      × (get_elem? nodes k ≡ some a')
      × (after_data b nodes k mem (a.access_count / b.global_control) a' ≡ b')
unfolding data_entry
data_entry-inv mem_of pos k b b' e =
    let (a, e1, f1) = bind-some (get_elem? b.datanode_list k) _ b' e in
    let (nodes, e2, f2) = bind-some (resolve_deps pos k a.dependency b.datanode_list) _ b' f1 in
    let (mem, e3, f3) = bind-some (mem_of a.name) _ b' f2 in
    let (steps, e4, f4) = bind-some (div? a.access_count b.global_control) _ b' f3 in
    let (a', e5, f5) = bind-some (get_elem? nodes k) _ b' f4 in
    let same = div?-some a.access_count b.global_control steps e4 in
    (
      nodes,
      a,
      a',
      mem,
      e1,
      e2,
      e5,
      ap (λ (x : ℕ). after_data b nodes k mem x a') same
          ∙ some_inj (after_data b nodes k mem steps a') b' f5,
    )

-- An operation node changes only how many operations an access of the data node after it has.
abbrev pub after_op : ExecBlock → ℕ → DataNode → ℕ → ExecBlock
after_op b j a comp = record b { datanode_list = set b.datanode_list j (record a { comp = comp }) }

pub op_entry-inv :
    (k : ℕ) (l : List (ℕ × ℕ)) (b b' : ExecBlock)
    → op_entry k l b ≡ some b'
    → (j : ℕ) × (a : DataNode) × (comp : ℕ) × (get_elem? b.datanode_list j ≡ some a)
      × (after_op b j a comp ≡ b')
unfolding op_entry
op_entry-inv k [] b b' e = absurd (cc e)
op_entry-inv k ((kind, j) ∷ l) b b' e =
    let (op, e1, f1) = bind-some (get_elem? b.opnode_list k) _ b' e in
    let (a, g, f2) = bind-some (if kind == 0 then get_elem? b.datanode_list j else none) _ b' f1 in
    let (data_next, e2) = guarded-some (kind == 0) (get_elem? b.datanode_list j) a g in
    let (rest, e3, f3) = bind-some (mod? op.count a.access_count) _ b' f2 in
    let (comp, e4, f4) = bind-some (div? op.count a.access_count) _ b' f3 in
    let (exact, f5) = guarded-some (rest == 0) (some (after_op b j a comp)) b' f4 in
    (j, a, comp, e2, some_inj (after_op b j a comp) b' f5)

graph_entries_op :
    (mem_of : ℕ → Option ℕ) (pos kind k : ℕ) (l : List (ℕ × ℕ)) (b : ExecBlock)
    → graph_entries mem_of pos ((suc kind, k) ∷ l) b
      ≡ (op_entry k l b >>= graph_entries mem_of pos l)
unfolding graph_entries
graph_entries_op mem_of pos kind k l b = rw (ne→== (suc kind) 0 (λ e. absurd (omega arith))) refl

-- What every entry keeps, the loop keeps.
pub graph_entries-keeps :
    (P : ℕ → ExecBlock → Type 0) (mem_of : ℕ → Option ℕ)
    → ((pos : ℕ) (b b' : ExecBlock)
        → pos + 1 < word
        → P pos b
        → data_entry mem_of pos pos b ≡ some b'
        → P (pos + 1) b')
    → ((pos k : ℕ) (l : List (ℕ × ℕ)) (b b' : ExecBlock)
        → P pos b
        → op_entry k l b ≡ some b'
        → P pos b')
    → (pos stop : ℕ) (l : List (ℕ × ℕ)) (b b' : ExecBlock) → InOrder pos l stop
    → stop < word
    → P pos b
    → graph_entries mem_of pos l b ≡ some b'
    → P stop b'
unfolding graph_entries
graph_entries-keeps P mem_of entered passed pos stop [] b b' o small t e =
    subst (P stop) (some_inj b b' e) (subst (λ x. P x b) o t)
graph_entries-keeps P mem_of entered passed pos stop ((zero, k) ∷ l) b b' o small t e =
    let (b1, e1, f1) =
      bind-some (data_entry mem_of pos k b) (graph_entries mem_of (pos + 1) l) b' e in
    let next = InOrder-le (pos + 1) l stop o.1 in
    let here : data_entry mem_of pos pos b ≡ some b1 =
      subst (λ x. data_entry mem_of pos x b ≡ some b1) o.0 e1 in
    graph_entries-keeps P mem_of entered passed (pos + 1) stop l b1 b' o.1 small
      (entered pos b b1 (omega arith) t here) f1
graph_entries-keeps P mem_of entered passed pos stop ((suc kind, k) ∷ l) b b' o small t e =
    let (b1, e1, f1) =
      bind-some (op_entry k l b) (graph_entries mem_of pos l) b'
        (sym (graph_entries_op mem_of pos kind k l b) ∙ e) in
    graph_entries-keeps P mem_of entered passed pos stop l b1 b' o small (passed pos k l b b1 t e1)
      f1
