-- ===== src/Graph/Built.antt =====
-- The groups that Engine::build_execgraph of engine/ar_parse.cpp makes of the nodes of a block.
use siena_mem.Base.{
  ℕ, suc, ◌+◌, ◌/◌, ◌<◌, ◌≡◌, ◌≢◌, refl, sym, ap, ◌∙◌, inl, inr, Option, some, List, arith, ◌==◌,
  length, get_elem?, word, sub64, sub64-eq, Bool-cases, ==→eq, ==→ne, some_inj, lt_of_get_elem?,
}
use mathlib.Core.Path.{subst}
use native.Mathlib.Nat.{div-le_self}
use siena_mem.DataNode.{DataNode}
use siena_mem.Walk.{Group}
use siena_mem.ExecBlock.{ExecBlock}
use siena_mem.Graph.{resolve_deps, extend_groups, op_entry, data_entry, graph_entries}
use siena_mem.Graph.Kept.{
  read_of, look, look-set_same, look-set_self, look-set_ne, resolve_deps-look,
}
use siena_mem.Graph.Groups.{
  Covers, InGroup, length-Covers, extend_groups-Covers, extend_groups-kept, extend_groups-new,
  AllReady, extend_groups-AllReady, extend_groups-pos,
}
use siena_mem.Graph.Entries.{InOrder, after_data, data_entry-inv, op_entry-inv, graph_entries-keeps}

-- What the groups depend on.
abbrev pub key : DataNode → ℕ × ℕ
key n = (n.group_id, n.access_count)

-- The first `pos` nodes are in groups, each in the one that it names, which has as many steps as there are
-- accesses to the node in a global step.
pub record Grouped (pos : ℕ) (b : ExecBlock) : Type 0 where
  pub covers : Covers 0 b.nodegroup_list pos
  pub placed :
      (k i c : ℕ)
      → k < pos
      → look key b.datanode_list k ≡ some (i, c)
      → InGroup b.nodegroup_list i k (c / b.global_control)

-- The index of the last group.
last_group :
    (steps pos : ℕ) (gs : List Group)
    → pos + 1 < word
    → Covers 0 gs pos
    → suc (sub64 (length (extend_groups steps pos gs)) 1) ≡ length (extend_groups steps pos gs)
last_group steps pos gs small c =
    let groups = extend_groups steps pos gs in
    let some_group = extend_groups-pos steps pos small gs in
    let few = length-Covers 0 groups (pos + 1) (extend_groups-Covers steps pos small 0 gs c) in
    omega (arith, sub64-eq (length groups) 1)

-- The accesses of the node that is entered are those from before its dependencies were resolved.
same_accesses :
    (pos : ℕ) (names : List ℕ) (ns nodes : List DataNode) (a a' : DataNode)
    → get_elem? ns pos ≡ some a
    → resolve_deps pos pos names ns ≡ some nodes
    → get_elem? nodes pos ≡ some a'
    → a'.access_count ≡ a.access_count
same_accesses pos names ns nodes a a' e1 e2 e3 = some_inj a'.access_count a.access_count (
    sym (ap (read_of (λ n. n.access_count)) e3)
    ∙ resolve_deps-look (λ n. n.access_count) (λ n p q. refl) pos pos names ns nodes e2 pos
    ∙ ap (read_of (λ n. n.access_count)) e1)

module _ (pos : ℕ) (small : pos + 1 < word) (b : ExecBlock) (g : Grouped pos b) where
  -- The node that is entered, and those before it.
  entered_lem :
      (nodes : List DataNode) (a a' : DataNode) (mem i c : ℕ)
      → get_elem? b.datanode_list pos ≡ some a
      → resolve_deps pos pos a.dependency b.datanode_list ≡ some nodes
      → get_elem? nodes pos ≡ some a'
      → look key
          (after_data b nodes pos mem (a.access_count / b.global_control) a').datanode_list
          pos
        ≡ some (i, c)
      → InGroup
          (extend_groups (a.access_count / b.global_control) pos b.nodegroup_list)
          i
          pos
          (c / b.global_control)
  entered_lem nodes a a' mem i c e1 e2 e3 h =
      let steps = a.access_count / b.global_control in
      let groups = extend_groups steps pos b.nodegroup_list in
      let last = sub64 (length groups) 1 in
      let a'' : DataNode = record a' { mem_ptr = mem; group_id = last } in
      let both : key a'' ≡ (i, c) =
        some_inj (key a'') (i, c)
          (sym (look-set_self key nodes pos a'' (lt_of_get_elem? nodes pos a' e3)) ∙ h) in
      let accesses =
        sym (ap (λ p. p.1) both)
        ∙ same_accesses pos a.dependency b.datanode_list nodes a a' e1 e2 e3 in
      let at_last : InGroup groups last pos steps =
        extend_groups-new steps pos small 0 b.nodegroup_list last g.covers
          (last_group steps pos b.nodegroup_list small g.covers) in
      subst (λ x. InGroup groups i pos (x / b.global_control)) (sym accesses)
        (subst (λ x. InGroup groups x pos steps) (ap (λ p. p.0) both) at_last)

  before_lem :
      (nodes : List DataNode) (a a' : DataNode) (mem steps k i c : ℕ)
      → resolve_deps pos pos a.dependency b.datanode_list ≡ some nodes
      → k < pos
      → look key (after_data b nodes pos mem steps a').datanode_list k ≡ some (i, c)
      → InGroup (extend_groups steps pos b.nodegroup_list) i k (c / b.global_control)
  before_lem nodes a a' mem steps k i c e2 lt h =
      let last = sub64 (length (extend_groups steps pos b.nodegroup_list)) 1 in
      let a'' : DataNode = record a' { mem_ptr = mem; group_id = last } in
      let other : pos ≢ k = λ e. absurd (omega arith) in
      let before =
        sym (resolve_deps-look key (λ n p q. refl) pos pos a.dependency b.datanode_list nodes e2 k)
        ∙ sym (look-set_ne key nodes pos k a'' other)
        ∙ h in
      extend_groups-kept steps pos small 0 b.nodegroup_list i k (c / b.global_control) g.covers
        (g.placed k i c lt before)

  pub data_entry-Grouped :
      (mem_of : ℕ → Option ℕ) (b' : ExecBlock)
      → data_entry mem_of pos pos b ≡ some b'
      → Grouped (pos + 1) b' × (b'.global_control ≡ b.global_control)
  data_entry-Grouped mem_of b' e =
      let (nodes, a, a', mem, e1, e2, e3, same) = data_entry-inv mem_of pos pos b b' e in
      let steps = a.access_count / b.global_control in
      subst (λ (x : ExecBlock). Grouped (pos + 1) x × (x.global_control ≡ b.global_control)) same
        (
          record {
            covers = extend_groups-Covers steps pos small 0 b.nodegroup_list g.covers;
            placed = λ k i c lt h. elim (Bool-cases (k == pos)) [
              | inl q ↦
                  subst
                    (λ x.
                      InGroup (extend_groups steps pos b.nodegroup_list) i x (c / b.global_control))
                    (sym (==→eq k pos q))
                    (entered_lem nodes a a' mem i c e1 e2 e3 (
                      ap (look key (after_data b nodes pos mem steps a').datanode_list)
                        (sym (==→eq k pos q))
                      ∙ h))
              | inr q ↦ before_lem nodes a a' mem steps k i c e2 (omega (arith, ==→ne k pos q)) h
            ];
          },
          refl,
        )

-- A block in which every node has an access in each global step.
abbrev pub Busy : ExecBlock → Type 0
Busy b =
    (i c : ℕ)
    → look (λ n. n.access_count) b.datanode_list i ≡ some c
    → (0 < c / b.global_control) × (c < word)

-- What holds of the block `b` after `pos` data nodes of the block `b₀` were entered.
pub record Built (b₀ : ExecBlock) (pos : ℕ) (b : ExecBlock) : Type 0 where
  pub grouped : Grouped pos b
  pub control : b.global_control ≡ b₀.global_control
  pub accesses :
      (i : ℕ)
      → look (λ n. n.access_count) b.datanode_list i ≡ look (λ n. n.access_count) b₀.datanode_list i
  pub ready : Busy b₀ → AllReady b.nodegroup_list

op_entry-Built :
    (b₀ : ExecBlock) (pos k : ℕ) (l : List (ℕ × ℕ)) (b b' : ExecBlock)
    → Built b₀ pos b
    → op_entry k l b ≡ some b'
    → Built b₀ pos b'
op_entry-Built b₀ pos k l b b' t e =
    let (j, a, comp, found, same) = op_entry-inv k l b b' e in
    let a' : DataNode = record a { comp = comp } in
    subst (Built b₀ pos) same (record {
      grouped = record {
        covers = t.grouped.covers;
        placed = λ i g c lt h.
            t.grouped.placed i g c lt
              (sym (look-set_same key b.datanode_list j a a' found refl i) ∙ h);
      };
      control = t.control;
      accesses = λ i.
          look-set_same (λ n. n.access_count) b.datanode_list j a a' found refl i ∙ t.accesses i;
      ready = t.ready;
    })

data_entry-Built :
    (mem_of : ℕ → Option ℕ) (b₀ : ExecBlock) (pos : ℕ) (b b' : ExecBlock)
    → pos + 1 < word
    → Built b₀ pos b
    → data_entry mem_of pos pos b ≡ some b'
    → Built b₀ (pos + 1) b'
data_entry-Built mem_of b₀ pos b b' small t e =
    let (nodes, a, a', mem, e1, e2, e3, same) = data_entry-inv mem_of pos pos b b' e in
    let (grouped, control) = data_entry-Grouped pos small b t.grouped mem_of b' e in
    let steps = a.access_count / b.global_control in
    let acc : DataNode → ℕ = λ n. n.access_count in
    let a'' : DataNode = record a' {
      mem_ptr = mem;
      group_id = sub64 (length (extend_groups steps pos b.nodegroup_list)) 1;
    } in
    record {
      grouped = grouped;
      control = control ∙ t.control;
      accesses = λ i.
          ap (λ (x : ExecBlock). look acc x.datanode_list i) (sym same)
          ∙ look-set_same acc nodes pos a' a'' e3 refl i
          ∙ resolve_deps-look acc (λ n p q. refl) pos pos a.dependency b.datanode_list nodes e2 i
          ∙ t.accesses i;
      ready = λ busy.
          let (some_step, fits) =
            busy pos a.access_count (sym (t.accesses pos) ∙ ap (read_of acc) e1) in
          let busy_here : 0 < steps =
            subst (λ x. 0 < a.access_count / x) (sym t.control) some_step in
          subst (λ (x : ExecBlock). AllReady x.nodegroup_list) same
            (extend_groups-AllReady steps pos b.nodegroup_list busy_here
              (omega (arith, div-le_self a.access_count b.global_control, fits)) (t.ready busy));
    }

pub graph_entries-Built :
    (mem_of : ℕ → Option ℕ) (b₀ : ExecBlock) (pos stop : ℕ) (l : List (ℕ × ℕ)) (b b' : ExecBlock)
    → InOrder pos l stop
    → stop < word
    → Built b₀ pos b
    → graph_entries mem_of pos l b ≡ some b'
    → Built b₀ stop b'
graph_entries-Built mem_of b₀ pos stop l b b' o small t e =
    graph_entries-keeps (Built b₀) mem_of (data_entry-Built mem_of b₀) (op_entry-Built b₀) pos stop
      l b b' o small t e
