-- ===== src/Parse/Nodes.antt =====
-- The blocks that Engine::build_nodes of engine/ar_parse.cpp makes.
use siena_mem.Base.{
  ℕ, zero, suc, ◌+◌, ◌<◌, ◌≡◌, refl, sym, ap, Bool, true, false, Option, none, some, List, [], ◌∷◌,
  ◌++◌, arith, ◌==◌, length, div?, mul64, get_or, length-append, Ok, Ok-bind, Ok-then, Ok-if,
  Ok-bind_eq, ◌∙◌, ==→eq, ==→ne, ◌>>=◌,
}
use mathlib.Core.Path.{subst}
use mathlib.Core.List.{append-nil, append_assoc}
use siena_mem.DataNode.{
  MemAlloc, DataNode, OpType, AccessPattern, init_data_node, set_pattern, set_tile, set_stride,
  set_stride_offset, check, pattern_case, with_diffs,
}
use siena_mem.ExecBlock.{ExecBlock, add_datanode, add_opnode}
use siena_mem.Graph.Entries.{InOrder}
use siena_mem.Parse.{
  Trait, Resource, Requires, value_or, tile_fits, conv_fits, parse_tile, parse_conv, parse_deps,
  parse_trait, parse_memtraits, build_data, build_node, build_nodes, depend_on, empty_block,
}

-- A node with `c` accesses, and no links yet.
abbrev pub IsNew : ℕ → DataNode → Type 0
IsNew c a = (a.prev ≡ []) × (a.next ≡ []) × (a.access_count ≡ c) × (a.count ≡ c)

-- Nodes that have these accesses, some each, and no links yet.
abbrev pub AllNew : List ℕ → List DataNode → Type 0
AllNew [] [] = Unit
AllNew [] (a ∷ ns) = ⊥
AllNew (c ∷ cs) [] = ⊥
AllNew (c ∷ cs) (a ∷ ns) = ((0 < c) × IsNew c a) × AllNew cs ns

abbrev pub count_of : Option ℕ → List ℕ
count_of none = []
count_of (some zero) = []
count_of (some (suc c)) = suc c ∷ []

-- The accesses that a statement asks of a data node: its count, if it loads or stores, except 0.
abbrev pub asked : Requires → List ℕ
asked r = elim r.resource [
  | Resource.loads ↦ count_of r.count
  | Resource.stores ↦ count_of r.count
  | _ ↦ []
]

abbrev pub all_asked : List Requires → List ℕ
all_asked [] = []
all_asked (r ∷ rs) = asked r ++ all_asked rs

module _ (c : ℕ) where
  check-IsNew : (b : Bool) (m : DataNode) → IsNew c m → Ok (IsNew c) (check b m)
  check-IsNew true m h = h
  check-IsNew false m h = tt

  set_pattern-IsNew :
      (p : AccessPattern) (n : DataNode) → IsNew c n → Ok (IsNew c) (set_pattern p n)
  unfolding set_pattern pattern_case with_diffs
  set_pattern-IsNew AccessPattern.stride n h = h
  set_pattern-IsNew AccessPattern.random n h = h
  set_pattern-IsNew AccessPattern.ghostcell n h = check-IsNew _ _ h
  set_pattern-IsNew AccessPattern.stencil3p n h = check-IsNew _ _ h
  set_pattern-IsNew AccessPattern.stencil4p n h = check-IsNew _ _ h
  set_pattern-IsNew AccessPattern.stencil5p n h = check-IsNew _ _ h
  set_pattern-IsNew AccessPattern.stencil8p n h = check-IsNew _ _ h
  set_pattern-IsNew AccessPattern.stencil9p n h = check-IsNew _ _ h
  set_pattern-IsNew AccessPattern.stencil26p n h = check-IsNew _ _ h
  set_pattern-IsNew AccessPattern.stencil27p n h = check-IsNew _ _ h
  set_pattern-IsNew AccessPattern.tile n h =
      Ok-if (IsNew c) (n.num_dims == 2) _ _ (λ q. check-IsNew _ _ h) (λ q. h)
  set_pattern-IsNew AccessPattern.conv n h = check-IsNew _ _ h
  set_pattern-IsNew AccessPattern.transpose n h = h
  set_pattern-IsNew AccessPattern.compose n h = h
  set_pattern-IsNew AccessPattern.template n h = tt
  set_pattern-IsNew AccessPattern.unset n h = tt

  set_tile-IsNew :
      (beyond : ℕ → ℕ) (dir x y z : ℕ) (n : DataNode)
      → IsNew c n
      → Ok (IsNew c) (set_tile beyond dir x y z n)
  unfolding set_tile
  set_tile-IsNew beyond dir x y z n h =
      Ok-bind (IsNew c) (div? (get_or n.dim 0 (beyond 0)) x) _ (λ nx.
        Ok-bind (IsNew c) (div? (get_or n.dim 1 (beyond 1)) y) _ (λ ny.
          Ok-bind (IsNew c) (div? (get_or n.dim 2 (beyond 2)) z) _ (λ nz.
            Ok-bind (IsNew c)
              (div? (mul64 (mul64 (mul64 nx x) (mul64 ny y)) (mul64 nz z)) (mul64 (mul64 x y) z)) _
              (λ control. h))))

  parse_tile-IsNew :
      (beyond : ℕ → ℕ) (vs : List ℕ) (a : DataNode)
      → IsNew c a
      → Ok (IsNew c) (parse_tile beyond vs a)
  unfolding parse_tile
  parse_tile-IsNew beyond (dir ∷ x ∷ y ∷ z ∷ []) a h =
      Ok-if (IsNew c) (tile_fits dir x y z a) (set_tile beyond dir x y z a) none
        (λ q. set_tile-IsNew beyond dir x y z a h) (λ q. tt)
  parse_tile-IsNew beyond _ a h = tt

  parse_conv-IsNew :
      (beyond : ℕ → ℕ) (vs : List ℕ) (a : DataNode)
      → IsNew c a
      → Ok (IsNew c) (parse_conv beyond vs a)
  unfolding parse_conv
  parse_conv-IsNew beyond (x ∷ y ∷ []) a h =
      Ok-if (IsNew c) (conv_fits x y a) (set_tile beyond 0 x y 1 a) none
        (λ q. set_tile-IsNew beyond 0 x y 1 a h) (λ q. tt)
  parse_conv-IsNew beyond _ a h = tt

  module _ (beyond : ℕ → ℕ) (memobj_map : ℕ → Option MemAlloc) where
    parse_deps-IsNew :
        (vs : List (Option ℕ)) (a : DataNode)
        → IsNew c a
        → Ok (IsNew c) (parse_deps memobj_map vs a)
    unfolding parse_deps
    parse_deps-IsNew [] a h = h
    parse_deps-IsNew (v ∷ vs) a h = Ok-bind (IsNew c) v _ (λ name.
        Ok-bind (IsNew c) (memobj_map name) _ (λ obj. parse_deps-IsNew vs (depend_on name a) h))

    -- A pattern and what is done then.
    patterned :
        (p : AccessPattern) (a : DataNode) (g : DataNode → Option DataNode)
        → IsNew c a
        → ((a1 : DataNode) → IsNew c a1 → Ok (IsNew c) (g a1))
        → Ok (IsNew c) (set_pattern p a >>= g)
    patterned p a g h k =
        Ok-then (IsNew c) (IsNew c) (set_pattern p a) g (set_pattern-IsNew p a h) k

    parse_trait-IsNew :
        (t : Trait) (a : DataNode) → IsNew c a → Ok (IsNew c) (parse_trait beyond memobj_map t a)
    unfolding parse_trait set_stride set_stride_offset
    parse_trait-IsNew (Trait.stride v) a h = patterned AccessPattern.stride a _ h (λ a1 h1. h1)
    parse_trait-IsNew (Trait.offset none) a h = tt
    parse_trait-IsNew (Trait.offset (some off)) a h = h
    parse_trait-IsNew (Trait.random v) a h = patterned AccessPattern.random a _ h (λ a1 h1. h1)
    parse_trait-IsNew (Trait.cdf none) a h = tt
    parse_trait-IsNew (Trait.cdf (some v)) a h = h
    parse_trait-IsNew (Trait.ghostcell v) a h = set_pattern-IsNew AccessPattern.ghostcell a h
    parse_trait-IsNew Trait.stencil3p a h = set_pattern-IsNew AccessPattern.stencil3p a h
    parse_trait-IsNew Trait.stencil4p a h = set_pattern-IsNew AccessPattern.stencil4p a h
    parse_trait-IsNew Trait.stencil5p a h = set_pattern-IsNew AccessPattern.stencil5p a h
    parse_trait-IsNew Trait.stencil8p a h = set_pattern-IsNew AccessPattern.stencil8p a h
    parse_trait-IsNew Trait.stencil9p a h = set_pattern-IsNew AccessPattern.stencil9p a h
    parse_trait-IsNew Trait.stencil26p a h = set_pattern-IsNew AccessPattern.stencil26p a h
    parse_trait-IsNew Trait.stencil27p a h = set_pattern-IsNew AccessPattern.stencil27p a h
    parse_trait-IsNew Trait.transpose a h = set_pattern-IsNew AccessPattern.transpose a h
    parse_trait-IsNew (Trait.tile vs) a h =
        patterned AccessPattern.tile a _ h (λ a1 h1. parse_tile-IsNew beyond vs a1 h1)
    parse_trait-IsNew (Trait.conv vs) a h =
        patterned AccessPattern.conv a _ h (λ a1 h1. parse_conv-IsNew beyond vs a1 h1)
    parse_trait-IsNew Trait.compose a h = tt
    parse_trait-IsNew Trait.unknown a h = h
    parse_trait-IsNew (Trait.dep none) a h = h
    parse_trait-IsNew (Trait.dep (some name)) a h = h
    parse_trait-IsNew (Trait.deps vs) a h = parse_deps-IsNew vs a h

    parse_memtraits-IsNew :
        (ts : List Trait) (a : DataNode)
        → IsNew c a
        → Ok (IsNew c) (parse_memtraits beyond memobj_map ts a)
    unfolding parse_memtraits
    parse_memtraits-IsNew [] a h = h
    parse_memtraits-IsNew (t ∷ ts) a h =
        Ok-then (IsNew c) (IsNew c) (parse_trait beyond memobj_map t a) _ (parse_trait-IsNew t a h)
          (λ a1 h1. parse_memtraits-IsNew ts a1 h1)

  init_data_node-IsNew :
      (raw : DataNode) (m : MemAlloc) (type : OpType) (size : ℕ)
      → Ok (IsNew c) (init_data_node raw m type c size)
  unfolding init_data_node
  init_data_node-IsNew raw m type size =
      Ok-if (IsNew c) (size == m.element_size) _ none (λ q. (refl, refl, refl, refl)) (λ q. tt)

InOrder-data :
    (p : ℕ) (l : List (ℕ × ℕ)) (stop : ℕ)
    → InOrder p l stop
    → InOrder p (l ++ (0, stop) ∷ []) (stop + 1)
InOrder-data p [] stop o = (sym o, ap (λ x. x + 1) o)
InOrder-data p ((zero, k) ∷ l) stop o = (o.0, InOrder-data (p + 1) l stop o.1)
InOrder-data p ((suc kind, k) ∷ l) stop o = InOrder-data p l stop o

InOrder-op :
    (p : ℕ) (l : List (ℕ × ℕ)) (stop k : ℕ) → InOrder p l stop → InOrder p (l ++ (1, k) ∷ []) stop
InOrder-op p [] stop k o = o
InOrder-op p ((zero, j) ∷ l) stop k o = (o.0, InOrder-op (p + 1) l stop k o.1)
InOrder-op p ((suc kind, j) ∷ l) stop k o = InOrder-op p l stop k o

AllNew-append :
    (cs : List ℕ) (ns : List DataNode) (c : ℕ) (a : DataNode)
    → AllNew cs ns
    → 0 < c
    → IsNew c a
    → AllNew (cs ++ c ∷ []) (ns ++ a ∷ [])
AllNew-append [] [] c a t p h = ((p, h), tt)
AllNew-append [] (n ∷ ns) c a t p h = absurd t
AllNew-append (d ∷ cs) [] c a t p h = absurd t
AllNew-append (d ∷ cs) (n ∷ ns) c a t p h = (t.0, AllNew-append cs ns c a t.1 p h)

-- A block before its graph is built, whose data nodes have the accesses `cs`.
pub record Fresh (cs : List ℕ) (b : ExecBlock) : Type 0 where
  pub order : InOrder 0 b.node_list (length b.datanode_list)
  pub nodes : AllNew cs b.datanode_list
  pub no_groups : b.nodegroup_list ≡ []

count_of-some : (c : ℕ) → 0 < c → count_of (some c) ≡ c ∷ []
count_of-some zero h = absurd (omega arith)
count_of-some (suc c) h = refl

Fresh-same : (cs ds : List ℕ) (o : Option ExecBlock) → cs ≡ ds → Ok (Fresh cs) o → Ok (Fresh ds) o
Fresh-same cs ds o e = subst (λ x. Ok (Fresh x) o) e

Fresh-none : (cs : List ℕ) (b : ExecBlock) → Fresh cs b → Fresh (cs ++ []) b
Fresh-none cs b = subst (λ x. Fresh x b) (sym (append-nil cs))

add_datanode-Fresh :
    (cs : List ℕ) (c : ℕ) (a : DataNode) (b : ExecBlock)
    → 0 < c
    → IsNew c a
    → Fresh cs b
    → Fresh (cs ++ c ∷ []) (add_datanode a b)
unfolding add_datanode
add_datanode-Fresh cs c a b p h t = record {
  order =
      subst (InOrder 0 (b.node_list ++ (0, length b.datanode_list) ∷ []))
        (sym (length-append b.datanode_list (a ∷ [])))
        (InOrder-data 0 b.node_list (length b.datanode_list) t.order);
  nodes = AllNew-append cs b.datanode_list c a t.nodes p h;
  no_groups = t.no_groups;
}

module _ (raw : DataNode) (beyond : ℕ → ℕ) (memobj_map : ℕ → Option MemAlloc) where
  build_data-Fresh :
      (cs : List ℕ) (type : OpType) (r : Requires) (b : ExecBlock)
      → Fresh cs b
      → Ok (Fresh (cs ++ count_of r.count)) (build_data raw beyond memobj_map type r b)
  unfolding build_data
  build_data-Fresh cs type r b t =
      let P = Fresh (cs ++ count_of r.count) in
      Ok-bind P r.to_from _ (λ name. Ok-bind_eq P r.count _ (λ c e.
        Ok-bind P (memobj_map name) _ (λ obj.
          Ok-if P (c == 0) (some b) _
            (λ q.
              let none_asked : [] ≡ count_of r.count =
                sym (ap count_of (e ∙ ap some (==→eq c 0 q))) in
              subst (λ x. Fresh (cs ++ x) b) none_asked (Fresh-none cs b t))
            (λ q.
              let some_asked : c ∷ [] ≡ count_of r.count =
                sym (ap count_of e ∙ count_of-some c (omega (arith, ==→ne c 0 q))) in
              let size = value_or r.size obj.element_size in
              Ok-then P (IsNew c) (init_data_node raw obj type c size) _
                (init_data_node-IsNew c raw obj type size)
                (λ a h.
                  Ok-then P (IsNew c) (parse_memtraits beyond memobj_map r.traits a) _
                    (parse_memtraits-IsNew c beyond memobj_map r.traits a h)
                    (λ a1 h1.
                      subst (λ x. Fresh (cs ++ x) (add_datanode a1 b)) some_asked
                        (add_datanode-Fresh cs c a1 b (omega (arith, ==→ne c 0 q)) h1 t)))))))

  build_node-Fresh :
      (cs : List ℕ) (r : Requires) (b : ExecBlock)
      → Fresh cs b
      → Ok (Fresh (cs ++ asked r)) (build_node raw beyond memobj_map r b)
  unfolding build_node add_opnode
  build_node-Fresh cs r b t =
      elim r.resource
        as (λ x.
          Ok
            (Fresh (
              cs ++ (elim x [
                | Resource.loads ↦ count_of r.count
                | Resource.stores ↦ count_of r.count
                | _ ↦ []
              ])))
            (elim x [
              | Resource.flops ↦ (do
                count ← r.count
                some (add_opnode (record { count = count }) b))
              | Resource.loads ↦ build_data raw beyond memobj_map OpType.load r b
              | Resource.stores ↦ build_data raw beyond memobj_map OpType.store r b
              | Resource.other ↦ some b
            ])) [
              | Resource.flops ↦ Ok-bind (Fresh (cs ++ [])) r.count _ (λ c.
                  Fresh-none cs (add_opnode (record { count = c }) b) (record {
                    order =
                        InOrder-op 0 b.node_list (length b.datanode_list) (length b.opnode_list)
                          t.order;
                    nodes = t.nodes;
                    no_groups = t.no_groups;
                  }))
              | Resource.loads ↦ build_data-Fresh cs OpType.load r b t
              | Resource.stores ↦ build_data-Fresh cs OpType.store r b t
              | Resource.other ↦ Fresh-none cs b t
            ]

  build_nodes_lem :
      (cs : List ℕ) (rs : List Requires) (b : ExecBlock)
      → Fresh cs b
      → Ok (Fresh (cs ++ all_asked rs)) (build_nodes raw beyond memobj_map rs b)
  unfolding build_nodes
  build_nodes_lem cs [] b t = Fresh-none cs b t
  build_nodes_lem cs (r ∷ rs) b t =
      Ok-then (Fresh (cs ++ all_asked (r ∷ rs))) (Fresh (cs ++ asked r))
        (build_node raw beyond memobj_map r b) _ (build_node-Fresh cs r b t)
        (λ b1 t1.
          Fresh-same ((cs ++ asked r) ++ all_asked rs) (cs ++ all_asked (r ∷ rs))
            (build_nodes raw beyond memobj_map rs b1) (append_assoc cs (asked r) (all_asked rs))
            (build_nodes_lem (cs ++ asked r) rs b1 t1))

  -- What build_nodes makes from an empty block: a data node for each statement that asks for one.
  pub build_nodes-Fresh :
      (rs : List Requires)
      → Ok (Fresh (all_asked rs)) (build_nodes raw beyond memobj_map rs empty_block)
  build_nodes-Fresh rs =
      build_nodes_lem [] rs empty_block (record { order = refl; nodes = tt; no_groups = refl })
