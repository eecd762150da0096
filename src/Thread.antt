-- ===== src/Thread.antt =====
-- engine/ar_context.cpp: the window of a thread over time: what a step of the walk fetches into it, how its
-- head retires, and how the thread advances. `none` is a failed assertion, a PANIC, a failure in a
-- generator, a division by 0, an index out of range, or the end of the fuel.
pub mod Fetch
pub mod Ring
pub mod Retire
pub mod Refill
pub mod Advance
pub mod Start
pub mod Fill
pub mod Events
pub mod Unloaded
pub mod Shape
pub mod Steady
use siena_mem.Base.{
  ℕ, zero, suc, ◌+◌, ◌-◌, ◌%◌, ◌/◌, Bool, true, false, ◌&&◌, ◌||◌, not, Option, none, some, List,
  [], ◌∷◌, ◌++◌, ltb, leb, ◌==◌, if◌then◌else◌, length, get_elem?, set, add64, sub64, mul64,
  word_max, mod?, ◌>>=◌,
}
use siena_mem.Types.{Req}
use siena_mem.DataNode.{DataNode, OpType}
use siena_mem.DataNode.Generators.{gen_addr}
use siena_mem.Context.{
  Status, issued, pending, ready, dispatched, completed, Op, L1, Context, try_dispatch_ld,
  try_dispatch_st, dispatch,
}
use siena_mem.Core.{CoreGroup}
use siena_mem.Walk.{Group, Walk, local_step, walk_step}

-- A Context with the fields that fetching, retiring and advancing read.
pub record Thread (C : Type 0) : Type 0 where
  pub ctx : Context C
  pub datanode_list : List DataNode
  pub walk : Walk
  pub global_control_max : ℕ
  pub win_head : ℕ
  pub win_load : ℕ
  pub time_next_event : ℕ
  pub rob_depth : ℕ
  pub ib_depth : ℕ
  pub watermark : ℕ
  pub is_done : Bool

-- OFFSET_T
pub record Offset : Type 0 where
  pub offset : ℕ
  pub num : ℕ

-- `for (i = 0; i < group_steps;)` over the steps of another group, `n` of them left.
unfoldable pub step_offsets : ℕ → ℕ → ℕ → ℕ → ℕ → List Offset
step_offsets zero i offset num_ops ops_step = []
step_offsets (suc n) i offset num_ops ops_step =
    record { offset = add64 offset (mul64 num_ops i); num = ops_step }
    ∷ step_offsets n (i + 1) offset num_ops ops_step

-- The offsets from a node to one that depends on it.
unfoldable pub node_offsets : Walk → Group → DataNode → DataNode → Option (List Offset)
unfolding step_offsets
node_offsets w group node next_node =
    let offset = sub64 next_node.offset node.offset in
    let shifted = sub64 offset (mul64 group.num_ops group.curr_group_step) in
    if next_node.group_id == w.curr_group_id
    then some (record { offset = offset; num = next_node.ops_step } ∷ [])
    else elim (get_elem? w.nodegroup_list next_node.group_id) [
      | none ↦ none
      | some g ↦ some (step_offsets g.group_steps 0 shifted g.num_ops next_node.ops_step)
    ]

-- The loop over node.next.
unfoldable pub next_offsets :
    List DataNode → Walk → Group → DataNode → List ℕ → Option (List Offset)
unfolding node_offsets
next_offsets nodes w group node [] = some []
next_offsets nodes w group node (id ∷ ids) = do
  next_node ← get_elem? nodes id
  o ← node_offsets w group node next_node
  os ← next_offsets nodes w group node ids
  some (o ++ os)

-- `o.offset - i + p` for p < o.num, `n` of them left.
unfoldable pub spread : ℕ → ℕ → ℕ → List ℕ
spread zero p base = []
spread (suc n) p base = add64 base p ∷ spread n (p + 1) base

unfoldable pub op_next : ℕ → List Offset → List ℕ
unfolding spread
op_next i [] = []
op_next i (o ∷ os) = spread o.num 0 (sub64 o.offset i) ++ op_next i os

-- What fetching changes: the window, win_load, and the position at which it writes.
pub record Fetched : Type 0 where
  pub window : List Op
  pub win_load : ℕ
  pub pos : ℕ

-- The operation of an address of a node.
abbrev pub fetched_op : DataNode → List Offset → ℕ → ℕ → ℕ → Op
fetched_op node os i addr pos = record {
  status = issued;
  pos = pos;
  prev = node.num_prev_ops;
  type = node.op_type;
  comp = node.comp;
  addr = addr;
  dispatch = 0;
  complete = 0;
  mem_ptr = node.mem_ptr;
  next = op_next i os;
}

-- The loop over the addresses; a write past the end of the window, which the source does not check, is
-- `none`.
unfoldable pub fetch_addrs : ℕ → DataNode → List Offset → ℕ → List ℕ → Fetched → Option Fetched
unfolding op_next
fetch_addrs ib_depth node os i [] f = some f
fetch_addrs ib_depth node os i (addr ∷ addrs) f =
    let pos = if leb ib_depth f.pos then 0 else f.pos in
    let f' : Fetched = record {
      window = set f.window pos (fetched_op node os i addr pos);
      win_load = add64 f.win_load 1;
      pos = add64 pos 1;
    } in
    let rest = fetch_addrs ib_depth node os (i + 1) addrs f' in
    if ltb pos (length f.window) then rest else none

-- The body of the loop over the nodes of a group. `draw` is what the random generator draws.
unfoldable pub fetch_node : ℕ → ℕ → List DataNode → Walk → Group → ℕ → Fetched → Option Fetched
unfolding next_offsets fetch_addrs
fetch_node draw ib_depth nodes w group node_id f = do
  node ← get_elem? nodes node_id
  addrs ← gen_addr draw node (local_step group w)
  os ← next_offsets nodes w group node node.next
  fetch_addrs ib_depth node os 0 addrs f

module _ {C : Type 0} where
  abbrev pub with_fetched : Walk → Fetched → Thread C → Thread C
  with_fetched w f t = record t {
    ctx = record t.ctx { window = f.window };
    walk = w;
    win_load = f.win_load;
  }

  -- fetch_global_step: the thread after it and the position after the last operation.
  unfoldable pub fetch_global_step : ℕ → ℕ → ℕ → Thread C → Option (Thread C × ℕ)
  unfolding walk_step fetch_node
  fetch_global_step fuel draw pos t =
      let start : Fetched = record { window = t.ctx.window; win_load = t.win_load; pos = pos } in
      let fetched = (do
        r ← walk_step (fetch_node draw t.ib_depth t.datanode_list) fuel t.walk start
        some (with_fetched r.0 r.1 t, r.1.pos)) in
      if ltb t.walk.fetched_global_step t.global_control_max && t.walk.curr_group_id == 0
      then fetched
      else none

  -- The loop of retire_head that fetches steps, at most `n` of them.
  unfoldable pub refill : ℕ → ℕ → ℕ → ℕ → Thread C → Option (Thread C)
  unfolding fetch_global_step
  refill zero fuel draw start t = none
  refill (suc n) fuel draw start t =
      let go = (do r ← fetch_global_step fuel draw start t; refill n fuel draw r.1 r.0) in
      if leb t.win_load (sub64 t.ib_depth t.watermark)
        && ltb t.walk.fetched_global_step t.global_control_max
      then go
      else some t

  -- `is_done`, at the end of retire_head.
  abbrev pub mark_end : Thread C → Thread C
  mark_end t = record t {
    is_done =
        if t.win_load == 0 && t.walk.fetched_global_step == t.global_control_max
        then true
        else t.is_done;
  }

  module _ (f : L1 C) where
    -- retire_head; `n` bounds the steps that it fetches.
    unfoldable pub retire_head : ℕ → ℕ → ℕ → Thread C → Option (Thread C)
    unfolding refill
    retire_head n fuel draw t = do
      let head = add64 t.win_head 1
      let t1 : Thread C = record t {
        win_head = if head == t.ib_depth then 0 else head;
        win_load = sub64 t.win_load 1;
      }
      t2 ←
          if ltb t1.win_load t1.rob_depth
          then (do
            start ← mod? (add64 t1.win_head t1.win_load) t1.ib_depth
            refill n fuel draw start t1)
          else some t1
      ctx ←
          if leb t2.rob_depth t2.win_load
          then (do
            last ← mod? (sub64 (add64 t2.win_head t2.rob_depth) 1) t2.ib_depth
            dispatch f last t2.ctx)
          else some t2.ctx
      some (mark_end (record t2 { ctx = ctx }))

-- init, with what the block gives: its nodes, its groups and its window size. A thread that is done is a
-- failed assertion.
unfoldable pub init :
    {C : Type 0}
    → ℕ
    → ℕ
    → ℕ
    → CoreGroup
    → List DataNode
    → List Group
    → ℕ
    → Thread C
    → Option (Thread C)
init tid st stop g nodes groups window_size t =
    if t.is_done
    then none
    else some (record t {
      ctx = record t.ctx {
        tid = tid;
        t_cpu = 0;
        lfb_depth = g.lfb_depth;
        alu = g.alu;
        ld = g.ld;
        st = g.st;
        has_complete_op = false;
      };
      datanode_list = nodes;
      walk = record { nodegroup_list = groups; curr_group_id = 0; fetched_global_step = st };
      global_control_max = stop;
      rob_depth = g.rob_depth;
      ib_depth = mul64 g.rob_depth 4;
      watermark = window_size;
    })

-- The body of the loop over the nodes in fetch_global_step_warmup; `lookup` is l1->lookup.
unfoldable pub lookup_all :
    {C : Type 0} → (ℕ → OpType → C → Option C) → OpType → List ℕ → C → Option C
lookup_all lookup type [] c = some c
lookup_all lookup type (addr ∷ addrs) c = do
  c' ← lookup addr type c
  lookup_all lookup type addrs c'

unfoldable pub warm_node :
    {C : Type 0} → (ℕ → OpType → C → Option C) → ℕ → List DataNode → Walk → Group → ℕ → C → Option C
unfolding lookup_all
warm_node lookup draw nodes w group node_id c = do
  node ← get_elem? nodes node_id
  addrs ← gen_addr draw node (local_step group w)
  lookup_all lookup node.op_type addrs c

-- warmup, with fetch_global_step_warmup: the thread after it, and whether its last step is fetched.
unfoldable pub warmup :
    {C : Type 0} → (ℕ → OpType → C → Option C) → ℕ → ℕ → Thread C → Option (Thread C × Bool)
unfolding warm_node walk_step
warmup lookup fuel draw t =
    let go = (do
      r ← walk_step (warm_node lookup draw t.datanode_list) fuel t.walk t.ctx.l1
      let t' = record t { walk = r.0; ctx = record t.ctx { l1 = r.1 } }
      some (t', r.0.fetched_global_step == t.global_control_max)) in
    if ltb t.walk.fetched_global_step t.global_control_max
    then (if t.walk.curr_group_id == 0 then go else none)
    else some (t, false)
