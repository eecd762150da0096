-- ===== src/Thread/Advance.antt =====
-- engine/ar_context.cpp: Context::advance and Context::init_window. The loop of advance reads the operation
-- through a reference: after retire_head, which can fetch a new operation to its place, it reads the new
-- one.
use siena_mem.Base.{
  ℕ, zero, suc, ◌+◌, Bool, true, false, ◌&&◌, not, Option, none, some, List, [], ◌∷◌, ltb, leb,
  ◌==◌, if◌then◌else◌, get_elem?, set, add64, sub64, mul64, word_max, div?, mod?, ◌>>=◌,
}
use siena_mem.DataNode.{OpType}
use siena_mem.Types.{Req}
use siena_mem.Context.{
  Status, issued, pending, dispatched, completed, Op, L1, Context, try_dispatch_ld, try_dispatch_st,
  dispatch, init_ports,
}
use siena_mem.Thread.{Thread, fetch_global_step, retire_head}

abbrev pub is_pending : Status → Bool
is_pending pending = true
is_pending _ = false

-- rob_load
abbrev pub rob_load : {C : Type 0} → Thread C → ℕ
rob_load t = if ltb t.rob_depth t.win_load then t.rob_depth else t.win_load

-- The time at which an operation is next due.
abbrev pub event_time : Op → ℕ
event_time op = if is_pending op.status then op.dispatch else op.complete

module _ {C : Type 0} where
  -- The loop that finds time_next_event, over `n` operations from `pos` on.
  unfoldable pub next_event : ℕ → ℕ → ℕ → Thread C → Option ℕ
  next_event zero pos best t = some best
  next_event (suc n) pos best t = do
    let p = if leb t.ib_depth pos then 0 else pos
    op ← get_elem? t.ctx.window p
    let e = event_time op
    next_event n (p + 1) (if ltb t.ctx.t_cpu e && ltb e best then e else best) t

  module _ (f : L1 C) where
    -- The loops over pending_ld_list and pending_st_list: the context and what stays in the list.
    unfoldable pub retry_ld : List Req → Context C → Context C × List Req
    unfolding try_dispatch_ld
    retry_ld [] c = (c, [])
    retry_ld (r ∷ rs) c =
        let (c1, success) = try_dispatch_ld f r c in
        let (c2, left) =
          retry_ld rs (if success then record c1 { has_complete_op = true } else c1) in
        (c2, if success then left else r ∷ left)

    unfoldable pub retry_st : List Req → Context C → Context C × List Req
    unfolding try_dispatch_st
    retry_st [] c = (c, [])
    retry_st (r ∷ rs) c =
        let (c1, success) = try_dispatch_st f r c in
        let (c2, left) =
          retry_st rs (if success then record c1 { has_complete_op = true } else c1) in
        (c2, if success then left else r ∷ left)

    unfoldable pub retry : Context C → Context C
    unfolding retry_ld retry_st
    retry c =
        let (c1, loads) = retry_ld c.pending_ld_list c in
        let c2 : Context C = record c1 { pending_ld_list = loads } in
        let (c3, stores) = retry_st c2.pending_st_list c2 in record c3 { pending_st_list = stores }

    -- The loop over op.next: each child loses a predecessor, and the last one sends it out.
    unfoldable pub release : ℕ → ℕ → List ℕ → Context C → Option (Context C)
    unfolding dispatch
    release ib_depth pos [] c = some c
    release ib_depth pos (offset ∷ offsets) c = do
      child_pos ← mod? (add64 pos offset) ib_depth
      child ← get_elem? c.window child_pos
      let prev = sub64 child.prev 1
      let c1 : Context C = record c {
        window = set c.window child_pos (record child { prev = prev });
      }
      c2 ← (if prev == 0 && is_pending child.status then dispatch f child_pos c1 else some c1)
      (if child.prev == 0 then none else release ib_depth pos offsets c2)

    -- The case of an operation that was dispatched and completes.
    unfoldable pub complete_at : ℕ → ℕ → ℕ → ℕ → Op → Thread C → Option (Thread C)
    unfolding retire_head release
    complete_at n fuel draw pos op t = do
      let t1 : Thread C = record t {
        ctx = record t.ctx { window = set t.ctx.window pos (record op { status = completed }) };
      }
      t2 ← (if op.pos == t.win_head then retire_head f n fuel draw t1 else some t1)
      op' ← get_elem? t2.ctx.window pos
      ctx ← (if t2.is_done then some t2.ctx else release t2.ib_depth op'.pos op'.next t2.ctx)
      some (record t2 { ctx = ctx })

    -- The switch on the status of the operation at `pos`.
    unfoldable pub visit_op : ℕ → ℕ → ℕ → ℕ → Thread C → Option (Thread C)
    unfolding complete_at retire_head
    visit_op n fuel draw pos t = do
      op ← get_elem? t.ctx.window pos
      elim op.status [
        | dispatched ↦
            if ltb 0 op.complete && leb op.complete t.ctx.t_cpu
            then complete_at n fuel draw pos op t
            else some t
        | completed ↦ if op.pos == t.win_head then retire_head f n fuel draw t else some t
        | _ ↦ some t
      ]

    -- The loop over the reorder buffer, with `k` operations left from `pos` on.
    unfoldable pub scan : ℕ → ℕ → ℕ → ℕ → ℕ → Thread C → Option (Thread C)
    unfolding visit_op
    scan n fuel draw zero pos t = some t
    scan n fuel draw (suc k) pos t = do
      let p = if leb t.ib_depth pos then 0 else pos
      t' ← visit_op n fuel draw p t
      scan n fuel draw k (p + 1) t'

    -- The part of advance after the early returns.
    unfoldable pub advance_window : ℕ → ℕ → ℕ → Thread C → Option (Thread C)
    unfolding scan next_event
    advance_window n fuel draw t = do
      let t1 : Thread C = record t { ctx = record t.ctx { has_complete_op = false } }
      t2 ← scan n fuel draw (rob_load t1) t1.win_head t1
      e ← next_event (rob_load t2) t2.win_head word_max t2
      some (record t2 { time_next_event = e })

    -- advance: the thread after it and what it returns.
    unfoldable pub advance : ℕ → ℕ → ℕ → ℕ → Thread C → Option (Thread C × Bool)
    unfolding retry advance_window
    advance n fuel draw now t =
        let t1 : Thread C = record t { ctx = retry (record t.ctx { t_cpu = now }) } in
        let go = (do t2 ← advance_window n fuel draw t1; some (t2, t2.is_done)) in
        if t.is_done
        then some (t, false)
        else if not t1.ctx.has_complete_op && ltb now t1.time_next_event
        then some (t1, false)
        else go

    -- The loop of init_window that dispatches the `n` operations from `pos` on.
    unfoldable pub dispatch_from : ℕ → ℕ → ℕ → Context C → Option (Context C × ℕ)
    unfolding dispatch
    dispatch_from zero pos best c = some (c, best)
    dispatch_from (suc n) pos best c = do
      c' ← dispatch f pos c
      op ← get_elem? c'.window pos
      let e = event_time op
      dispatch_from n (pos + 1) (if ltb e best then e else best) c'

-- window.resize, with the operations that it adds.
abbrev pub zero_op : Op
zero_op = record {
  status = issued;
  pos = 0;
  prev = 0;
  type = OpType.load;
  comp = 0;
  addr = 0;
  dispatch = 0;
  complete = 0;
  mem_ptr = 0;
  next = [];
}

unfoldable pub resize : ℕ → List Op → List Op
resize zero w = []
resize (suc n) [] = zero_op ∷ resize n []
resize (suc n) (op ∷ w) = op ∷ resize n w

-- The number of steps that the first window holds: as many as fit, at least 2, at most those that there
-- are.
unfoldable pub init_steps : ℕ → ℕ → ℕ → Option ℕ
init_steps ib_depth watermark max_steps = do
  q ← div? ib_depth watermark
  let num_steps = if ltb q 2 then 2 else q
  some (if ltb num_steps max_steps then num_steps else max_steps)

module _ {C : Type 0} where
  -- The thread before the first step is fetched.
  abbrev pub sized : ℕ → Thread C → Thread C
  sized ib_depth t = record t {
    ib_depth = ib_depth;
    ctx = record (init_ports t.ctx) { window = resize ib_depth t.ctx.window };
  }

  -- The loop of init_window that fetches `n` steps.
  unfoldable pub fetch_steps : ℕ → ℕ → ℕ → ℕ → Thread C → Option (Thread C × ℕ)
  unfolding fetch_global_step
  fetch_steps zero fuel draw pos t = some (t, pos)
  fetch_steps (suc n) fuel draw pos t = do
    r ← fetch_global_step fuel draw pos t
    fetch_steps n fuel draw r.1 r.0

  module _ (f : L1 C) where
    -- init_window, from the ib_depth that init gives: 4 * rob_depth.
    unfoldable pub init_window : ℕ → ℕ → Thread C → Option (Thread C)
    unfolding init_steps init_ports resize fetch_steps dispatch_from
    init_window fuel draw t = do
      num_steps ←
          init_steps t.ib_depth t.watermark (sub64 t.global_control_max t.walk.fetched_global_step)
      let t1 = sized (mul64 num_steps t.watermark) t
      r ← fetch_steps num_steps fuel draw 0 t1
      let t2 : Thread C = record r.0 { win_load = t1.ib_depth; win_head = 0 }
      d ← (if r.1 == t1.ib_depth then dispatch_from f (rob_load t2) 0 word_max t2.ctx else none)
      some (record t2 { ctx = d.0; time_next_event = d.1 })
