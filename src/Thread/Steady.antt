-- ===== src/Thread/Steady.antt =====
-- What Context::advance of engine/ar_context.cpp leaves as it is in a thread: the depths, the length of the window
-- and the time.
use siena_mem.Base.{
  ℕ, zero, suc, ◌+◌, ◌≡◌, refl, ◌∙◌, ◌&&◌, none, some, List, [], ◌∷◌, ltb, leb, ◌==◌, if◌then◌else◌,
  length, get_elem?, set, add64, sub64, mod?, ◌>>=◌, length-set, Ok, Ok-bind, Ok-then, Ok-if,
}
use siena_mem.DataNode.{DataNode}
use siena_mem.DataNode.Generators.{gen_addr}
use siena_mem.Context.{dispatched, completed, Op, L1, Context, dispatch}
use siena_mem.Walk.{local_step, walk_step}
use siena_mem.Walk.Relate.{walk_step-Ok}
use siena_mem.Thread.{
  Thread, Offset, Fetched, fetched_op, next_offsets, fetch_addrs, fetch_node, fetch_global_step,
  refill, retire_head,
}
use siena_mem.Thread.Advance.{release, complete_at, visit_op, scan, is_pending}
use siena_mem.Thread.Shape.{Shape, Shape-written, dispatch-Shape}

-- A thread of the same depths, with a window of the same length, at the same time.
pub record Steady {C : Type 0} (t t' : Thread C) : Type 0 where
  pub ib_depth : t'.ib_depth ≡ t.ib_depth
  pub rob_depth : t'.rob_depth ≡ t.rob_depth
  pub shape : Shape t.ctx t'.ctx

fetch_addrs-length :
    (d n : ℕ) (node : DataNode) (os : List Offset) (i : ℕ) (addrs : List ℕ) (f : Fetched)
    → length f.window ≡ n
    → Ok (λ f'. length f'.window ≡ n) (fetch_addrs d node os i addrs f)
unfolding fetch_addrs
fetch_addrs-length d n node os i [] f e = e
fetch_addrs-length d n node os i (addr ∷ addrs) f e =
    let pos = if leb d f.pos then 0 else f.pos in
    let op = fetched_op node os i addr pos in
    let next : Fetched = record {
      window = set f.window pos op;
      win_load = add64 f.win_load 1;
      pos = add64 pos 1;
    } in
    Ok-if (λ f'. length f'.window ≡ n) (ltb pos (length f.window))
      (fetch_addrs d node os (i + 1) addrs next) none
      (λ q. fetch_addrs-length d n node os (i + 1) addrs next (length-set f.window pos op ∙ e))
      (λ q. tt)

module _ {C : Type 0} (t₀ : Thread C) where
  fetch_global_step-Steady :
      (fuel draw pos : ℕ) (t : Thread C)
      → Steady t₀ t
      → Ok (λ r. Steady t₀ r.0) (fetch_global_step fuel draw pos t)
  unfolding fetch_global_step fetch_node
  fetch_global_step-Steady fuel draw pos t s =
      let start : Fetched = record { window = t.ctx.window; win_load = t.win_load; pos = pos } in
      let n = length t.ctx.window in
      let visit = fetch_node draw t.ib_depth t.datanode_list in
      Ok-if (λ r. Steady t₀ r.0)
        (ltb t.walk.fetched_global_step t.global_control_max && t.walk.curr_group_id == 0) _ _
        (λ q.
          Ok-then (λ r. Steady t₀ r.0) (λ r. length r.1.window ≡ n)
            (walk_step visit fuel t.walk start) _
            (walk_step-Ok visit (λ f. length f.window ≡ n)
              (λ w g id f e.
                Ok-bind (λ f'. length f'.window ≡ n) (get_elem? t.datanode_list id) _
                  (λ node.
                    Ok-bind (λ f'. length f'.window ≡ n) (gen_addr draw node (local_step g w)) _
                      (λ addrs.
                        Ok-bind (λ f'. length f'.window ≡ n)
                          (next_offsets t.datanode_list w g node node.next) _
                          (λ os. fetch_addrs-length t.ib_depth n node os 0 addrs f e))))
              fuel t.walk start refl)
            (λ r e. record {
              ib_depth = s.ib_depth;
              rob_depth = s.rob_depth;
              shape = record { window_length = e ∙ s.shape.window_length; now = s.shape.now };
            }))
        (λ q. tt)

  refill-Steady :
      (n fuel draw start : ℕ) (t : Thread C)
      → Steady t₀ t
      → Ok (Steady t₀) (refill n fuel draw start t)
  unfolding refill
  refill-Steady zero fuel draw start t s = tt
  refill-Steady (suc n) fuel draw start t s =
      Ok-if (Steady t₀)
        (leb t.win_load (sub64 t.ib_depth t.watermark)
          && ltb t.walk.fetched_global_step t.global_control_max)
        _ _
        (λ q.
          Ok-then (Steady t₀) (λ r. Steady t₀ r.0) (fetch_global_step fuel draw start t) _
            (fetch_global_step-Steady fuel draw start t s)
            (λ r s1. refill-Steady n fuel draw r.1 r.0 s1))
        (λ q. s)

  -- A thread whose context is another.
  with_ctx :
      (t t' : Thread C)
      → Steady t₀ t
      → Shape t₀.ctx t'.ctx
      → t'.ib_depth ≡ t.ib_depth
      → t'.rob_depth ≡ t.rob_depth
      → Steady t₀ t'
  with_ctx t t' s h d r = record {
    ib_depth = d ∙ s.ib_depth;
    rob_depth = r ∙ s.rob_depth;
    shape = h;
  }

  module _ (f : L1 C) where
    retire_head-Steady :
        (n fuel draw : ℕ) (t : Thread C)
        → Steady t₀ t
        → Ok (Steady t₀) (retire_head f n fuel draw t)
    unfolding retire_head
    retire_head-Steady n fuel draw t s =
        let head = add64 t.win_head 1 in
        let t1 : Thread C = record t {
          win_head = if head == t.ib_depth then 0 else head;
          win_load = sub64 t.win_load 1;
        } in
        let s1 : Steady t₀ t1 = with_ctx t t1 s s.shape refl refl in
        Ok-then (Steady t₀) (Steady t₀)
          (if ltb t1.win_load t1.rob_depth
            then (do
              start ← mod? (add64 t1.win_head t1.win_load) t1.ib_depth
              refill n fuel draw start t1)
            else some t1)
          _
          (Ok-if (Steady t₀) (ltb t1.win_load t1.rob_depth) _ _
            (λ q.
              Ok-bind (Steady t₀) (mod? (add64 t1.win_head t1.win_load) t1.ib_depth) _
                (λ start. refill-Steady n fuel draw start t1 s1))
            (λ q. s1))
          (λ t2 s2.
            Ok-then (Steady t₀) (Shape t₀.ctx)
              (if leb t2.rob_depth t2.win_load
                then (do
                  last ← mod? (sub64 (add64 t2.win_head t2.rob_depth) 1) t2.ib_depth
                  dispatch f last t2.ctx)
                else some t2.ctx)
              _
              (Ok-if (Shape t₀.ctx) (leb t2.rob_depth t2.win_load) _ _
                (λ q.
                  Ok-bind (Shape t₀.ctx)
                    (mod? (sub64 (add64 t2.win_head t2.rob_depth) 1) t2.ib_depth) _
                    (λ last. dispatch-Shape f t₀.ctx last t2.ctx s2.shape))
                (λ q. s2.shape))
              (λ ctx h. with_ctx t2 _ s2 h refl refl))

    release-Shape :
        (d pos : ℕ) (offsets : List ℕ) (c : Context C)
        → Shape t₀.ctx c
        → Ok (Shape t₀.ctx) (release f d pos offsets c)
    unfolding release
    release-Shape d pos [] c h = h
    release-Shape d pos (o ∷ offsets) c h =
        let P = Shape t₀.ctx in
        Ok-bind P (mod? (add64 pos o) d) _ (λ at. Ok-bind P (get_elem? c.window at) _ (λ child.
          let prev = sub64 child.prev 1 in
          let c1 : Context C = record c {
            window = set c.window at (record child { prev = prev });
          } in
          let h1 = Shape-written t₀.ctx c at (record child { prev = prev }) h in
          Ok-then P P (if prev == 0 && is_pending child.status then dispatch f at c1 else some c1) _
            (Ok-if P (prev == 0 && is_pending child.status) _ _
              (λ q. dispatch-Shape f t₀.ctx at c1 h1) (λ q. h1))
            (λ c2 h2.
              Ok-if P (child.prev == 0) none (release f d pos offsets c2) (λ q. tt)
                (λ q. release-Shape d pos offsets c2 h2))))

    complete_at-Steady :
        (n fuel draw pos : ℕ) (op : Op) (t : Thread C)
        → Steady t₀ t
        → Ok (Steady t₀) (complete_at f n fuel draw pos op t)
    unfolding complete_at
    complete_at-Steady n fuel draw pos op t s =
        let done : Op = record op { status = completed } in
        let t1 : Thread C = record t {
          ctx = record t.ctx { window = set t.ctx.window pos done };
        } in
        let s1 : Steady t₀ t1 =
          with_ctx t t1 s (Shape-written t₀.ctx t.ctx pos done s.shape) refl refl in
        Ok-then (Steady t₀) (Steady t₀)
          (if op.pos == t.win_head then retire_head f n fuel draw t1 else some t1) _
          (Ok-if (Steady t₀) (op.pos == t.win_head) _ _ (λ q. retire_head-Steady n fuel draw t1 s1)
            (λ q. s1))
          (λ t2 s2. Ok-bind (Steady t₀) (get_elem? t2.ctx.window pos) _ (λ op'.
            Ok-then (Steady t₀) (Shape t₀.ctx)
              (if t2.is_done then some t2.ctx else release f t2.ib_depth op'.pos op'.next t2.ctx) _
              (Ok-if (Shape t₀.ctx) t2.is_done _ _ (λ q. s2.shape)
                (λ q. release-Shape t2.ib_depth op'.pos op'.next t2.ctx s2.shape))
              (λ ctx h. with_ctx t2 _ s2 h refl refl)))

    visit_op-Steady :
        (n fuel draw pos : ℕ) (t : Thread C)
        → Steady t₀ t
        → Ok (Steady t₀) (visit_op f n fuel draw pos t)
    unfolding visit_op
    visit_op-Steady n fuel draw pos t s = Ok-bind (Steady t₀) (get_elem? t.ctx.window pos) _ (λ op.
        elim op.status
          as (λ x. Ok (Steady t₀) (elim x [
            | dispatched ↦
                if ltb 0 op.complete && leb op.complete t.ctx.t_cpu
                then complete_at f n fuel draw pos op t
                else some t
            | completed ↦ if op.pos == t.win_head then retire_head f n fuel draw t else some t
            | _ ↦ some t
          ])) [
            | dispatched ↦
                Ok-if (Steady t₀) (ltb 0 op.complete && leb op.complete t.ctx.t_cpu) _ _
                  (λ q. complete_at-Steady n fuel draw pos op t s) (λ q. s)
            | completed ↦
                Ok-if (Steady t₀) (op.pos == t.win_head) _ _
                  (λ q. retire_head-Steady n fuel draw t s) (λ q. s)
            | _ ↦ s
          ])

    pub scan-Steady :
        (n fuel draw k pos : ℕ) (t : Thread C)
        → Steady t₀ t
        → Ok (Steady t₀) (scan f n fuel draw k pos t)
    unfolding scan
    scan-Steady n fuel draw zero pos t s = s
    scan-Steady n fuel draw (suc k) pos t s =
        let p = if leb t.ib_depth pos then 0 else pos in
        Ok-then (Steady t₀) (Steady t₀) (visit_op f n fuel draw p t) _
          (visit_op-Steady n fuel draw p t s) (λ t' s'. scan-Steady n fuel draw k (p + 1) t' s')
