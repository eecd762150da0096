-- ===== src/Thread/Unloaded.antt =====
-- What fetch_global_step of engine/ar_context.cpp writes does not depend on win_load, which it only counts up: neither
-- the constructor of Context nor init sets it, and init_window sets it after it has fetched.
use siena_mem.Base.{
  ℕ, zero, suc, ◌≡◌, refl, sym, ap, ◌∙◌, ◌+◌, get_elem?, set, ◌&&◌, some, List, [], ◌∷◌, ltb, leb,
  ◌==◌, if◌then◌else◌, length, add64, bind-some, guarded-some, some_inj,
}
use siena_mem.DataNode.{DataNode}
use siena_mem.DataNode.Generators.{gen_addr}
use siena_mem.Walk.{local_step, walk_step}
use siena_mem.Walk.Relate.{Follows, walk_step-Follows}
use siena_mem.Thread.{
  Thread, Offset, Fetched, fetched_op, next_offsets, fetch_addrs, fetch_node, fetch_global_step,
  with_fetched,
}
use siena_mem.Thread.Advance.{fetch_steps}

-- Two states of a fetch that are the same but for win_load.
abbrev SameWrites : Fetched → Fetched → Type 0
SameWrites f g = (l : ℕ) × (record f { win_load = l } ≡ g)

abbrev pub with_load : {C : Type 0} → ℕ → Thread C → Thread C
with_load l t = record t { win_load = l }

fetch_addrs-SameWrites :
    (d : ℕ) (node : DataNode) (os : List Offset) (i : ℕ) (addrs : List ℕ) (l : ℕ) (f f' : Fetched)
    → fetch_addrs d node os i addrs f ≡ some f'
    → (l' : ℕ) × (fetch_addrs d node os i addrs (record f { win_load = l })
        ≡ some (record f' { win_load = l' }))
unfolding fetch_addrs
fetch_addrs-SameWrites d node os i [] l f f' e =
    (l, ap (λ (x : Fetched). some (record x { win_load = l })) (some_inj f f' e))
fetch_addrs-SameWrites d node os i (addr ∷ addrs) l f f' e =
    let pos = if leb d f.pos then 0 else f.pos in
    let op = fetched_op node os i addr pos in
    let next : Fetched = record {
      window = set f.window pos op;
      win_load = add64 f.win_load 1;
      pos = add64 pos 1;
    } in
    let (inside, run) =
      guarded-some (ltb pos (length f.window)) (fetch_addrs d node os (i + 1) addrs next) f' e in
    let (l', done) = fetch_addrs-SameWrites d node os (i + 1) addrs (add64 l 1) next f' run in
    (l', rw inside done)

fetch_node-SameWrites :
    (draw d : ℕ) (nodes : List DataNode)
    → Follows SameWrites (fetch_node draw d nodes) (fetch_node draw d nodes)
unfolding fetch_node
fetch_node-SameWrites draw d nodes w g id f f' h (l, same) e =
    let (node, e0, e1) = bind-some (get_elem? nodes id) _ f' e in
    let (addrs, e2, e3) = bind-some (gen_addr draw node (local_step g w)) _ f' e1 in
    let (os, e4, e5) = bind-some (next_offsets nodes w g node node.next) _ f' e3 in
    let (l', run) = fetch_addrs-SameWrites d node os 0 addrs l f f' e5 in
    (
      record f' { win_load = l' },
      ap (fetch_node draw d nodes w g id) (sym same) ∙ rw (e0, e2, e4) run,
      (l', refl),
    )

module _ {C : Type 0} where
  fetch_global_step-unloaded :
      (fuel draw pos l : ℕ) (t t' : Thread C) (pos' : ℕ)
      → fetch_global_step fuel draw pos t ≡ some (t', pos')
      → (l' : ℕ) × (fetch_global_step fuel draw pos (with_load l t) ≡ some (with_load l' t', pos'))
  unfolding fetch_global_step
  fetch_global_step-unloaded fuel draw pos l t t' pos' e =
      let start : Fetched = record { window = t.ctx.window; win_load = t.win_load; pos = pos } in
      let visit = fetch_node draw t.ib_depth t.datanode_list in
      let (more, run) =
        guarded-some
          (ltb t.walk.fetched_global_step t.global_control_max && t.walk.curr_group_id == 0) _
          (t', pos') e in
      let (r, e1, e2) = bind-some (walk_step visit fuel t.walk start) _ (t', pos') run in
      let (g, e3, (l', same)) =
        walk_step-Follows SameWrites visit visit
          (fetch_node-SameWrites draw t.ib_depth t.datanode_list) fuel t.walk r.0 start r.1
          (record start { win_load = l }) (l, refl) e1 in
      let last = some_inj (with_fetched r.0 r.1 t, r.1.pos) (t', pos') e2 in
      (
        l',
        rw (more, e3)
            (ap (λ (x : Fetched). some (with_fetched r.0 x (with_load l t), x.pos)) (sym same)
              ∙ ap (λ (x : Thread C × ℕ). some (with_load l' x.0, x.1)) last),
      )

  -- The steps that are fetched whatever win_load is before.
  pub fetch_steps-unloaded :
      (n fuel draw pos l : ℕ) (t t' : Thread C) (pos' : ℕ)
      → fetch_steps n fuel draw pos t ≡ some (t', pos')
      → (l' : ℕ) × (fetch_steps n fuel draw pos (with_load l t) ≡ some (with_load l' t', pos'))
  unfolding fetch_steps
  fetch_steps-unloaded zero fuel draw pos l t t' pos' e =
      (l, ap (λ (x : Thread C × ℕ). some (with_load l x.0, x.1)) (some_inj (t, pos) (t', pos') e))
  fetch_steps-unloaded (suc n) fuel draw pos l t t' pos' e =
      let (r, e1, e2) = bind-some (fetch_global_step fuel draw pos t) _ (t', pos') e in
      let (l1, f1) = fetch_global_step-unloaded fuel draw pos l t r.0 r.1 e1 in
      let (l2, f2) = fetch_steps-unloaded n fuel draw r.1 l1 r.0 t' pos' e2 in (l2, rw f1 f2)
