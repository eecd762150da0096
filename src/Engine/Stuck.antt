-- ===== src/Engine/Stuck.antt =====
-- The loop over the steps in Engine::exec_node_longstep of engine/ar_engine.cpp without a simulator: get_next_event then
-- reads the head of the window, also of a thread that is done, where a retired operation stands.
use siena_mem.Base.{
  ℕ, zero, suc, ◌+◌, ◌≤◌, ◌<◌, ◌≡◌, ◌⊎◌, refl, sym, ap, ◌∙◌, inl, inr, true, false, some, List, [],
  ◌∷◌, arith, get_elem?, ltb, lt→ltb, word_max, some_inj,
}
use mathlib.Core.Path.{subst}
use siena_mem.Types.{Req}
use siena_mem.Context.{Op, L1, Context}
use siena_mem.Thread.{Thread}
use siena_mem.Thread.Advance.{advance, retry, retry_ld, retry_st, event_time}
use siena_mem.Engine.Loop.{
  Sims, Pass, with_caches, get_next_event, earlier, advance_sims, step_pass, step_round, step_loop,
}

-- A thread that waits for a cycle after `m`.
pub record Waits {C : Type 0} (m : ℕ) (t : Thread C) : Type 0 where
  pub not_done : t.is_done ≡ false
  pub no_complete : t.ctx.has_complete_op ≡ false
  pub no_loads : t.ctx.pending_ld_list ≡ []
  pub no_stores : t.ctx.pending_st_list ≡ []
  pub later : m < t.time_next_event

-- A thread that does nothing up to the cycle `m`, with an operation at its head.
abbrev pub Idle : {C : Type 0} → ℕ → Thread C → Type 0
Idle m t =
    ((op : Op) × (get_elem? t.ctx.window t.win_head ≡ some op)) × ((t.is_done ≡ true) ⊎ Waits m t)

abbrev pub AllIdle : {C : Type 0} → ℕ → List (Thread C) → Type 0
AllIdle m [] = Unit
AllIdle m (t ∷ ts) = Idle m t × AllIdle m ts

-- A thread that is done, at whose head stands an operation with a time up to `m`.
abbrev pub Early : {C : Type 0} → ℕ → Thread C → Type 0
Early m t =
    (op : Op) × (get_elem? t.ctx.window t.win_head ≡ some op)
    × (t.is_done ≡ true)
    × (0 < event_time op)
    × (event_time op ≤ m)

abbrev pub SomeEarly : {C : Type 0} → ℕ → List (Thread C) → Type 0
SomeEarly m [] = ⊥
SomeEarly m (t ∷ ts) = Early m t ⊎ SomeEarly m ts

module _ {C : Type 0} (f : L1 C) where
  retry-empty : (c : Context C) → c.pending_ld_list ≡ [] → c.pending_st_list ≡ [] → retry f c ≡ c
  unfolding retry retry_ld retry_st
  retry-empty c e g =
      let loads : record c { pending_ld_list = []; pending_st_list = [] }
          ≡ record c { pending_st_list = [] } =
        ap (λ (l : List Req). record c { pending_ld_list = l; pending_st_list = [] }) (sym e) in
      let stores : record c { pending_st_list = [] } ≡ c =
        ap (λ (l : List Req). record c { pending_st_list = l }) (sym g) in
      subst (λ (x : Context C). retry f x ≡ x) (loads ∙ stores) refl

  -- What advance makes of a thread that does nothing.
  record Rested (m : ℕ) (t : Thread C) (n fuel draw now : ℕ) (c : C) : Type 0 where
    after : Thread C
    run : advance f n fuel draw now (with_caches c t) ≡ some (after, false)
    idle : Idle m after
    same_window : after.ctx.window ≡ t.ctx.window
    same_head : after.win_head ≡ t.win_head
    same_mark : after.is_done ≡ t.is_done

  advance-Idle :
      (m : ℕ) (t : Thread C) (n fuel draw now : ℕ) (c : C)
      → Idle m t
      → now ≤ m
      → Rested m t n fuel draw now c
  unfolding advance
  advance-Idle m t n fuel draw now c (head, inl d) h = record {
    after = with_caches c t;
    run = rw d refl;
    idle = (head, inl d);
    same_window = refl;
    same_head = refl;
    same_mark = refl;
  }
  advance-Idle m t n fuel draw now c (head, inr w) h =
      let c1 : Context C = record t.ctx { l1 = c; t_cpu = now } in
      let after : Thread C = record t { ctx = c1 } in
      record {
        after = after;
        run =
            rw
              (
                w.not_done,
                retry-empty c1 w.no_loads w.no_stores,
                w.no_complete,
                lt→ltb now t.time_next_event (omega (arith, w.later)),
              )
              refl;
        idle = (
          head,
          inr (record {
            not_done = w.not_done;
            no_complete = w.no_complete;
            no_loads = w.no_loads;
            no_stores = w.no_stores;
            later = w.later;
          }),
        );
        same_window = refl;
        same_head = refl;
        same_mark = refl;
      }

Early-moved :
    {C : Type 0} (m : ℕ) (t t' : Thread C)
    → t'.ctx.window ≡ t.ctx.window
    → t'.win_head ≡ t.win_head
    → t'.is_done ≡ t.is_done
    → Early m t
    → Early m t'
Early-moved m t t' w h d (op, e, done, some_time, le) = (
  op,
  ap (λ x. get_elem? x t'.win_head) w ∙ ap (get_elem? t.ctx.window) h ∙ e,
  d ∙ done,
  some_time,
  le,
)

earlier-le : (e next_step : ℕ) → earlier e next_step ≤ next_step
earlier-le e next_step = ground arith

earlier-le_early : (e next_step m : ℕ) → 0 < e → e ≤ m → earlier e next_step ≤ m
earlier-le_early e next_step m p h = ground arith

-- The pass `p'` over threads that do nothing up to the cycle `m`, begun with `finished` threads and `next_step`.
record Resting {C : Type 0} (m finished next_step : ℕ) (ts : List (Thread C)) (p' : Pass C)
    : Type 0 where
  idle : AllIdle m p'.threads
  finished_same : p'.num_finished_threads ≡ finished
  next_le : p'.next_step ≤ next_step
  early : SomeEarly m ts → SomeEarly m p'.threads × (p'.next_step ≤ m)

module _ {C : Type 0} (l1_of : ℕ → L1 C) (n fuel draw num_threads now m : ℕ) (h : now ≤ m) where
  step_pass-Resting :
      (tid : ℕ) (ts : List (Thread C)) (c : C) (finished next_step : ℕ)
      → AllIdle m ts
      → finished < num_threads
      → (p' : Pass C) × (step_pass l1_of n fuel draw false num_threads now tid ts c finished
            next_step
          ≡ some p')
        × Resting m finished next_step ts p'
  unfolding step_pass get_next_event
  step_pass-Resting tid [] c finished next_step i more = (
    record { threads = []; caches = c; num_finished_threads = finished; next_step = next_step },
    refl,
    record { idle = tt; finished_same = refl; next_le = omega arith; early = λ s. elim s [ ] },
  )
  step_pass-Resting tid (t ∷ ts) c finished next_step i more =
      let r = advance-Idle (l1_of tid) m t n fuel draw now c i.0 h in
      let (op, found) = i.0.0 in
      let (op', found') = r.idle.0 in
      let next = earlier (event_time op') next_step in
      let (p', run, q) = step_pass-Resting (tid + 1) ts r.after.ctx.l1 finished next i.1 more in
      (
        record p' { threads = r.after ∷ p'.threads },
        rw (r.run, lt→ltb finished num_threads more, found', run) refl,
        record {
          idle = (r.idle, q.idle);
          finished_same = q.finished_same;
          next_le = omega (arith, q.next_le, earlier-le (event_time op') next_step);
          early = λ s. elim s [
            | inl e ↦
                let e' = Early-moved m t r.after r.same_window r.same_head r.same_mark e in
                let same : e'.0 ≡ op' = some_inj e'.0 op' (sym e'.1 ∙ found') in
                let first =
                  earlier-le_early (event_time op') next_step m
                    (subst (λ x. 0 < event_time x) same e'.3)
                    (subst (λ x. event_time x ≤ m) same e'.4) in
                (inl e', omega (arith, q.next_le, first))
            | inr e ↦ let (rest, le) = q.early e in (inr rest, le)
          ];
        },
      )

-- memsim_ptr_list, empty.
abbrev pub no_sims : {C : Type 0} → Sims C
no_sims = record { count = 0; advance = λ i now m. some m; next_event = λ i m. some 0 }

-- The passes that the loop over the steps makes: `rounds` of them, each of which succeeds and is begun because the
-- loop's test holds.
pub data Runs {C : Type 0} (sims : Sims C) (l1_of : ℕ → L1 C) (n fuel draw num_threads : ℕ)
    (p₀ : Pass C) : ℕ → Pass C → Type 0 where
  begin : Runs sims l1_of n fuel draw num_threads p₀ 0 p₀
  round :
      {rounds : ℕ} {p p' : Pass C}
      → Runs sims l1_of n fuel draw num_threads p₀ rounds p
      → ltb p.num_finished_threads num_threads ≡ true
      → step_round sims l1_of n fuel draw num_threads p ≡ some p'
      → Runs sims l1_of n fuel draw num_threads p₀ (suc rounds) p'

-- After the passes that it makes the loop goes on from the last one.
Runs-step_loop :
    {C : Type 0} (sims : Sims C) (l1_of : ℕ → L1 C) (n fuel draw num_threads : ℕ) (p : Pass C)
    (rounds k : ℕ) (p' : Pass C)
    → Runs sims l1_of n fuel draw num_threads p rounds p'
    → step_loop sims l1_of n fuel draw num_threads (rounds + k) p
      ≡ step_loop sims l1_of n fuel draw num_threads k p'
unfolding step_loop
Runs-step_loop sims l1_of n fuel draw num_threads p _ k _ begin =
    ap (λ x. step_loop sims l1_of n fuel draw num_threads x p) (omega arith)
Runs-step_loop sims l1_of n fuel draw num_threads p _ k _
      (round {rounds = r} {p = q} runs more run) =
    ap (λ x. step_loop sims l1_of n fuel draw num_threads x p) (omega arith)
    ∙ Runs-step_loop sims l1_of n fuel draw num_threads p r (suc k) q runs
    ∙ rw (more, run) refl

-- What holds of every pass of a loop that does not come to its end.
record Held {C : Type 0} (m num_threads : ℕ) (p : Pass C) : Type 0 where
  idle : AllIdle m p.threads
  early : SomeEarly m p.threads
  due : p.next_step ≤ m
  more : p.num_finished_threads < num_threads

module _ {C : Type 0} (l1_of : ℕ → L1 C) (n fuel draw num_threads m : ℕ) where
  step_round-Held :
      (p : Pass C)
      → Held m num_threads p
      → (p' : Pass C) × (step_round no_sims l1_of n fuel draw num_threads p ≡ some p')
        × Held m num_threads p'
        × (p'.num_finished_threads ≡ p.num_finished_threads)
  unfolding step_round advance_sims
  step_round-Held p h =
      let (p', run, q) =
        step_pass-Resting l1_of n fuel draw num_threads p.next_step m h.due 0 p.threads p.caches
          p.num_finished_threads word_max h.idle h.more in
      let (early, due) = q.early h.early in
      (
        p',
        run,
        record {
          idle = q.idle;
          early = early;
          due = due;
          more = omega (arith, q.finished_same, h.more);
        },
        q.finished_same,
      )

  Runs-Held :
      (rounds : ℕ) (p : Pass C)
      → Held m num_threads p
      → (p' : Pass C) × Runs no_sims l1_of n fuel draw num_threads p rounds p'
        × Held m num_threads p'
        × (p'.num_finished_threads ≡ p.num_finished_threads)
  Runs-Held zero p h = (p, begin, h, refl)
  Runs-Held (suc rounds) p h =
      let (p1, runs, h1, same) = Runs-Held rounds p h in
      let (p2, run, h2, same') = step_round-Held p1 h1 in
      (p2, round runs (lt→ltb p1.num_finished_threads num_threads h1.more) run, h2, same' ∙ same)

  -- Without a simulator, where the next step is at most the cycle `m`, some thread is done and an operation with a
  -- time up to `m`, not 0, stands at its head, every thread has an operation at its head and is done or waits for a
  -- cycle after `m`, and not all are finished: the loop over the steps does not end. For every number of rounds it
  -- makes so many passes, none of which fails; after them as many threads are finished as before and the next step
  -- is still at most `m`, so that the loop goes on
  -- from there.
  pub step_loop-Idle :
      (rounds : ℕ) (p : Pass C)
      → AllIdle m p.threads
      → SomeEarly m p.threads
      → p.next_step ≤ m
      → p.num_finished_threads < num_threads
      → (p' : Pass C) × Runs no_sims l1_of n fuel draw num_threads p rounds p'
        × (p'.num_finished_threads ≡ p.num_finished_threads)
        × (p'.next_step ≤ m)
        × (ltb p'.num_finished_threads num_threads ≡ true)
        × ((k : ℕ)
            → step_loop no_sims l1_of n fuel draw num_threads (rounds + k) p
              ≡ step_loop no_sims l1_of n fuel draw num_threads k p')
  step_loop-Idle rounds p idle early due more =
      let (p', runs, h, same) =
        Runs-Held rounds p (record { idle = idle; early = early; due = due; more = more }) in
      (
        p',
        runs,
        same,
        h.due,
        lt→ltb p'.num_finished_threads num_threads h.more,
        λ k. Runs-step_loop no_sims l1_of n fuel draw num_threads p rounds k p' runs,
      )
