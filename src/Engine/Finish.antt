-- ===== src/Engine/Finish.antt =====
-- When the loop over the steps in Engine::exec_node_longstep of engine/ar_engine.cpp ends.
use siena_mem.Base.{
  ◌↔◌, ℕ, zero, suc, ◌+◌, ◌≤◌, ◌<◌, ◌≡◌, refl, sym, ap, ◌∙◌, Bool, ◌&&◌, true, false, none, some,
  List, [], ◌∷◌, arith, ltb, if◌then◌else◌, ◌==◌, length, get_elem?, word, word_max, sub64, mul64,
  Ok, Ok-bind, Ok-then, Ok-if, Ok-some, some_inj,
}
use mathlib.Core.Path.{subst}
use siena_mem.DataNode.{DataNode}
use siena_mem.Walk.{Group, walk_step}
use siena_mem.Core.{CoreGroup}
use siena_mem.Context.{L1}
use siena_mem.Thread.{Thread, Fetched, fetch_node, fetch_global_step, init}
use siena_mem.Thread.Advance.{init_window, init_steps, fetch_steps, dispatch_from, sized, rob_load}
use siena_mem.Engine.{Share, init_thread_ctx}
use siena_mem.Engine.Shares.{init_thread_ctx-Tiles}
use siena_mem.Engine.Loop.{
  Sims, Pass, with_caches, get_next_event, earlier, open_pass, ask_sims, init_threads, exec_start,
  step_round,
}
use siena_mem.Engine.Count.{
  marks, unset, undone, Counted, KeepsMarks, Steps, start, again, step_round-Counted,
}

-- A thread that is done as often as another.
abbrev SameMark : {C : Type 0} → Thread C → Thread C → Type 0
SameMark t t' = t'.is_done ≡ t.is_done

module _ {C : Type 0} where
  fetch_global_step-SameMark :
      (fuel draw pos : ℕ) (t : Thread C)
      → Ok (λ r. SameMark t r.0) (fetch_global_step fuel draw pos t)
  unfolding fetch_global_step
  fetch_global_step-SameMark fuel draw pos t =
      let start : Fetched = record { window = t.ctx.window; win_load = t.win_load; pos = pos } in
      Ok-if (λ r. SameMark t r.0)
        (ltb t.walk.fetched_global_step t.global_control_max && t.walk.curr_group_id == 0) _ _
        (λ q.
          Ok-bind (λ r. SameMark t r.0)
            (walk_step (fetch_node draw t.ib_depth t.datanode_list) fuel t.walk start) _
            (λ r. refl))
        (λ q. tt)

  fetch_steps-SameMark :
      (n fuel draw pos : ℕ) (t : Thread C) (b : Bool)
      → t.is_done ≡ b
      → Ok (λ r. r.0.is_done ≡ b) (fetch_steps n fuel draw pos t)
  unfolding fetch_steps
  fetch_steps-SameMark zero fuel draw pos t b h = h
  fetch_steps-SameMark (suc n) fuel draw pos t b h =
      Ok-then (λ r. r.0.is_done ≡ b) (λ r. SameMark t r.0) (fetch_global_step fuel draw pos t) _
        (fetch_global_step-SameMark fuel draw pos t)
        (λ r same. fetch_steps-SameMark n fuel draw r.1 r.0 b (same ∙ h))

  module _ (f : L1 C) where
    init_window-SameMark :
        (fuel draw : ℕ) (t : Thread C) → Ok (SameMark t) (init_window f fuel draw t)
    unfolding init_window
    init_window-SameMark fuel draw t =
        Ok-bind (SameMark t)
          (init_steps t.ib_depth t.watermark
            (sub64 t.global_control_max t.walk.fetched_global_step))
          _
          (λ num_steps.
            let t1 = sized (mul64 num_steps t.watermark) t in
            Ok-then (SameMark t) (λ r. r.0.is_done ≡ t.is_done)
              (fetch_steps num_steps fuel draw 0 t1) _
              (fetch_steps-SameMark num_steps fuel draw 0 t1 t.is_done refl)
              (λ r same.
                let t2 : Thread C = record r.0 { win_load = t1.ib_depth; win_head = 0 } in
                Ok-bind (SameMark t)
                  (if r.1 == t1.ib_depth
                    then dispatch_from f (rob_load t2) 0 word_max t2.ctx
                    else none)
                  _ (λ d. same)))

  open_pass-marks :
      (l1_of : ℕ → L1 C) (fuel draw : ℕ) (mode : Bool) (tid : ℕ) (ts : List (Thread C)) (c : C)
      (next_step : ℕ)
      → Ok (λ p. marks p.threads ≡ marks ts) (open_pass l1_of fuel draw mode tid ts c next_step)
  unfolding open_pass
  open_pass-marks l1_of fuel draw mode tid [] c next_step = refl
  open_pass-marks l1_of fuel draw mode tid (t ∷ ts) c next_step =
      let P : Pass C → Type 0 = λ p. marks p.threads ≡ marks (t ∷ ts) in
      Ok-then P (SameMark t) (init_window (l1_of tid) fuel draw (with_caches c t)) _
        (init_window-SameMark (l1_of tid) fuel draw (with_caches c t))
        (λ t' same. Ok-bind P (get_next_event mode t') _ (λ e.
          Ok-then P (λ p. marks p.threads ≡ marks ts)
            (open_pass l1_of fuel draw mode (tid + 1) ts t'.ctx.l1 (earlier e next_step)) _
            (open_pass-marks l1_of fuel draw mode (tid + 1) ts t'.ctx.l1 (earlier e next_step))
            (λ rest others. cc)))

  init-undone :
      (tid st stop : ℕ) (g : CoreGroup) (nodes : List DataNode) (groups : List Group) (size : ℕ)
      (fresh : Thread C)
      → Ok (λ t. t.is_done ≡ false) (init tid st stop g nodes groups size fresh)
  unfolding init
  init-undone tid st stop g nodes groups size fresh =
      Ok-if (λ t. t.is_done ≡ false) fresh.is_done _ _ (λ d. tt) (λ d. d)

  init_threads-undone :
      (g : CoreGroup) (nodes : List DataNode) (groups : List Group) (size : ℕ) (fresh : Thread C)
      (ss : List Share)
      → Ok (λ ts. undone ts ≡ length ss) (init_threads g nodes groups size fresh ss)
  unfolding init_threads
  init_threads-undone g nodes groups size fresh [] = refl
  init_threads-undone g nodes groups size fresh (s ∷ ss) =
      let P : List (Thread C) → Type 0 = λ ts. undone ts ≡ suc (length ss) in
      Ok-then P (λ t. t.is_done ≡ false) (init s.tid s.st s.stop g nodes groups size fresh) _
        (init-undone s.tid s.st s.stop g nodes groups size fresh)
        (λ t fresh_mark.
          Ok-then P (λ ts. undone ts ≡ length ss) (init_threads g nodes groups size fresh ss) _
            (init_threads-undone g nodes groups size fresh ss) (λ ts rest. ground arith))

-- Every one of these threads is done.
abbrev pub AllDone : {C : Type 0} → List (Thread C) → Type 0
AllDone {C} ts = (i : ℕ) (t : Thread C) → get_elem? ts i ≡ some t → t.is_done ≡ true

AllDone-undone : {C : Type 0} (ts : List (Thread C)) → undone ts ≡ 0 → AllDone ts
AllDone-undone [] z i t e = absurd (cc e)
AllDone-undone (x ∷ ts) z zero t e =
    let same : x ≡ t = some_inj x t e in
    let here : x.is_done ≡ true = ground arith in ap (λ (y : Thread _). y.is_done) (sym same) ∙ here
AllDone-undone (x ∷ ts) z (suc i) t e = AllDone-undone ts (omega arith) i t e

undone-AllDone : {C : Type 0} (ts : List (Thread C)) → AllDone ts → undone ts ≡ 0
undone-AllDone [] all = refl
undone-AllDone (x ∷ ts) all =
    let here = all 0 x refl in
    let rest = undone-AllDone ts (λ i t e. all (suc i) t e) in ground arith

module _ {C : Type 0} (sims : Sims C) (l1_of : ℕ → L1 C) where
  exec_start-Counted :
      (fuel draw n global_control : ℕ) (g : CoreGroup) (nodes : List DataNode) (groups : List Group)
      (size : ℕ) (fresh : Thread C) (c : C)
      → 0 < n
      → 0 < global_control
      → global_control + n < word
      → Ok
          (Counted n)
          (exec_start sims l1_of fuel draw n global_control g nodes groups size fresh c)
  unfolding exec_start
  exec_start-Counted fuel draw n global_control g nodes groups size fresh c pn pg small =
      let (t, divided, tiles, all) = init_thread_ctx-Tiles n global_control pn pg small in
      Ok-then (Counted n) (λ s. s.num_finished_threads + length s.shares ≡ n)
        (init_thread_ctx n global_control) _
        (subst (Ok (λ s. s.num_finished_threads + length s.shares ≡ n)) (sym divided) all)
        (λ s shared.
          Ok-then (Counted n) (λ ts. undone ts ≡ length s.shares)
            (init_threads g nodes groups size fresh s.shares) _
            (init_threads-undone g nodes groups size fresh s.shares)
            (λ ts fresh_marks.
              Ok-then (Counted n) (λ p. marks p.threads ≡ marks ts)
                (open_pass l1_of fuel draw (ltb 0 sims.count) 0 ts c word_max) _
                (open_pass-marks l1_of fuel draw (ltb 0 sims.count) 0 ts c word_max)
                (λ p same.
                  Ok-bind (Counted n)
                    (ask_sims sims sims.count 0 (record { threads = p.threads; caches = p.caches })
                      p.next_step)
                    _
                    (λ next.
                      ap (λ x. s.num_finished_threads + unset x) same
                      ∙ ap (λ x. s.num_finished_threads + x) fresh_marks
                      ∙ shared))))

  Steps-Counted :
      (n fuel draw num_threads k : ℕ) (p₀ p : Pass C)
      → KeepsMarks sims
      → k < word
      → Counted k p₀
      → Steps sims l1_of n fuel draw num_threads p₀ p
      → Counted k p
  Steps-Counted n fuel draw num_threads k p₀ p keeps small e start = e
  Steps-Counted n fuel draw num_threads k p₀ p keeps small e (again {p = q} s more run) =
      Ok-some (Counted k) (step_round sims l1_of n fuel draw num_threads q) p
        (step_round-Counted sims keeps l1_of n fuel draw num_threads q k
          (Steps-Counted n fuel draw num_threads k p₀ q keeps small e s) small)
        run

  -- With some threads and some steps, fewer than 2 ^ 64 of both together, and simulators that finish no thread:
  -- from the start of exec_node_longstep on, in every pass that the loop over the steps comes to,
  -- num_finished_threads and the threads that are not done add up to the number of threads; so the loop's test fails
  -- exactly when all threads with a share are done.
  pub exec_start-Steps :
      (n fuel draw num_threads global_control : ℕ) (g : CoreGroup) (nodes : List DataNode)
      (groups : List Group) (size : ℕ) (fresh : Thread C) (c : C) (p₀ p : Pass C)
      → KeepsMarks sims
      → 0 < num_threads
      → 0 < global_control
      → global_control + num_threads < word
      → exec_start sims l1_of fuel draw num_threads global_control g nodes groups size fresh c
        ≡ some p₀
      → Steps sims l1_of n fuel draw num_threads p₀ p
      → (p.num_finished_threads + undone p.threads ≡ num_threads)
        × ((num_threads ≤ p.num_finished_threads) ↔ AllDone p.threads)
  exec_start-Steps n fuel draw num_threads global_control g nodes groups size fresh c p₀ p keeps pn
        pg small begun s =
      let first =
        Ok-some (Counted num_threads)
          (exec_start sims l1_of fuel draw num_threads global_control g nodes groups size fresh c)
          p₀
          (exec_start-Counted fuel draw num_threads global_control g nodes groups size fresh c pn pg
            small)
          begun in
      let here =
        Steps-Counted n fuel draw num_threads num_threads p₀ p keeps (omega arith) first s in
      (
        here,
        (
          λ h. AllDone-undone p.threads (omega (arith, here)),
          λ all. omega (arith, here, undone-AllDone p.threads all),
        ),
      )
