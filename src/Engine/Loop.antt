-- ===== src/Engine/Loop.antt =====
-- engine/ar_engine.cpp: the loops of Engine::exec_node_longstep over the threads that have a share, which are
-- those from thread_st to thread_end. What lies behind the first-level caches is one state, which all threads
-- share. `none` is a failure of a thread or a simulator, or the end of the fuel.
use siena_mem.Base.{
  ℕ, zero, suc, ◌+◌, Bool, ◌&&◌, Option, none, some, List, [], ◌∷◌, ltb, if◌then◌else◌, get_elem?,
  add64, word_max, ◌>>=◌,
}
use siena_mem.Context.{L1}
use siena_mem.DataNode.{DataNode, OpType}
use siena_mem.Walk.{Group}
use siena_mem.Core.{CoreGroup}
use siena_mem.Engine.{Share, init_thread_ctx}
use siena_mem.Thread.{Thread, warmup, init}
use siena_mem.Thread.Advance.{advance, init_window, event_time}

-- The threads and what they share.
pub record Machine (C : Type 0) : Type 0 where
  pub threads : List (Thread C)
  pub caches : C

-- memsim_ptr_list: how many simulators there are, and advance and get_next_event of each, which MemSim
-- declares as virtual. A simulator completes operations of the threads.
pub record Sims (C : Type 0) : Type 0 where
  pub count : ℕ
  pub advance : ℕ → ℕ → Machine C → Option (Machine C)
  pub next_event : ℕ → Machine C → Option ℕ

-- `0 < t && t < next_step ? t : next_step`
abbrev pub earlier : ℕ → ℕ → ℕ
earlier t next_step = if ltb 0 t && ltb t next_step then t else next_step

abbrev pub with_caches : {C : Type 0} → C → Thread C → Thread C
with_caches c t = record t { ctx = record t.ctx { l1 = c } }

-- Context::get_next_event
unfoldable pub get_next_event : {C : Type 0} → Bool → Thread C → Option ℕ
get_next_event mode t = do
  op ← get_elem? t.ctx.window t.win_head
  some (if mode then t.time_next_event else event_time op)

abbrev pub count_done : Bool → ℕ → ℕ
count_done done n = if done then add64 n 1 else n

-- What a pass over the threads leaves: the threads, the caches, num_finished_threads and the next step.
pub record Pass (C : Type 0) : Type 0 where
  pub threads : List (Thread C)
  pub caches : C
  pub num_finished_threads : ℕ
  pub next_step : ℕ

module _ {C : Type 0} where
  -- One pass of the warm-up over the threads from `tid` on; `lookup tid` is the first-level cache of a thread.
  unfoldable pub warm_pass :
      (ℕ → ℕ → OpType → C → Option C) → ℕ → ℕ → ℕ → List (Thread C) → C → ℕ → Option (Pass C)
  unfolding warmup
  warm_pass lookup fuel draw tid [] c finished =
      some (record { threads = []; caches = c; num_finished_threads = finished; next_step = 0 })
  warm_pass lookup fuel draw tid (t ∷ ts) c finished = do
    r ← warmup (lookup tid) fuel draw (with_caches c t)
    rest ← warm_pass lookup fuel draw (tid + 1) ts r.0.ctx.l1 (count_done r.1 finished)
    some (record rest { threads = r.0 ∷ rest.threads })

  -- `while( num_finished_threads < num_threads )` of the warm-up.
  unfoldable pub warm_loop :
      (ℕ → ℕ → OpType → C → Option C) → ℕ → ℕ → ℕ → ℕ → List (Thread C) → C → ℕ → Option (Pass C)
  unfolding warm_pass
  warm_loop lookup fuel draw num_threads zero ts c finished = none
  warm_loop lookup fuel draw num_threads (suc n) ts c finished =
      let again = (do
        p ← warm_pass lookup fuel draw 0 ts c finished
        warm_loop lookup fuel draw num_threads n p.threads p.caches p.num_finished_threads) in
      if ltb finished num_threads
      then again
      else some
          (record { threads = ts; caches = c; num_finished_threads = finished; next_step = 0 })

  -- The loop that opens the windows.
  unfoldable pub open_pass :
      (ℕ → L1 C) → ℕ → ℕ → Bool → ℕ → List (Thread C) → C → ℕ → Option (Pass C)
  unfolding init_window get_next_event
  open_pass l1_of fuel draw mode tid [] c next_step =
      some (record { threads = []; caches = c; num_finished_threads = 0; next_step = next_step })
  open_pass l1_of fuel draw mode tid (t ∷ ts) c next_step = do
    t' ← init_window (l1_of tid) fuel draw (with_caches c t)
    e ← get_next_event mode t'
    rest ← open_pass l1_of fuel draw mode (tid + 1) ts t'.ctx.l1 (earlier e next_step)
    some (record rest { threads = t' ∷ rest.threads })

  -- The pass of a step over the threads. Once all threads are finished the next step stays as it is.
  unfoldable pub step_pass :
      (ℕ → L1 C) → ℕ → ℕ → ℕ → Bool → ℕ → ℕ → ℕ → List (Thread C) → C → ℕ → ℕ → Option (Pass C)
  unfolding advance get_next_event
  step_pass l1_of n fuel draw mode num_threads now tid [] c finished next_step =
      some (record {
        threads = [];
        caches = c;
        num_finished_threads = finished;
        next_step = next_step;
      })
  step_pass l1_of n fuel draw mode num_threads now tid (t ∷ ts) c finished next_step = do
    r ← advance (l1_of tid) n fuel draw now (with_caches c t)
    let finished' = count_done r.1 finished
    next ←
        (if ltb finished' num_threads
          then (get_next_event mode r.0 >>= (λ e. some (earlier e next_step)))
          else some now)
    rest ← step_pass l1_of n fuel draw mode num_threads now (tid + 1) ts r.0.ctx.l1 finished' next
    some (record rest { threads = r.0 ∷ rest.threads })

  -- The threads that get a share, from contexts as their constructor leaves them, `fresh`.
  unfoldable pub init_threads :
      CoreGroup → List DataNode → List Group → ℕ → Thread C → List Share → Option (List (Thread C))
  unfolding init
  init_threads g nodes groups window_size fresh [] = some []
  init_threads g nodes groups window_size fresh (s ∷ ss) = do
    t ← init s.tid s.st s.stop g nodes groups window_size fresh
    ts ← init_threads g nodes groups window_size fresh ss
    some (t ∷ ts)

  module _ (sims : Sims C) where
    -- The loops over the simulators, `k` of them from `i` on: the first asks each when it is next due, the second
    -- advances each before.
    unfoldable pub ask_sims : ℕ → ℕ → Machine C → ℕ → Option ℕ
    ask_sims zero i m next_step = some next_step
    ask_sims (suc k) i m next_step = do
      e ← sims.next_event i m
      ask_sims k (i + 1) m (earlier e next_step)

    unfoldable pub advance_sims : ℕ → ℕ → ℕ → Machine C → ℕ → Option (Machine C × ℕ)
    advance_sims zero i now m next_step = some (m, next_step)
    advance_sims (suc k) i now m next_step = do
      m' ← sims.advance i now m
      e ← sims.next_event i m'
      advance_sims k (i + 1) now m' (earlier e next_step)

    -- The body of the loop over the steps.
    unfoldable pub step_round : (ℕ → L1 C) → ℕ → ℕ → ℕ → ℕ → Pass C → Option (Pass C)
    unfolding advance_sims step_pass
    step_round l1_of n fuel draw num_threads p = do
      r ←
          advance_sims sims.count 0 p.next_step (record { threads = p.threads; caches = p.caches })
            word_max
      step_pass l1_of n fuel draw (ltb 0 sims.count) num_threads p.next_step 0 r.0.threads
          r.0.caches p.num_finished_threads r.1

    -- The loop over the steps, `rounds` at most.
    unfoldable pub step_loop : (ℕ → L1 C) → ℕ → ℕ → ℕ → ℕ → ℕ → Pass C → Option (Pass C)
    unfolding step_round
    step_loop l1_of n fuel draw num_threads zero p = none
    step_loop l1_of n fuel draw num_threads (suc rounds) p =
        let again = (do
          p' ← step_round l1_of n fuel draw num_threads p
          step_loop l1_of n fuel draw num_threads rounds p') in
        if ltb p.num_finished_threads num_threads then again else some p

    -- exec_node_longstep up to the first step: the threads of a block with these nodes, groups and window size are
    -- divided, their windows opened, and the first step found.
    unfoldable pub exec_start :
        (ℕ → L1 C)
        → ℕ
        → ℕ
        → ℕ
        → ℕ
        → CoreGroup
        → List DataNode
        → List Group
        → ℕ
        → Thread C
        → C
        → Option (Pass C)
    unfolding init_thread_ctx init_threads open_pass ask_sims
    exec_start l1_of fuel draw num_threads global_control g nodes groups window_size fresh c = do
      s ← init_thread_ctx num_threads global_control
      ts ← init_threads g nodes groups window_size fresh s.shares
      p ← open_pass l1_of fuel draw (ltb 0 sims.count) 0 ts c word_max
      next ← ask_sims sims.count 0 (record { threads = p.threads; caches = p.caches }) p.next_step
      some (record p { num_finished_threads = s.num_finished_threads; next_step = next })
