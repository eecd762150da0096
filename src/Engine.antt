-- ===== src/Engine.antt =====
-- engine/ar_engine.cpp: the division of the steps of a block among the threads.
pub mod Shares
pub mod Loop
pub mod Count
pub mod Finish
pub mod Warm
pub mod Stuck
use siena_mem.Base.{
  ℕ, zero, suc, ◌+◌, ◌/◌, ◌%◌, Bool, true, false, ◌||◌, Option, none, some, List, [], ◌∷◌, ◌++◌,
  ltb, leb, ◌==◌, if◌then◌else◌, add64, sub64, mul64,
}

-- The steps [st, end) that Context::init gives a thread.
pub record Share : Type 0 where
  pub tid : ℕ
  pub st : ℕ
  pub stop : ℕ

-- What init_thread_ctx leaves: the shares in the order of the threads, the threads on which mark_done
-- was called, num_finished_threads and thread_end.
pub record Threads : Type 0 where
  pub shares : List Share
  pub marked : List ℕ
  pub num_finished_threads : ℕ
  pub thread_end : ℕ

-- The loop over tt = tid, ..., thread_end: each round marks `tid`.
unfoldable pub mark_rest : ℕ → ℕ → Threads → Threads
mark_rest zero tid t = t
mark_rest (suc n) tid t = mark_rest n tid (record t {
  num_finished_threads = add64 t.num_finished_threads 1;
  marked = t.marked ++ tid ∷ [];
})

-- The loop over tid, with `n` threads left: thread_end is at tid + n - 1 until a round changes it.
unfoldable pub init_shares : ℕ → ℕ → ℕ → ℕ → Threads → Threads
unfolding mark_rest
init_shares zero workload global_control tid t = t
init_shares (suc n) workload global_control tid t =
    let st = mul64 tid workload in
    let stop = add64 st workload in
    let share : Share = record {
      tid = tid;
      st = st;
      stop = if ltb global_control stop then global_control else stop;
    } in
    let rest =
      init_shares n workload global_control (add64 tid 1)
        (record t { shares = t.shares ++ share ∷ [] }) in
    if leb global_control st
    then record (mark_rest (suc n) tid t) { thread_end = sub64 tid 1 }
    else rest

-- The steps of a thread: global_control divided by the number of threads, rounded up.
unfoldable pub workload : ℕ → ℕ → ℕ
workload global_control num_threads =
    let q = global_control / num_threads in
    if global_control % num_threads == 0 then q else add64 q 1

-- init_thread_ctx; `none` is a division by 0 or, with no steps, a loop that does not end: thread_end is then
-- 0 - 1, the largest word.
unfoldable pub init_thread_ctx : ℕ → ℕ → Option Threads
unfolding init_shares workload
init_thread_ctx num_threads global_control =
    if num_threads == 0 || global_control == 0
    then none
    else some (
        init_shares num_threads (workload global_control num_threads) global_control 0 (record {
          shares = [];
          marked = [];
          num_finished_threads = 0;
          thread_end = sub64 num_threads 1;
        }))
