-- ===== src/Tests/Engines.antt =====
-- The loops over the threads of engine/ar_engine.cpp on concrete inputs.
use siena_mem.Base.{
  ℕ, ◌+◌, ◌≤◌, ◌<◌, ◌≡◌, ◌↔◌, refl, inl, inr, true, Option, some, List, [], ◌∷◌, arith, length,
  mul64, add64, sub64, sym, ltb,
}
use siena_mem.DataNode.{OpType}
use mathlib.Core.Path.{subst}
use siena_mem.DataNode.Generators.{gen_addr, gen_stride, cache_lines, next_lines}
use siena_mem.Core.{CoreGroup}
use siena_mem.Context.{completed}
use siena_mem.Thread.{Thread, warm_node, lookup_all}
use siena_mem.Thread.Advance.{zero_op}
use siena_mem.Walk.{Group, visit_nodes}
use siena_mem.Walk.Order.{visit_steps, visit_groups}
use siena_mem.Engine.Loop.{step_round, Pass, exec_start, step_loop, warm_loop}
use siena_mem.Engine.Count.{start, again, undone}
use siena_mem.Engine.Finish.{AllDone, exec_start-Steps}
use siena_mem.Engine.Warm.{AllWithin, IsWarm, Defined, warm_loop-Within}
use siena_mem.Engine.Stuck.{no_sims, Runs, step_loop-Idle}
use siena_mem.Tests.Threads.{node, group, context, thread, one_cycle, first_walk-AtRest}

-- A thread that is done: all places of its window hold operations that are retired, the first at cycle 3.
abbrev retired : Thread ℕ
retired = record thread {
  ctx = record context {
    window =
        record zero_op { status = completed; complete = 3 }
        ∷ record zero_op { status = completed; complete = 9 }
        ∷ [];
  };
  win_head = 0;
  win_load = 0;
  is_done = true;
}

-- A thread that waits for cycle 20.
abbrev waiting : Thread ℕ
waiting = record thread { time_next_event = 20 }

abbrev held : Pass ℕ
held = record {
  threads = retired ∷ waiting ∷ [];
  caches = 0;
  num_finished_threads = 1;
  next_step = 9;
}

step_loop-Idle_example :
    (p' : Pass ℕ) × Runs no_sims (λ tid. one_cycle) 4 1 0 2 held 1000 p'
    × (p'.num_finished_threads ≡ 1)
    × (p'.next_step ≤ 9)
    × (ltb p'.num_finished_threads 2 ≡ true)
    × ((k : ℕ)
        → step_loop no_sims (λ tid. one_cycle) 4 1 0 2 (1000 + k) held
          ≡ step_loop no_sims (λ tid. one_cycle) 4 1 0 2 k p')
step_loop-Idle_example =
    step_loop-Idle (λ tid. one_cycle) 4 1 0 2 9 1000 held
      (
        ((record zero_op { status = completed; complete = 3 }, refl), inl refl),
        (
          (
            (zero_op, refl),
            inr (record {
              not_done = refl;
              no_complete = refl;
              no_loads = refl;
              no_stores = refl;
              later = omega arith;
            }),
          ),
          tt,
        ),
      )
      (inl
        (record zero_op { status = completed; complete = 3 }, refl, refl, omega arith, omega arith))
      (omega arith) (omega arith)

-- Lookups that count.
abbrev tally : ℕ → ℕ → OpType → ℕ → Option ℕ
tally tid addr type n = some (n + 1)

-- Threads between two steps, with three and no steps left.
abbrev warming : Thread ℕ
warming = record thread { walk = record thread.walk { fetched_global_step = 2 } }

abbrev warmed_up : Thread ℕ
warmed_up = record thread { walk = record thread.walk { fetched_global_step = 5 } }

still-IsWarm :
    (k : ℕ)
    → k ≤ 5
    → IsWarm
        (node ∷ [])
        (group ∷ [])
        (record thread { walk = record thread.walk { fetched_global_step = k } })
still-IsWarm k h = record {
  nodes_same = refl;
  groups_same = refl;
  first_group = refl;
  in_share = h;
  small = omega arith;
}

tally-Defined : Defined tally 0 (node ∷ []) (group ∷ [])
unfolding visit_groups visit_steps visit_nodes warm_node lookup_all gen_addr gen_stride cache_lines
    next_lines
tally-Defined tid w c e =
    subst
      (λ (gs : List Group).
        (c' : ℕ) × (visit_groups (warm_node (tally tid) 0 (node ∷ []))
            (record w { nodegroup_list = gs }) (length gs) 0 c
          ≡ some c'))
      (sym e) (c + 1 + 1, refl)

warm_loop-Within_example :
    (p : Pass ℕ) × (warm_loop tally 1 0 1 4 (warming ∷ warmed_up ∷ []) 0 0 ≡ some p)
    × (p.num_finished_threads ≡ 1)
    × (length p.threads ≡ 2)
    × AllWithin 0 p.threads
warm_loop-Within_example =
    warm_loop-Within tally 1 0 (node ∷ []) (group ∷ []) tally-Defined first_walk-AtRest
      (omega arith) (omega arith) (omega arith) 1 3 (warming ∷ warmed_up ∷ []) 0 0
      (still-IsWarm 2 (omega arith), (still-IsWarm 5 (omega arith), tt))
      (omega arith, (omega arith, tt)) refl (omega arith)

abbrev cores : CoreGroup
cores = record {
  rob_depth = 1;
  lfb_depth = 10;
  frequency = 1000;
  ipc = 7;
  alu = 4;
  ld = 2;
  st = 1;
  active_periods = [];
  cycles_prev = 0;
  core_list = [];
}

-- A context as its constructor leaves it.
abbrev fresh : Thread ℕ
fresh = record thread { ctx = record context { window = [] }; win_load = 0; win_head = 0 }

begun :
    (p : Pass ℕ) × (exec_start no_sims
        (λ tid. one_cycle)
        1
        0
        2
        4
        cores
        (node ∷ [])
        (group ∷ [])
        2
        fresh
        0
      ≡ some p)
unfolding exec_start mul64 add64 sub64 gen_addr gen_stride cache_lines
begun = (_, refl)

none_finished : begun.0.num_finished_threads < 2
unfolding exec_start mul64 add64 sub64 gen_addr gen_stride cache_lines begun
none_finished = omega arith

-- The first step of the loop.
stepped : (p : Pass ℕ) × (step_round no_sims (λ tid. one_cycle) 10 1 0 2 begun.0 ≡ some p)
unfolding exec_start step_round mul64 add64 sub64 gen_addr gen_stride cache_lines begun
stepped = (_, refl)

exec_start-Steps_example :
    (stepped.0.num_finished_threads + undone stepped.0.threads ≡ 2)
    × ((2 ≤ stepped.0.num_finished_threads) ↔ AllDone stepped.0.threads)
exec_start-Steps_example =
    exec_start-Steps no_sims (λ tid. one_cycle) 10 1 0 2 4 cores (node ∷ []) (group ∷ []) 2 fresh 0
      begun.0 stepped.0 (λ i now m. refl) (omega arith) (omega arith) (omega arith) begun.1
      (again start none_finished stepped.1)
