-- ===== src/Tests/Threads.antt =====
-- A thread with one node of two loads per step: engine/ar_context.cpp on concrete inputs.
use siena_mem.Base.{
  ℕ, zero, suc, ◌+◌, ◌*◌, ◌≤◌, ◌<◌, ◌≡◌, ◌⊎◌, refl, true, false, some, [], ◌∷◌, arith, length,
  ◌>>=◌, ◌%◌, word,
}
use mathlib.Core.Path.{subst}
use siena_mem.DataNode.{DataNode, OpType, AccessPattern, Generator}
use siena_mem.DataNode.Generators.{gen_addr, gen_stride, cache_lines, next_lines}
use siena_mem.Context.{Context, L1}
use siena_mem.Walk.{Group, Walk, Visit, walk_step, visit_nodes}
use siena_mem.Walk.Order.{AtRest, ended, visit_steps, visit_groups, walk_step-visit_groups}
use siena_mem.ExecBlock.Offsets.{Offsets, prev_ops, init_offsets}
use siena_mem.ExecBlock.Window.{first_walk, count_ops, init_offsets-window_size}
use siena_mem.Thread.{Thread, Fetched, with_fetched, fetch_global_step, retire_head, next_offsets}
use siena_mem.Thread.Fetch.{IsResting, step_ops, fetched_of, fetch_global_step-Wrote}
use siena_mem.Thread.Ring.{place, Wrote}
use siena_mem.Thread.Retire.{IsRunning, Retired, retire_head-Retired}
use siena_mem.Thread.Refill.{walk_at, headless, retire_tail}
use siena_mem.Thread.Advance.{zero_op, advance, init_window}
use siena_mem.Thread.Start.{start_tail, init_window-Holds}
use siena_mem.Thread.Fill.{Holds}
use siena_mem.Thread.Events.{retried, Scans, advance-branches}

abbrev pub node : DataNode
node = record {
  op_type = OpType.load;
  name = 1;
  count = 8;
  num_prev_ops = 0;
  addr_st = 4096;
  addr_end = 4608;
  size = 512;
  num_dims = 1;
  dim = 4 ∷ [];
  element_size = 128;
  element_num = 4;
  mem_ptr = 0;
  access_count = 8;
  access_size = 128;
  num_cacheline_per_access = 2;
  access_pattern = AccessPattern.stride;
  comp = 0;
  dependency = [];
  prev = [];
  next = [];
  pattern_generator = some Generator.stride_generator;
  local_stride = 128;
  dist_func = 0;
  diff0 = 0;
  diff1 = 0;
  diff2 = 0;
  tile_dim_x = 0;
  tile_dim_y = 0;
  tile_dim_z = 0;
  tile_dir = 0;
  cropped_dim_x = 0;
  cropped_dim_y = 0;
  cropped_dim_z = 0;
  local_tile_control = 0;
  group_id = 0;
  offset = 0;
  ops_step = 2;
}

abbrev pub group : Group
group = record { st_node = 0; end_node = 0; curr_group_step = 0; group_steps = 1; num_ops = 2 }

abbrev walk : Walk
walk = record { nodegroup_list = group ∷ []; curr_group_id = 0; fetched_global_step = 2 }

walk-AtRest : AtRest walk
walk-AtRest zero g e =
    let same : group ≡ g = cc e in
    subst (λ (x : Group). (x.curr_group_step ≡ 0) × (0 < x.group_steps) × (x.group_steps < word))
      same (refl, omega arith, omega arith)
walk-AtRest (suc i) g e = absurd (cc e)

abbrev pub context : Context ℕ
context = record {
  tid = 0;
  window = zero_op ∷ zero_op ∷ zero_op ∷ zero_op ∷ [];
  lfb_depth = 10;
  alu = 4;
  ld = 2;
  st = 1;
  avail_alu = 4;
  avail_ld = 2;
  avail_st = 1;
  t_cpu = 6;
  t_alu = 1;
  t_ld = 1;
  t_st = 1;
  has_complete_op = false;
  l1 = 0;
  pending_ld_list = [];
  pending_st_list = [];
}

-- Three operations from the place 1 on, and three steps left.
abbrev pub thread : Thread ℕ
thread = record {
  ctx = context;
  datanode_list = node ∷ [];
  walk = walk;
  global_control_max = 5;
  win_head = 1;
  win_load = 3;
  time_next_event = 0;
  rob_depth = 3;
  ib_depth = 4;
  watermark = 2;
  is_done = false;
}

abbrev pub one_cycle : L1 ℕ
one_cycle = record {
  load = λ r n. (suc n, r.dispatch + 1);
  store = λ r n. (suc n, r.dispatch + 1);
  num_pending_cl = λ n. 0;
}

two_ops : (k : ℕ) → step_ops 0 (record thread { walk = walk_at k walk }) ≡ some 2
unfolding visit_groups visit_steps visit_nodes gen_addr gen_stride next_offsets cache_lines
    next_lines
two_ops k = refl

resting : (l : ℕ) → l ≤ 4 → IsResting (record thread { win_load = l })
resting l h = record {
  at_rest = walk-AtRest;
  first_group = refl;
  has_groups = omega arith;
  few_groups = omega arith;
  window_length = refl;
  not_empty = omega arith;
  small = omega arith;
  load = h;
  control = omega arith;
}

running : IsRunning 0 thread
running = record {
  resting = resting 3 (omega arith);
  steady = record { step = λ k l. two_ops k; some_op = omega arith; fits = omega arith };
  head = omega arith;
  some_load = omega arith;
  some_rob = omega arith;
  roomy = omega arith;
  control = omega arith;
}

-- A visit that counts.
abbrev tally : Visit ℕ
tally w g id n = some (n + 1)

walk_step-visit_groups_example :
    walk_step tally 1 walk 7 ≡ (visit_groups tally walk 1 0 7 >>= (λ s'. some (ended walk, s')))
walk_step-visit_groups_example =
    walk_step-visit_groups tally 1 walk 7 walk-AtRest refl (omega arith) (omega arith) (omega arith)

fetch_global_step-Wrote_example :
    (f : Fetched) × (fetch_global_step 1 0 3 (record thread { win_load = 2 })
      ≡ some (with_fetched (ended walk) f (record thread { win_load = 2 }), f.pos))
    × Wrote 4 (place 4 3) 2 (fetched_of 3 (record thread { win_load = 2 })) f
    × (length f.window ≡ 4)
fetch_global_step-Wrote_example =
    fetch_global_step-Wrote 1 0 3 2 (record thread { win_load = 2 }) (resting 2 (omega arith))
      (omega arith) (omega arith) (two_ops 2) (omega arith)

retire_head-Retired_example :
    (j : ℕ) × (w : Walk) × (g : Fetched) × (retire_head one_cycle 4 1 0 thread
      ≡ retire_tail one_cycle (with_fetched w g (headless thread)))
    × Retired j thread w g
retire_head-Retired_example =
    retire_head-Retired one_cycle 4 1 0 thread running (omega arith) (omega arith)

advance-branches_example :
    ((false ≡ true) × (advance one_cycle 4 1 0 9 thread ≡ some (thread, false)))
    ⊎ (((false ≡ false)
          × ((retried one_cycle 9 thread).ctx.has_complete_op ≡ false)
          × (9 < 0)
          × (advance one_cycle 4 1 0 9 thread ≡ some (retried one_cycle 9 thread, false)))
        ⊎ ((false ≡ false)
            × (((retried one_cycle 9 thread).ctx.has_complete_op ≡ true) ⊎ (0 ≤ 9))
            × Scans one_cycle 4 1 0 9 thread))
advance-branches_example =
    advance-branches one_cycle 4 1 0 9 thread refl (omega arith) (omega arith)

-- A thread as init leaves it; its win_load is any number.
abbrev new_thread : Thread ℕ
new_thread = record thread {
  ctx = record context { window = [] };
  win_head = 0;
  win_load = 77;
  ib_depth = 12;
}

init_window-Holds_example :
    (n : ℕ) × (t' : Thread ℕ) × (init_window one_cycle 1 0 new_thread
      ≡ start_tail one_cycle (n * 2) t')
    × Holds (n * 2) t'.ctx.window
    × (length t'.ctx.window ≡ n * 2)
    × (t'.walk.fetched_global_step ≡ 2 + n)
    × (0 < n)
    × ((t'.walk.fetched_global_step ≡ 5) ⊎ (3 + 2 ≤ n * 2 + 1))
init_window-Holds_example =
    init_window-Holds one_cycle 1 0 new_thread
      (record {
        depth = refl;
        steps_left = omega arith;
        at_rest = walk-AtRest;
        first_group = refl;
        has_groups = omega arith;
        few_groups = omega arith;
        control = omega arith;
        some_op = omega arith;
        step = λ k l. two_ops k;
      })
      (omega arith) (omega arith)

-- The walk of the group of the node.
pub first_walk-AtRest : AtRest (first_walk (group ∷ []))
first_walk-AtRest zero g e = walk-AtRest zero g e
first_walk-AtRest (suc i) g e = absurd (cc e)

one_window : visit_groups (count_ops 0 (node ∷ [])) (first_walk (group ∷ [])) 1 0 0 ≡ some 2
unfolding visit_groups visit_steps visit_nodes gen_addr gen_stride next_offsets cache_lines
    next_lines prev_ops
one_window = refl

init_offsets-window_size_example :
    (s : Offsets) × (init_offsets 1 0 5 (group ∷ []) (0 ∷ []) (node ∷ []) ≡ some s)
    × (s.window_size ≡ 2 % word)
init_offsets-window_size_example =
    init_offsets-window_size 1 0 5 2 (group ∷ []) (0 ∷ []) (node ∷ []) first_walk-AtRest
      (omega arith) (omega arith) (omega arith) one_window
