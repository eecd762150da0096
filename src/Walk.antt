-- ===== src/Walk.antt =====
-- engine/ar_context.cpp, the walk of Context::fetch_global_step and fetch_global_step_warmup through the groups
-- of a block, one global step at a time. What a visit of a node does is an argument; `none` is a failure
-- of a visit, an index out of range, or the end of the fuel.
pub mod Order
pub mod Relate
use siena_mem.Base.{
  ℕ, zero, suc, ◌+◌, ◌-◌, Bool, true, false, Option, none, some, List, ◌==◌, if◌then◌else◌, length,
  get_elem?, set, add64, mul64, ◌>>=◌,
}

-- GRPCTRL_T
pub record Group : Type 0 where
  pub st_node : ℕ
  pub end_node : ℕ
  pub curr_group_step : ℕ
  pub group_steps : ℕ
  pub num_ops : ℕ

-- nodegroup_list, curr_group_id and fetched_global_step of a Context.
pub record Walk : Type 0 where
  pub nodegroup_list : List Group
  pub curr_group_id : ℕ
  pub fetched_global_step : ℕ

-- local_step of a group.
abbrev pub local_step : Group → Walk → ℕ
local_step g w = add64 (mul64 w.fetched_global_step g.group_steps) g.curr_group_step

-- The number of rounds of `for (node_id = st_node; node_id <= end_node; node_id++)`.
abbrev pub node_count : Group → ℕ
node_count g = g.end_node + 1 - g.st_node

-- Stepping forward to the next node: the walk after it and `done`.
unfoldable pub step_forward : Group → Walk → Walk × Bool
step_forward g w =
    let i = w.curr_group_id in
    let steps = add64 g.curr_group_step 1 in
    let ended = set w.nodegroup_list i (record g { curr_group_step = 0 }) in
    let going = set w.nodegroup_list i (record g { curr_group_step = steps }) in
    let next = add64 i 1 in
    if steps == g.group_steps
    then if next == length w.nodegroup_list
      then (
        record w {
          nodegroup_list = ended;
          curr_group_id = 0;
          fetched_global_step = add64 w.fetched_global_step 1;
        },
        true,
      )
      else (record w { nodegroup_list = ended; curr_group_id = next }, false)
    else (record w { nodegroup_list = going }, false)

-- A visit of a node: the walk as it stands, the group, the node's id, and the state that it changes.
abbrev pub Visit : Type 0 → Type 0
Visit S = Walk → Group → ℕ → S → Option S

module _ {S : Type 0} (visit : Visit S) where
  -- The visits of `n` nodes from `node_id` on.
  unfoldable pub visit_nodes : Walk → Group → ℕ → ℕ → S → Option S
  visit_nodes w g zero node_id s = some s
  visit_nodes w g (suc n) node_id s = do
    s' ← visit w g node_id s
    visit_nodes w g n (node_id + 1) s'

  -- The loop `while( !done )`.
  unfoldable pub walk_step : ℕ → Walk → S → Option (Walk × S)
  unfolding step_forward visit_nodes
  walk_step zero w s = none
  walk_step (suc fuel) w s = do
    g ← get_elem? w.nodegroup_list w.curr_group_id
    s' ← visit_nodes w g (node_count g) g.st_node s
    let next = step_forward g w
    let rest = walk_step fuel next.0 s'
    (if next.1 then some (next.0, s') else rest)
