-- ===== src/Core.antt =====
-- engine/ar_core.cpp and ar_core.h: groups of cores, their parameters, and how they are connected to caches
-- and threads. A cache is known by its place in its list. `none` is a failed assertion, a division by 0 or an
-- index out of range.
pub mod Links
use siena_mem.Base.{
  ℕ, zero, suc, ◌/◌, ◌%◌, Option, none, some, List, [], ◌∷◌, ◌++◌, leb, ◌==◌, if◌then◌else◌, length,
  get_elem?, add64, mod?, div?, ◌>>=◌,
}

pub record Core : Type 0 where
  pub rob_depth : ℕ
  pub lfb_depth : ℕ
  pub frequency : ℕ
  pub ipc : ℕ
  pub alu : ℕ
  pub ld : ℕ
  pub st : ℕ
  pub l1 : Option ℕ

pub record CoreGroup : Type 0 where
  pub rob_depth : ℕ
  pub lfb_depth : ℕ
  pub frequency : ℕ
  pub ipc : ℕ
  pub alu : ℕ
  pub ld : ℕ
  pub st : ℕ
  pub active_periods : List ℕ
  pub cycles_prev : ℕ
  pub core_list : List Core

-- Core::Core
unfoldable pub init_core : CoreGroup → Core
init_core g = record {
  rob_depth = g.rob_depth;
  lfb_depth = g.lfb_depth;
  frequency = g.frequency;
  ipc = g.ipc;
  alu = g.alu;
  ld = g.ld;
  st = g.st;
  l1 = none;
}

unfoldable pub init_cores : ℕ → CoreGroup → List Core
unfolding init_core
init_cores zero g = []
init_cores (suc n) g = init_core g ∷ init_cores n g

-- CoreGroup::CoreGroup, with the defaults of ar_core.h.
unfoldable pub init_group : ℕ → CoreGroup
unfolding init_cores
init_group num_cores =
    let g : CoreGroup = record {
      rob_depth = 128;
      lfb_depth = 10;
      frequency = 2000000000;
      ipc = 6;
      alu = 3;
      ld = 2;
      st = 1;
      active_periods = [];
      cycles_prev = 0;
      core_list = [];
    } in
    record g { core_list = init_cores num_cores g }

-- set_alu, set_ld and set_st: the derived ipc follows.
abbrev pub update_ipc : CoreGroup → CoreGroup
update_ipc g = record g { ipc = add64 (add64 g.alu g.ld) g.st }

unfoldable pub set_alu : ℕ → CoreGroup → CoreGroup
set_alu n g = update_ipc (record g { alu = n })

unfoldable pub set_ld : ℕ → CoreGroup → CoreGroup
set_ld n g = update_ipc (record g { ld = n })

unfoldable pub set_st : ℕ → CoreGroup → CoreGroup
set_st n g = update_ipc (record g { st = n })

unfoldable pub record_start : CoreGroup → CoreGroup
record_start g = record g { active_periods = g.active_periods ++ g.cycles_prev ∷ [] }

unfoldable pub record_end : ℕ → CoreGroup → CoreGroup
record_end elapsed_cycles g =
    let cycles = add64 g.cycles_prev elapsed_cycles in
    record g { cycles_prev = cycles; active_periods = g.active_periods ++ cycles ∷ [] }

-- The loop of connect_cache over the cores, from `core_id` on.
unfoldable pub connect_from : ℕ → ℕ → List Core → Option (List Core)
connect_from stride core_id [] = some []
connect_from stride core_id (c ∷ cs) = do
  i ← div? core_id stride
  rest ← connect_from stride (add64 core_id 1) cs
  some (record c { l1 = some i } ∷ rest)

-- connect_cache; the flag that connect_l1 sets in the cache is left out.
unfoldable pub connect_cache : ℕ → CoreGroup → Option CoreGroup
unfolding connect_from
connect_cache num_caches g = do
  let num_cores = length g.core_list
  r ← mod? num_cores num_caches
  stride ← div? num_cores num_caches
  cs ← (if r == 0 then connect_from stride 0 g.core_list else none)
  some (record g { core_list = cs })

-- The loop of link_core_ctx over the contexts, `n` of them left: the first-level caches that they get.
unfoldable pub link_from : List Core → ℕ → ℕ → Option (List ℕ)
link_from cores zero core_id = some []
link_from cores (suc n) core_id = do
  c ← get_elem? cores core_id
  l1 ← c.l1
  let next = add64 core_id 1
  rest ← link_from cores n (if leb (length cores) next then 0 else next)
  some (l1 ∷ rest)

-- link_core_ctx
unfoldable pub link_core_ctx : ℕ → CoreGroup → Option (List ℕ)
unfolding link_from
link_core_ctx num_ctx g = link_from g.core_list num_ctx 0
