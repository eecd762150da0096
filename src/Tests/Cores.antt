-- ===== src/Tests/Cores.antt =====
-- Eight cores on four caches: engine/ar_core.cpp on concrete inputs.
use siena_mem.Base.{ℕ, add64, ◌/◌, ◌%◌, ◌<◌, ◌≡◌, refl, some, List, arith, length, get_elem?}
use siena_mem.Core.{CoreGroup, init_group, connect_cache, link_core_ctx, set_alu, set_ld}
use siena_mem.Core.Links.{link_core_ctx-connect_cache}

-- The issue width follows each of the widths that it is made of.
ipc_after : (set_ld 4 (set_alu 7 (init_group 8))).ipc ≡ 12
unfolding set_ld set_alu init_group add64
ipc_after = refl

link_core_ctx-connect_cache_example :
    (g : CoreGroup) × (l : List ℕ) × (connect_cache 4 (init_group 8) ≡ some g)
    × (link_core_ctx 10 g ≡ some l)
    × (length l ≡ 10)
    × (get_elem? l 9 ≡ some (9 % 8 / (8 / 4)))
    × (9 % 8 / (8 / 4) < 4)
link_core_ctx-connect_cache_example =
    link_core_ctx-connect_cache 8 4 10 9 (omega arith) (omega arith) (omega arith) (omega arith)
      (omega arith)
