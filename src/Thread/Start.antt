-- ===== src/Thread/Start.antt =====
-- The first window of a thread of engine/ar_context.cpp.
use siena_mem.Base.{
  ℕ, zero, suc, ◌+◌, ◌-◌, ◌*◌, ◌/◌, ◌≤◌, ◌<◌, ◌≡◌, ◌⊎◌, refl, ap, ◌∙◌, inl, inr, Option, some, List,
  [], ◌∷◌, arith, ltb, if◌then◌else◌, length, sub64, sub64-eq, mul64, mul64-eq, word, word_max,
  ◌>>=◌, Bool-cases, ltb→lt, ltb→le, eq→==, ne→==,
}
use native.Mathlib.Nat.{div-add-mod, mod-lt, mul_comm, mul-le-mul_right}
use siena_mem.Context.{L1, Op}
use siena_mem.Walk.Order.{AtRest}
use siena_mem.Thread.{Thread}
use siena_mem.Thread.Fetch.{IsResting, walk_fuel, step_ops}
use siena_mem.Thread.Refill.{IsSteady, walk_at}
use siena_mem.Thread.Advance.{
  fetch_steps, dispatch_from, init_steps, init_window, rob_load, sized, resize,
}
use siena_mem.Thread.Unloaded.{with_load, fetch_steps-unloaded}
use siena_mem.Thread.Fill.{Filled, Holds, fetch_steps-Filled, first_place}

length-resize : (n : ℕ) (w : List Op) → length (resize n w) ≡ n
unfolding resize
length-resize zero w = refl
length-resize (suc n) [] = ap suc (length-resize n [])
length-resize (suc n) (op ∷ w) = ap suc (length-resize n w)

-- The quotient times the divisor, and how far that is from the number.
div_bounds : (a m : ℕ) → 0 < m → (a / m * m ≤ a) × (a < a / m * m + m)
div_bounds a m h =
    let e = div-add-mod a m in
    let r = mod-lt a h in
    let c = mul_comm (a / m) m in (omega (arith, e, c), omega (arith, e, c, r))

abbrev at_least_two : ℕ → ℕ
at_least_two q = if ltb q 2 then 2 else q

abbrev at_most : ℕ → ℕ → ℕ
at_most max n = if ltb n max then n else max

two_or_more :
    (q rob mark : ℕ)
    → 4 * rob < q * mark + mark
    → (2 ≤ at_least_two q) × (rob + mark ≤ at_least_two q * mark + 1)
two_or_more q rob mark h = elim (Bool-cases (ltb q 2)) [
  | inl e ↦
      let small = ltb→lt q 2 e in
      let twice : q * mark ≤ 1 * mark = mul-le-mul_right mark (omega arith) in
      rw e (omega arith, omega (arith, twice))
  | inr e ↦
      let large = ltb→le q 2 e in
      let twice : 2 * mark ≤ q * mark = mul-le-mul_right mark large in
      rw e (large, omega (arith, twice))
]

at_most_lem :
    (n rob mark max : ℕ)
    → 0 < n
    → 0 < max
    → rob + mark ≤ n * mark + 1
    → (0 < at_most max n)
      × (at_most max n ≤ max)
      × ((at_most max n ≡ max) ⊎ (rob + mark ≤ at_most max n * mark + 1))
at_most_lem n rob mark max h m r = elim (Bool-cases (ltb n max)) [
  | inl e ↦ rw e (h, (let l = ltb→lt n max e in omega arith), inr r)
  | inr e ↦ rw e (m, omega arith, inl refl)
]

init_steps_lem :
    (rob mark max : ℕ)
    → 0 < mark
    → 0 < max
    → (n : ℕ) × (init_steps (4 * rob) mark max ≡ some n)
      × (0 < n)
      × (n ≤ max)
      × ((n ≡ max) ⊎ (rob + mark ≤ n * mark + 1))
unfolding init_steps
init_steps_lem rob mark max h m =
    let n = at_least_two (4 * rob / mark) in
    let (low, high) = div_bounds (4 * rob) mark h in
    let (two, fits) = two_or_more (4 * rob / mark) rob mark high in
    let (pos, le, room) = at_most_lem n rob mark max (omega arith) m fits in
    (at_most max n, rw (ne→== mark 0 (omega arith)) refl, pos, le, room)

-- A thread as init leaves it, with global steps to fetch, in each of which the generators give as many operations as
-- the window size of the block says. What win_load is does not matter: nothing has set it.
pub record CanStart {C : Type 0} (draw : ℕ) (t : Thread C) : Type 0 where
  pub depth : t.ib_depth ≡ 4 * t.rob_depth
  pub steps_left : t.walk.fetched_global_step < t.global_control_max
  pub at_rest : AtRest t.walk
  pub first_group : t.walk.curr_group_id ≡ 0
  pub has_groups : 0 < length t.walk.nodegroup_list
  pub few_groups : length t.walk.nodegroup_list < word
  pub control : t.global_control_max < word
  pub some_op : 0 < t.watermark
  pub step :
      (k : ℕ)
      → k < t.global_control_max
      → step_ops draw (record t { walk = walk_at k t.walk }) ≡ some t.watermark

module _ {C : Type 0} (f : L1 C) where
  -- The part of init_window after the assertion.
  abbrev pub start_tail : ℕ → Thread C → Option (Thread C)
  start_tail ib_depth t = do
    let t2 : Thread C = record t { win_load = ib_depth; win_head = 0 }
    d ← dispatch_from f (rob_load t2) 0 word_max t2.ctx
    some (record t2 { ctx = d.0; time_next_event = d.1 })

  init_window_lem :
      (fuel draw n d : ℕ) (t t' : Thread C)
      → init_steps t.ib_depth t.watermark (sub64 t.global_control_max t.walk.fetched_global_step)
        ≡ some n
      → mul64 n t.watermark ≡ d
      → fetch_steps n fuel draw 0 (sized d t) ≡ some (t', d)
      → init_window f fuel draw t ≡ start_tail d t'
  unfolding init_window
  init_window_lem fuel draw n d t t' num depth run = rw (num, depth, run, eq→== d d refl) refl

  -- A thread as init leaves it, whatever its win_load is, with a global step left, whose walk is before its
  -- first group, and in each of whose global steps the generators give exactly `watermark` operations, not 0, with
  -- enough fuel for a walk through the groups and all operations fewer than 2 ^ 63: its first window holds some
  -- number of global steps, all that there are or so many that after each further refill the reorder buffer can
  -- be full; its operations are not yet dispatched, and each knows its place; and the position after the last one
  -- is the end of the window, as init_window asserts. What is left is to dispatch the operations of the reorder
  -- buffer.
  pub init_window-Holds :
      (fuel draw : ℕ) (t : Thread C)
      → CanStart draw t
      → walk_fuel t ≤ fuel
      → 2 * (t.global_control_max * t.watermark) < word
      → (n : ℕ) × (t' : Thread C) × (init_window f fuel draw t ≡ start_tail (n * t.watermark) t')
        × Holds (n * t.watermark) t'.ctx.window
        × (length t'.ctx.window ≡ n * t.watermark)
        × (t'.walk.fetched_global_step ≡ t.walk.fetched_global_step + n)
        × (0 < n)
        × ((t'.walk.fetched_global_step ≡ t.global_control_max)
            ⊎ (t.rob_depth + t.watermark ≤ n * t.watermark + 1))
  init_window-Holds fuel draw t c enough small =
      let max = t.global_control_max - t.walk.fetched_global_step in
      let (n, num, some_steps, le, room) =
        init_steps_lem t.rob_depth t.watermark max c.some_op (omega (arith, c.steps_left)) in
      let most : n * t.watermark ≤ t.global_control_max * t.watermark =
        mul-le-mul_right t.watermark (omega arith) in
      let least : 1 * t.watermark ≤ n * t.watermark = mul-le-mul_right t.watermark some_steps in
      let d = n * t.watermark in
      let t1 = sized d (with_load 0 t) in
      let resting : IsResting t1 = record {
        at_rest = c.at_rest;
        first_group = c.first_group;
        has_groups = c.has_groups;
        few_groups = c.few_groups;
        window_length = length-resize d t.ctx.window;
        not_empty = omega (arith, least, c.some_op);
        small = omega (arith, most, small);
        load = omega arith;
        control = c.control;
      } in
      let steady : IsSteady draw t1 = record {
        step = c.step;
        some_op = c.some_op;
        fits = omega (arith, least);
      } in
      let begun : Filled t1 0 = record {
        holds = λ i lt. absurd (omega (arith, lt));
        at = first_place d 0 (omega (arith, least, c.some_op)) refl;
        in_window = inl (refl, refl);
      } in
      let (t0, run0, holds, len, count) =
        fetch_steps-Filled n fuel draw 0 t1 resting steady enough (omega arith) (omega arith)
          begun in
      let (l, run) = fetch_steps-unloaded n fuel draw 0 t.win_load t1 t0 d run0 in
      let t' = with_load l t0 in
      let depth : mul64 n t.watermark ≡ d = mul64-eq n t.watermark (omega (arith, most, small)) in
      let left : sub64 t.global_control_max t.walk.fetched_global_step ≡ max =
        sub64-eq t.global_control_max t.walk.fetched_global_step (omega (arith, c.steps_left))
          c.control in
      (
        n,
        t',
        init_window_lem fuel draw n d t t'
            (ap
                (λ b.
                  init_steps b t.watermark (sub64 t.global_control_max t.walk.fetched_global_step))
                c.depth
              ∙ ap (init_steps (4 * t.rob_depth) t.watermark) left
              ∙ num)
            depth run,
        holds,
        len,
        count,
        some_steps,
        elim room [ inl e ↦ inl (omega (arith, count, e, c.steps_left)) | inr r ↦ inr r ],
      )
