-- ===== src/Thread/Retire.antt =====
-- How the head of the window of engine/ar_context.cpp retires.
use siena_mem.Base.{
  ℕ, ◌+◌, ◌-◌, ◌*◌, ◌≤◌, ◌<◌, ◌≡◌, ◌⊎◌, refl, ap, ◌∙◌, inl, inr, Option, some, arith, ltb, leb,
  if◌then◌else◌, length, get_elem?, add64, sub64, sub64-eq, word, mod?, ◌>>=◌, Bool-cases, ltb→le,
}
use siena_mem.Context.{L1, dispatch}
use siena_mem.Walk.{Walk}
use siena_mem.Thread.{Thread, Fetched, with_fetched, refill, mark_end, retire_head}
use siena_mem.Thread.Fetch.{IsResting, walk_fuel, fetched_of}
use siena_mem.Thread.Ring.{slot, slot-lt}
use siena_mem.Thread.Refill.{
  IsSteady, head_place, headless, last_place, mod?-slot, place-slot, refill-Refilled, retire_tail,
  walk_at,
}

-- What retire_head leaves before the dispatch at its end: the head is gone, `j` steps more are fetched, the
-- other operations that were in the window are as they were, and the window holds as many operations as
-- the reorder buffer, or no step is left.
pub record Retired {C : Type 0} (j : ℕ) (t : Thread C) (w : Walk) (g : Fetched) : Type 0 where
  pub walk : w ≡ walk_at (t.walk.fetched_global_step + j) t.walk
  pub load : g.win_load ≡ t.win_load - 1 + j * t.watermark
  pub bounded : g.win_load ≤ t.ib_depth
  pub window_length : length g.window ≡ t.ib_depth
  pub supplied : (w.fetched_global_step ≡ t.global_control_max) ⊎ (t.rob_depth ≤ g.win_load)
  pub kept :
      (k : ℕ)
      → k < t.win_load - 1
      → get_elem? g.window (slot t.ib_depth (slot t.ib_depth t.win_head 1) k)
        ≡ get_elem? t.ctx.window (slot t.ib_depth (slot t.ib_depth t.win_head 1) k)

supply :
    (k max rob load d mark : ℕ)
    → rob + mark ≤ d + 1
    → (k ≡ max) ⊎ (d < load + mark)
    → (k ≡ max) ⊎ (rob ≤ load)
supply k max rob load d mark h (inl e) = inl e
supply k max rob load d mark h (inr l) = inr (omega arith)

-- A thread that can retire its head.
pub record IsRunning {C : Type 0} (draw : ℕ) (t : Thread C) : Type 0 where
  pub resting : IsResting t
  pub steady : IsSteady draw t
  pub head : t.win_head < t.ib_depth
  pub some_load : 0 < t.win_load
  pub some_rob : 0 < t.rob_depth
  pub roomy : t.rob_depth + t.watermark ≤ t.ib_depth + 1
  pub control : t.walk.fetched_global_step ≤ t.global_control_max

module _ {C : Type 0} (f : L1 C) where
  headless-IsResting : (t : Thread C) → IsResting t → IsResting (headless t)
  headless-IsResting t i = record {
    at_rest = i.at_rest;
    first_group = i.first_group;
    has_groups = i.has_groups;
    few_groups = i.few_groups;
    window_length = i.window_length;
    not_empty = i.not_empty;
    small = i.small;
    load = omega (arith, i.load);
    control = i.control;
  }

  headless-IsSteady : (draw : ℕ) (t : Thread C) → IsSteady draw t → IsSteady draw (headless t)
  headless-IsSteady draw t s = record { step = s.step; some_op = s.some_op; fits = s.fits }

  -- The end of retire_head, as it is written.
  abbrev after_refill : Thread C → Option (Thread C)
  after_refill t = do
    ctx ←
        if leb t.rob_depth t.win_load
        then (do
          last ← mod? (sub64 (add64 t.win_head t.rob_depth) 1) t.ib_depth
          dispatch f last t.ctx)
        else some t.ctx
    some (mark_end (record t { ctx = ctx }))

  after_refill_lem :
      (t : Thread C)
      → t.win_head < t.ib_depth
      → t.ib_depth + t.ib_depth < word
      → t.win_load ≤ t.ib_depth
      → 0 < t.rob_depth
      → after_refill t ≡ retire_tail f t
  after_refill_lem t h b le pos = elim (Bool-cases (leb t.rob_depth t.win_load)) [
    | inr e ↦ rw e refl
    | inl e ↦
        let full : t.rob_depth ≤ t.win_load = ground arith in
        let last : sub64 (add64 t.win_head t.rob_depth) 1 ≡ add64 t.win_head (t.rob_depth - 1) =
          last_place t.win_head t.rob_depth pos (omega arith) in
        rw (e, last, mod?-slot t.ib_depth t.win_head (t.rob_depth - 1) h (omega arith) b) refl
  ]

  -- retire_head after the head is gone, as it is written.
  abbrev after_head : ℕ → ℕ → ℕ → Thread C → Option (Thread C)
  after_head n fuel draw t = do
    t2 ←
        if ltb t.win_load t.rob_depth
        then (do start ← mod? (add64 t.win_head t.win_load) t.ib_depth; refill n fuel draw start t)
        else some t
    after_refill t2

  retire_head-after_head :
      (n fuel draw : ℕ) (t : Thread C)
      → IsRunning draw t
      → retire_head f n fuel draw t ≡ after_head n fuel draw (headless t)
  unfolding retire_head
  retire_head-after_head n fuel draw t r =
      let d = t.ib_depth in
      let i = r.resting in
      let less : sub64 t.win_load 1 ≡ t.win_load - 1 =
        sub64-eq t.win_load 1 r.some_load (omega (arith, i.load, i.small)) in
      ap (λ h. after_head n fuel draw (record t { win_head = h; win_load = sub64 t.win_load 1 }))
        (head_place d t.win_head r.head (omega (arith, i.small)))
      ∙ ap (λ l. after_head n fuel draw (record t { win_head = slot d t.win_head 1; win_load = l }))
          less

  -- With enough fuel, a thread that can retire its head does so: what is left is the dispatch, if the
  -- window is full enough, of the operation that comes into the reorder buffer, and the test for the end.
  pub retire_head-Retired :
      (n fuel draw : ℕ) (t : Thread C)
      → IsRunning draw t
      → walk_fuel t ≤ fuel
      → t.global_control_max < t.walk.fetched_global_step + n
      → (j : ℕ) × (w : Walk) × (g : Fetched) × (retire_head f n fuel draw t
          ≡ retire_tail f (with_fetched w g (headless t)))
        × Retired j t w g
  retire_head-Retired n fuel draw t r enough more =
      let i = headless-IsResting t r.resting in
      let small = r.resting.small in
      let head = slot-lt t.ib_depth t.win_head 1 r.head (omega (arith, r.resting.not_empty)) in
      let begin = retire_head-after_head n fuel draw t r in
      elim (Bool-cases (ltb (t.win_load - 1) t.rob_depth)) [
        | inr e ↦ (
          0,
          t.walk,
          fetched_of 0 (headless t),
          begin ∙ rw e (after_refill_lem (headless t) head small i.load r.some_rob),
          record {
            walk = ap (λ k. walk_at k t.walk) (omega arith);
            load = omega arith;
            bounded = i.load;
            window_length = i.window_length;
            supplied = inr (ltb→le (t.win_load - 1) t.rob_depth e);
            kept = λ k l. refl;
          },
        )
        | inl e ↦
            let t1 = headless t in
            let start = slot t.ib_depth t1.win_head t1.win_load in
            let (j, w, g, run, q) =
              refill-Refilled n fuel draw start t1 i (headless-IsSteady draw t r.steady) enough
                r.control more head (place-slot t.ib_depth t1.win_head t1.win_load head i.load) in
            (
              j,
              w,
              g,
              begin
                  ∙ rw (e, mod?-slot t.ib_depth t1.win_head t1.win_load head i.load small, run)
                      (after_refill_lem (with_fetched w g t1) head small q.bounded r.some_rob),
              record {
                walk = q.walk;
                load = q.load;
                bounded = q.bounded;
                window_length = q.window_length;
                supplied =
                    supply (w.fetched_global_step) t.global_control_max t.rob_depth g.win_load
                      t.ib_depth t.watermark r.roomy q.full;
                kept = q.kept;
              },
            )
      ]
