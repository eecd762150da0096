-- ===== src/Thread/Refill.antt =====
-- The steps that retire_head of engine/ar_context.cpp fetches.
use siena_mem.Base.{
  ℕ, zero, suc, ◌+◌, ◌-◌, ◌*◌, ◌%◌, ◌≤◌, ◌<◌, ◌≡◌, ◌≢◌, ◌⊎◌, refl, sym, ap, ◌∙◌, inl, inr, true,
  false, ◌&&◌, Option, some, arith, ◌==◌, ltb, leb, if◌then◌else◌, length, get_elem?, add64,
  add64-eq, sub64, sub64-eq, word, mod?, ◌>>=◌, Bool-cases, ltb→lt, ltb→le, ne→==,
}
use native.Mathlib.Nat.{mod-eq_of_lt, mod-eq-sub-mod}
use siena_mem.Context.{L1, dispatch}
use siena_mem.Walk.{Walk}
use siena_mem.Walk.Order.{ended, visit_groups}
use siena_mem.Thread.{Thread, Fetched, with_fetched, refill, mark_end}
use siena_mem.Thread.Fetch.{
  IsResting, walk_fuel, step_ops, count_node, fetched_of, fetch_global_step-Wrote,
}
use siena_mem.Thread.Ring.{slot, place, Wrote}

-- The walk with `k` global steps fetched.
abbrev pub walk_at : ℕ → Walk → Walk
walk_at k w = record w { fetched_global_step = k }

-- Each global step has as many operations as the watermark says, which fit into the window.
pub record IsSteady {C : Type 0} (draw : ℕ) (t : Thread C) : Type 0 where
  pub step :
      (k : ℕ)
      → k < t.global_control_max
      → step_ops draw (record t { walk = walk_at k t.walk }) ≡ some t.watermark
  pub some_op : 0 < t.watermark
  pub fits : t.watermark ≤ t.ib_depth

-- What a refill leaves: `j` steps more are fetched, the operations that were in the window from the head on
-- are as they were, and there is no room for a further step, or no step is left.
pub record Refilled {C : Type 0} (j : ℕ) (t : Thread C) (w : Walk) (f : Fetched) : Type 0 where
  pub walk : w ≡ walk_at (t.walk.fetched_global_step + j) t.walk
  pub load : f.win_load ≡ t.win_load + j * t.watermark
  pub bounded : f.win_load ≤ t.ib_depth
  pub window_length : length f.window ≡ t.ib_depth
  pub full :
      (w.fetched_global_step ≡ t.global_control_max) ⊎ (t.ib_depth < f.win_load + t.watermark)
  pub kept :
      (k : ℕ)
      → k < t.win_load
      → get_elem? f.window (slot t.ib_depth t.win_head k)
        ≡ get_elem? t.ctx.window (slot t.ib_depth t.win_head k)

slot-slot : (d p k l : ℕ) → p < d → k + l ≤ d → slot d (slot d p k) l ≡ slot d p (k + l)
slot-slot d p k l h a = ground arith

slot-apart : (d p k l m : ℕ) → p < d → k < l → l + m < d → slot d (slot d p l) m ≢ slot d p k
slot-apart d p k l m h a b = ground arith

mod-slot : (d p k : ℕ) → p < d → k ≤ d → (p + k) % d ≡ slot d p k
mod-slot d p k h a = elim (Bool-cases (ltb (p + k) d)) [
  | inl e ↦ rw e (mod-eq_of_lt (ltb→lt (p + k) d e))
  | inr e ↦ rw e (mod-eq-sub-mod (ltb→le (p + k) d e) ∙ mod-eq_of_lt (omega arith))
]

pub mod?-slot : (d p k : ℕ) → p < d → k ≤ d → d + d < word → mod? (add64 p k) d ≡ some (slot d p k)
mod?-slot d p k h a b =
    rw (ne→== d 0 (omega arith), add64-eq p k (omega arith)) (ap some (mod-slot d p k h a))

pub head_place :
    (d h : ℕ) → h < d → d < word → (if add64 h 1 == d then 0 else add64 h 1) ≡ slot d h 1
head_place d h l b = rw (add64-eq h 1 (omega arith)) (ground arith)

pub last_place : (h rob : ℕ) → 0 < rob → h + rob < word → sub64 (add64 h rob) 1 ≡ add64 h (rob - 1)
last_place h rob p b =
    rw (add64-eq h rob b, add64-eq h (rob - 1) (omega arith), sub64-eq (h + rob) 1 (omega arith) b)
      (omega arith)

pub place-slot : (d p k : ℕ) → p < d → k ≤ d → place d (slot d p k) ≡ slot d p k
place-slot d p k h a = ground arith

-- What the test of the loop says.
stopped :
    (d load mark k max room : ℕ)
    → mark ≤ d
    → k ≤ max
    → room ≡ d - mark
    → (leb load room && ltb k max) ≡ false
    → (k ≡ max) ⊎ (d < load + mark)
stopped d load mark k max room h l r e = ground arith

going :
    (d load mark k max room : ℕ)
    → mark ≤ d
    → room ≡ d - mark
    → (leb load room && ltb k max) ≡ true
    → (load + mark ≤ d) × (k < max)
going d load mark k max room h r e = ground arith

module _ {C : Type 0} where
  pub with_fetched-IsResting :
      (t : Thread C) (f : Fetched)
      → IsResting t
      → length f.window ≡ t.ib_depth
      → f.win_load ≤ t.ib_depth
      → IsResting (with_fetched (ended t.walk) f t)
  with_fetched-IsResting t f i l b = record {
    at_rest = i.at_rest;
    first_group = refl;
    has_groups = i.has_groups;
    few_groups = i.few_groups;
    window_length = l;
    not_empty = i.not_empty;
    small = i.small;
    load = b;
    control = i.control;
  }

  pub with_fetched-IsSteady :
      (draw : ℕ) (t : Thread C) (f : Fetched)
      → IsResting t
      → IsSteady draw t
      → IsSteady draw (with_fetched (ended t.walk) f t)
  with_fetched-IsSteady draw t f i s = record {
    step = λ k l.
        ap
          (λ c.
            visit_groups (count_node draw t.datanode_list)
              (record t.walk { curr_group_id = c; fetched_global_step = k })
              (length t.walk.nodegroup_list) 0 0)
          (sym i.first_group)
        ∙ s.step k l;
    some_op = s.some_op;
    fits = s.fits;
  }

  Refilled-next :
      (start : ℕ) (t : Thread C) (f : Fetched) (j : ℕ) (w : Walk) (f' : Fetched)
      → IsResting t
      → t.win_head < t.ib_depth
      → t.win_load + t.watermark ≤ t.ib_depth
      → place t.ib_depth start ≡ slot t.ib_depth t.win_head t.win_load
      → add64 t.walk.fetched_global_step 1 ≡ t.walk.fetched_global_step + 1
      → Wrote t.ib_depth (place t.ib_depth start) t.watermark (fetched_of start t) f
      → Refilled j (with_fetched (ended t.walk) f t) w f'
      → Refilled (j + 1) t w f'
  Refilled-next start t f j w f' i h space at one wrote r =
      let load : f.win_load ≡ t.win_load + t.watermark = wrote.load in
      let steps = t.walk.fetched_global_step in
      let count : add64 steps 1 + j ≡ steps + (j + 1) = omega (arith, one) in
      record {
        walk =
            r.walk
            ∙ ap (λ k. walk_at k (ended t.walk)) count
            ∙ ap (λ c. record t.walk { curr_group_id = c; fetched_global_step = steps + (j + 1) })
                (sym i.first_group);
        load = r.load ∙ omega (arith, load);
        bounded = r.bounded;
        window_length = r.window_length;
        full = r.full;
        kept = λ k lt.
            r.kept k (omega (arith, load))
            ∙ wrote.kept (slot t.ib_depth t.win_head k) (λ l lt' q.
              slot-apart t.ib_depth t.win_head k t.win_load l h lt (omega arith)
                (sym (ap (λ p. slot t.ib_depth p l) at) ∙ q));
      }

  pub refill-Refilled :
      (n fuel draw start : ℕ) (t : Thread C)
      → IsResting t
      → IsSteady draw t
      → walk_fuel t ≤ fuel
      → t.walk.fetched_global_step ≤ t.global_control_max
      → t.global_control_max < t.walk.fetched_global_step + n
      → t.win_head < t.ib_depth
      → place t.ib_depth start ≡ slot t.ib_depth t.win_head t.win_load
      → (j : ℕ) × (w : Walk) × (f : Fetched) × (refill n fuel draw start t
          ≡ some (with_fetched w f t))
        × Refilled j t w f
  unfolding refill
  refill-Refilled zero fuel draw start t i s enough le more h at = absurd (omega arith)
  refill-Refilled (suc n) fuel draw start t i s enough le more h at =
      let room : sub64 t.ib_depth t.watermark ≡ t.ib_depth - t.watermark =
        sub64-eq t.ib_depth t.watermark s.fits (omega (arith, i.small)) in
      elim (Bool-cases (
        leb t.win_load (sub64 t.ib_depth t.watermark)
        && ltb t.walk.fetched_global_step t.global_control_max)) [
          | inr stop ↦ (
            0,
            t.walk,
            fetched_of 0 t,
            rw stop refl,
            record {
              walk = ap (λ k. walk_at k t.walk) (omega arith);
              load = omega arith;
              bounded = i.load;
              window_length = i.window_length;
              full =
                  stopped t.ib_depth t.win_load t.watermark t.walk.fetched_global_step
                    t.global_control_max (sub64 t.ib_depth t.watermark) s.fits le room stop;
              kept = λ k l. refl;
            },
          )
          | inl go ↦
              let (space, left) =
                going t.ib_depth t.win_load t.watermark t.walk.fetched_global_step
                  t.global_control_max (sub64 t.ib_depth t.watermark) s.fits room go in
              let (f, run, wrote, len) =
                fetch_global_step-Wrote fuel draw start t.watermark t i enough left
                  (s.step t.walk.fetched_global_step left) s.fits in
              let load : f.win_load ≡ t.win_load + t.watermark = wrote.load in
              let t1 = with_fetched (ended t.walk) f t in
              let one : add64 t.walk.fetched_global_step 1 ≡ t.walk.fetched_global_step + 1 =
                add64-eq t.walk.fetched_global_step 1 (omega (arith, i.control)) in
              let resting = with_fetched-IsResting t f i len (omega (arith, load)) in
              let steady = with_fetched-IsSteady draw t f i s in
              let here : place t.ib_depth f.pos ≡ slot t.ib_depth t.win_head f.win_load =
                wrote.next_place
                ∙ ap (λ p. slot t.ib_depth p t.watermark) at
                ∙ slot-slot t.ib_depth t.win_head t.win_load t.watermark h space
                ∙ ap (slot t.ib_depth t.win_head) (sym load) in
              let (j, w, f', run', r) =
                refill-Refilled n fuel draw f.pos t1 resting steady enough
                  (omega (arith, one, left)) (omega (arith, one, more)) h here in
              (
                j + 1,
                w,
                f',
                rw (go, run) run',
                Refilled-next start t f j w f' i h space at one wrote r,
              )
        ]

  -- The part of retire_head after the refill.
  abbrev pub retire_tail : L1 C → Thread C → Option (Thread C)
  retire_tail f t = do
    ctx ←
        if leb t.rob_depth t.win_load
        then dispatch f (slot t.ib_depth t.win_head (t.rob_depth - 1)) t.ctx
        else some t.ctx
    some (mark_end (record t { ctx = ctx }))

  -- A thread whose head is gone.
  abbrev pub headless : Thread C → Thread C
  headless t = record t { win_head = slot t.ib_depth t.win_head 1; win_load = t.win_load - 1 }
