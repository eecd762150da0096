-- ===== src/Thread/Fill.antt =====
-- The loop of init_window of engine/ar_context.cpp that fetches.
use siena_mem.Base.{
  ℕ, zero, suc, ◌+◌, ◌-◌, ◌*◌, ◌≤◌, ◌<◌, ◌≡◌, ◌⊎◌, sym, ap, ◌∙◌, inl, inr, some, List, arith, ltb,
  length, get_elem?, add64, add64-eq, Bool-cases, ltb→lt, ltb→le,
}
use mathlib.Core.Path.{subst}
use siena_mem.Context.{Op, issued}
use siena_mem.Walk.Order.{ended}
use siena_mem.Thread.{Thread, Fetched, with_fetched}
use siena_mem.Thread.Fetch.{IsResting, walk_fuel, fetched_of, fetch_global_step-Wrote}
use siena_mem.Thread.Ring.{slot, place, Wrote}
use siena_mem.Thread.Refill.{IsSteady, with_fetched-IsResting, with_fetched-IsSteady}
use siena_mem.Thread.Advance.{fetch_steps}

pub first_place : (d l : ℕ) → 0 < d → l ≡ 0 → place d 0 ≡ slot d 0 l
first_place d l h e = ground arith

-- Every place before `l` holds an operation that is not yet issued to a port and knows its place.
abbrev pub Holds : ℕ → List Op → Type 0
Holds l w =
    (i : ℕ) → i < l → (op : Op) × (get_elem? w i ≡ some op) × (op.pos ≡ i) × (op.status ≡ issued)

-- The window is filled up to the position at which the next step is written.
pub record Filled {C : Type 0} (t : Thread C) (pos : ℕ) : Type 0 where
  pub holds : Holds t.win_load t.ctx.window
  pub at : place t.ib_depth pos ≡ slot t.ib_depth 0 t.win_load
  pub in_window : ((t.win_load ≡ 0) × (pos ≡ 0)) ⊎ ((0 < pos) × (pos ≤ t.ib_depth))

slot_zero : (d l : ℕ) → l < d → slot d 0 l ≡ l
slot_zero d l h = ground arith

slot_low : (d l k : ℕ) → l + k < d → slot d l k ≡ l + k
slot_low d l k h = ground arith

slot_sum : (d l k : ℕ) → l + k ≤ d → slot d l k ≡ slot d 0 (l + k)
slot_sum d l k h = ground arith

later :
    (m pos d l : ℕ)
    → 0 < m
    → (m ≡ 0) ⊎ ((0 < pos) × (pos ≤ d))
    → ((l ≡ 0) × (pos ≡ 0)) ⊎ ((0 < pos) × (pos ≤ d))
later m pos d l h (inl e) = absurd (omega arith)
later m pos d l h (inr e) = inr e

at_end :
    (d pos : ℕ)
    → 0 < d
    → (((d ≡ 0) × (pos ≡ 0)) ⊎ ((0 < pos) × (pos ≤ d)))
    → place d pos ≡ slot d 0 d
    → pos ≡ d
at_end d pos h w e = ground arith

module _ {C : Type 0} where
  Filled-next :
      (t : Thread C) (pos : ℕ) (f : Fetched)
      → 0 < t.watermark
      → Filled t pos
      → t.win_load + t.watermark ≤ t.ib_depth
      → Wrote t.ib_depth (place t.ib_depth pos) t.watermark (fetched_of pos t) f
      → Filled (with_fetched (ended t.walk) f t) f.pos
  Filled-next t pos f some_op l space w =
      let d = t.ib_depth in
      let here : place d pos ≡ t.win_load = l.at ∙ slot_zero d t.win_load (omega arith) in
      let w' : Wrote d t.win_load t.watermark (fetched_of pos t) f =
        subst (λ p. Wrote d p t.watermark (fetched_of pos t) f) here w in
      let load : f.win_load ≡ t.win_load + t.watermark = w.load in
      let low : (k : ℕ) → k < t.watermark → slot d t.win_load k ≡ t.win_load + k =
        λ k h. slot_low d t.win_load k (omega arith) in
      record {
        holds = λ i lt. elim (Bool-cases (ltb i t.win_load)) [
          | inl e ↦
              let before = ltb→lt i t.win_load e in
              let (op, found, own, st) = l.holds i before in
              (op, w'.kept i (λ k h q. let same = low k h in omega (arith, q)) ∙ found, own, st)
          | inr e ↦
              let after = ltb→le i t.win_load e in
              let k = i - t.win_load in
              let small : k < t.watermark = omega (arith, load) in
              let (op, found, own, st) = w'.written k small in
              let same : slot d t.win_load k ≡ i = low k small ∙ omega arith in
              (op, ap (get_elem? f.window) (sym same) ∙ found, own ∙ same, st)
        ];
        at = w'.next_place ∙ slot_sum d t.win_load t.watermark space ∙ ap (slot d 0) (sym load);
        in_window = later t.watermark f.pos d f.win_load some_op w'.in_window;
      }

  ended_at :
      (t : Thread C) (pos : ℕ)
      → IsResting t
      → Filled t pos
      → t.win_load ≡ t.ib_depth
      → pos ≡ t.ib_depth
  ended_at t pos i l full =
      at_end t.ib_depth pos i.not_empty
        (subst (λ k. ((k ≡ 0) × (pos ≡ 0)) ⊎ ((0 < pos) × (pos ≤ t.ib_depth))) full l.in_window)
        (l.at ∙ ap (slot t.ib_depth 0) full)

  pub fetch_steps-Filled :
      (n fuel draw pos : ℕ) (t : Thread C)
      → IsResting t
      → IsSteady draw t
      → walk_fuel t ≤ fuel
      → t.walk.fetched_global_step + n ≤ t.global_control_max
      → t.win_load + n * t.watermark ≡ t.ib_depth
      → Filled t pos
      → (t' : Thread C) × (fetch_steps n fuel draw pos t ≡ some (t', t.ib_depth))
        × Holds t.ib_depth t'.ctx.window
        × (length t'.ctx.window ≡ t.ib_depth)
        × (t'.walk.fetched_global_step ≡ t.walk.fetched_global_step + n)
  unfolding fetch_steps
  fetch_steps-Filled zero fuel draw pos t i s enough le all l =
      let full : t.win_load ≡ t.ib_depth = omega arith in
      (
        t,
        ap (λ p. some (t, p)) (ended_at t pos i l full),
        subst (λ k. Holds k t.ctx.window) full l.holds,
        i.window_length,
        omega arith,
      )
  fetch_steps-Filled (suc n) fuel draw pos t i s enough le all l =
      let steps = t.walk.fetched_global_step in
      let space : t.win_load + t.watermark ≤ t.ib_depth = omega (arith, all) in
      let (f, run, wrote, len) =
        fetch_global_step-Wrote fuel draw pos t.watermark t i enough (omega arith)
          (s.step steps (omega arith)) s.fits in
      let load : f.win_load ≡ t.win_load + t.watermark = wrote.load in
      let one : add64 steps 1 ≡ steps + 1 = add64-eq steps 1 (omega (arith, i.control)) in
      let (t', run', holds, len', count) =
        fetch_steps-Filled n fuel draw f.pos (with_fetched (ended t.walk) f t)
          (with_fetched-IsResting t f i len (omega (arith, load)))
          (with_fetched-IsSteady draw t f i s) enough (omega (arith, one))
          (omega (arith, load, all)) (Filled-next t pos f s.some_op l space wrote) in
      (t', rw run run', holds, len', omega (arith, count, one))
