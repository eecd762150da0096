-- ===== src/Thread/Events.antt =====
-- What Context::advance of engine/ar_context.cpp does on each of its branches, and the time of the next event that it
-- leaves.
use siena_mem.Base.{
  ℕ, zero, suc, ◌+◌, ◌≤◌, ◌<◌, ◌≡◌, ◌⊎◌, refl, sym, ap, ◌∙◌, inl, inr, ◌&&◌, not, true, false,
  Option, none, some, arith, ltb, word_max, ltb→lt, ltb→le, ◌>>=◌, Ok-some, Bool-cases,
  Option-cases, if◌then◌else◌, length, get_elem?, get_elem?-of_lt,
}
use mathlib.Core.Path.{subst}
use siena_mem.Context.{Op, L1, Context}
use siena_mem.Thread.{Thread}
use siena_mem.Thread.Ring.{slot, place}
use siena_mem.Thread.Advance.{
  event_time, next_event, rob_load, retry, scan, advance, advance_window,
}
use siena_mem.Thread.Shape.{Shape, Shape-self, retry-Shape}
use siena_mem.Thread.Steady.{Steady, scan-Steady}

-- Of `best` and the times after `now` of the `n` operations from the place `p` on, `e` is the earliest.
pub record IsEarliest {C : Type 0} (n p best : ℕ) (t : Thread C) (e : ℕ) : Type 0 where
  pub bound : e ≤ best
  pub least :
      (k : ℕ) (op : Op)
      → k < n
      → get_elem? t.ctx.window (slot t.ib_depth p k) ≡ some op
      → (event_time op ≤ t.ctx.t_cpu) ⊎ (e ≤ event_time op)
  pub attained :
      (e ≡ best)
      ⊎ ((k : ℕ) × (op : Op) × (k < n)
          × (get_elem? t.ctx.window (slot t.ib_depth p k) ≡ some op)
          × (event_time op ≡ e)
          × (t.ctx.t_cpu < e))

-- The place after a place, and the places counted from there.
slot-next : (d p k : ℕ) → p < d → suc k ≤ d → slot d (place d (p + 1)) k ≡ slot d p (k + 1)
slot-next d p k h l = ground arith

slot-first : (d p : ℕ) → p < d → slot d p 0 ≡ p
slot-first d p h = ground arith

place-stays : (d pos : ℕ) → 0 < d → place d pos < d
place-stays d pos h = ground arith

abbrev earlier : ℕ → ℕ → ℕ → ℕ
earlier now e best = if ltb now e && ltb e best then e else best

earlier_lem :
    (now e best : ℕ)
    → (earlier now e best ≤ best)
      × ((e ≤ now) ⊎ (earlier now e best ≤ e))
      × ((earlier now e best ≡ best) ⊎ ((e ≡ earlier now e best) × (now < earlier now e best)))
earlier_lem now e best = ground arith

module _ {C : Type 0} where
  IsEarliest-next :
      (n p best : ℕ) (t : Thread C) (op : Op) (e : ℕ)
      → p < t.ib_depth
      → suc n ≤ t.ib_depth
      → get_elem? t.ctx.window p ≡ some op
      → IsEarliest n (place t.ib_depth (p + 1)) (earlier t.ctx.t_cpu (event_time op) best) t e
      → IsEarliest (suc n) p best t e
  IsEarliest-next n p best t op e h le found q =
      let d = t.ib_depth in
      let b = earlier t.ctx.t_cpu (event_time op) best in
      let (low, seen, from) = earlier_lem t.ctx.t_cpu (event_time op) best in
      let first = ap (get_elem? t.ctx.window) (slot-first d p h) ∙ found in
      record {
        bound = omega (arith, q.bound, low);
        least = λ k op' lt f.
            elim k as (λ i. k ≡ i → (event_time op' ≤ t.ctx.t_cpu) ⊎ (e ≤ event_time op')) [
              | zero ↦ λ z.
                  let here : some op' ≡ some op =
                    sym f ∙ ap (λ i. get_elem? t.ctx.window (slot d p i)) z ∙ first in
                  let same : op' ≡ op = cc here in
                  subst (λ x. (event_time x ≤ t.ctx.t_cpu) ⊎ (e ≤ event_time x)) (sym same)
                    (elim seen [ inl a ↦ inl a | inr a ↦ inr (omega (arith, q.bound, a)) ])
              | suc i ↦ λ z. q.least i op' (omega arith) (
                  ap (get_elem? t.ctx.window)
                    (slot-next d p i h (omega arith) ∙ ap (slot d p) (omega arith))
                  ∙ f)
            ]
              refl;
        attained = elim q.attained [
          | inl a ↦ elim from [
            | inl c ↦ inl (a ∙ c)
            | inr (c, l) ↦ inr (0, op, omega arith, first, c ∙ sym a, omega (arith, a, l))
          ]
          | inr (k, op', lt, f, c, l) ↦ inr (
            k + 1,
            op',
            omega arith,
            ap (get_elem? t.ctx.window) (sym (slot-next d p k h (omega arith))) ∙ f,
            c,
            l,
          )
        ];
      }

  next_event-IsEarliest :
      (n pos best : ℕ) (t : Thread C)
      → length t.ctx.window ≡ t.ib_depth
      → 0 < t.ib_depth
      → n ≤ t.ib_depth
      → (e : ℕ) × (next_event n pos best t ≡ some e) × IsEarliest n (place t.ib_depth pos) best t e
  unfolding next_event
  next_event-IsEarliest zero pos best t l z le = (
    best,
    refl,
    record { bound = omega arith; least = λ k op h f. absurd (omega arith); attained = inl refl },
  )
  next_event-IsEarliest (suc n) pos best t l z le =
      let d = t.ib_depth in
      let p = place d pos in
      let inside = place-stays d pos z in
      let (op, found) = get_elem?-of_lt t.ctx.window p (omega (arith, inside, l)) in
      let b = earlier t.ctx.t_cpu (event_time op) best in
      let (e, run, q) = next_event-IsEarliest n (p + 1) b t l z (omega arith) in
      (e, rw found run, IsEarliest-next n p best t op e inside le found q)

  rob_load-le : (t : Thread C) → rob_load t ≤ t.rob_depth
  rob_load-le t = ground arith

  module _ (f : L1 C) where
    -- A thread at the time `now`, with the requests sent out that the ports take.
    abbrev pub retried : ℕ → Thread C → Thread C
    retried now t = record t { ctx = retry f (record t.ctx { t_cpu = now }) }

    -- The loop of advance over the reorder buffer, on a thread whose requests are tried.
    abbrev pub scanned : ℕ → ℕ → ℕ → Thread C → Option (Thread C)
    scanned n fuel draw t =
        scan f n fuel draw (rob_load t) t.win_head
          (record t { ctx = record t.ctx { has_complete_op = false } })

    -- The branch of advance that scans. Where the scan succeeds, the thread is as it leaves it, and time_next_event is
    -- the earliest time after `now` of the operations in the reorder buffer, or 2 ^ 64 - 1.
    abbrev pub Scans : ℕ → ℕ → ℕ → ℕ → Thread C → Type 0
    Scans n fuel draw now t =
        ((scanned n fuel draw (retried now t) ≡ none) × (advance f n fuel draw now t ≡ none))
        ⊎ ((t2 : Thread C) × (e : ℕ) × (scanned n fuel draw (retried now t) ≡ some t2)
            × (advance f n fuel draw now t ≡ some (record t2 { time_next_event = e }, t2.is_done))
            × (t2.ctx.t_cpu ≡ now)
            × IsEarliest (rob_load t2) (place t2.ib_depth t2.win_head) word_max t2 e)

    advance_goes :
        (n fuel draw now : ℕ) (t : Thread C)
        → t.is_done ≡ false
        → (not (retried now t).ctx.has_complete_op && ltb now t.time_next_event) ≡ false
        → advance f n fuel draw now t
          ≡ (advance_window f n fuel draw (retried now t) >>= (λ t2. some (t2, t2.is_done)))
    unfolding advance
    advance_goes n fuel draw now t d g = rw (d, g) refl

    advance_window_lem :
        (n fuel draw : ℕ) (t : Thread C)
        → advance_window f n fuel draw t ≡ (
            scanned n fuel draw t >>= (λ t2.
              next_event (rob_load t2) t2.win_head word_max t2
              >>= (λ e. some (record t2 { time_next_event = e }))))
    unfolding advance_window
    advance_window_lem n fuel draw t = refl

    advance-Scans :
        (n fuel draw now : ℕ) (t : Thread C)
        → length t.ctx.window ≡ t.ib_depth
        → 0 < t.ib_depth
        → t.rob_depth ≤ t.ib_depth
        → t.is_done ≡ false
        → (not (retried now t).ctx.has_complete_op && ltb now t.time_next_event) ≡ false
        → Scans n fuel draw now t
    advance-Scans n fuel draw now t len some_depth rob d g =
        let t1 = retried now t in
        let c0 : Context C = record t.ctx { t_cpu = now } in
        let h : Shape c0 t1.ctx = retry-Shape f c0 c0 (Shape-self c0) in
        let u : Thread C = record t1 { ctx = record t1.ctx { has_complete_op = false } } in
        let same : Steady u u = record {
          ib_depth = refl;
          rob_depth = refl;
          shape = Shape-self u.ctx;
        } in
        let goes =
          advance_goes n fuel draw now t d g
          ∙ ap (λ o. o >>= (λ t2. some (t2, t2.is_done))) (advance_window_lem n fuel draw t1) in
        elim (Option-cases (scanned n fuel draw t1)) [
          | inl e ↦ inl (e, goes ∙ rw e refl)
          | inr (t2, e) ↦
              let k =
                Ok-some (Steady u) (scanned n fuel draw t1) t2
                  (scan-Steady u f n fuel draw (rob_load t1) t1.win_head u same) e in
              let (time, run, q) =
                next_event-IsEarliest (rob_load t2) t2.win_head word_max t2
                  (omega (arith, k.shape.window_length, h.window_length, len, k.ib_depth))
                  (omega (arith, k.ib_depth, some_depth))
                  (omega (arith, rob_load-le t2, k.ib_depth, k.rob_depth, rob)) in
              inr (t2, time, e, goes ∙ rw (e, run) refl, k.shape.now ∙ h.now, q)
        ]

    -- All branches of advance, on a thread whose window is not empty and has its full length, in which the reorder
    -- buffer fits. A thread that is done stays as it is. Else the time is set and the waiting requests are tried. If no
    -- operation has completed then, and the next event is later, nothing else is done. Else the reorder buffer is
    -- scanned, and advance fails exactly if the scan does; if it does not, then time_next_event is the earliest time
    -- after the present of the operations that are then in the reorder buffer, or 2 ^ 64 - 1 if no such time is
    -- earlier, and it is returned whether the thread is done.
    pub advance-branches :
        (n fuel draw now : ℕ) (t : Thread C)
        → length t.ctx.window ≡ t.ib_depth
        → 0 < t.ib_depth
        → t.rob_depth ≤ t.ib_depth
        → ((t.is_done ≡ true) × (advance f n fuel draw now t ≡ some (t, false)))
          ⊎ (((t.is_done ≡ false)
                × ((retried now t).ctx.has_complete_op ≡ false)
                × (now < t.time_next_event)
                × (advance f n fuel draw now t ≡ some (retried now t, false)))
              ⊎ ((t.is_done ≡ false)
                  × (((retried now t).ctx.has_complete_op ≡ true) ⊎ (t.time_next_event ≤ now))
                  × Scans n fuel draw now t))
    unfolding advance
    advance-branches n fuel draw now t len some_depth rob =
        let t1 = retried now t in
        elim (Bool-cases t.is_done) [
          | inl d ↦ inl (d, rw d refl)
          | inr d ↦ inr (elim (Bool-cases t1.ctx.has_complete_op) [
            | inl c ↦
                inr (d, inl c, advance-Scans n fuel draw now t len some_depth rob d (rw c refl))
            | inr c ↦ elim (Bool-cases (ltb now t.time_next_event)) [
              | inl l ↦ inl (d, c, ltb→lt now t.time_next_event l, rw (d, c, l) refl)
              | inr l ↦ inr (
                d,
                inr (ltb→le now t.time_next_event l),
                advance-Scans n fuel draw now t len some_depth rob d (rw (c, l) refl),
              )
            ]
          ])
        ]
