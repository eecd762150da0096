-- ===== src/Engine/Count.antt =====
-- num_finished_threads of Engine::exec_node_longstep in engine/ar_engine.cpp, over the steps.
use siena_mem.Base.{
  ℕ, zero, suc, ◌+◌, ◌-◌, ◌<◌, ◌≡◌, refl, ap, ◌∙◌, Bool, true, false, not, ◌&&◌, some, List, [],
  ◌∷◌, arith, ltb, if◌then◌else◌, word, word_max, add64-eq, ◌>>=◌, Ok, Ok-bind, Ok-then, Ok-if,
}
use siena_mem.Context.{L1}
use siena_mem.Thread.{Thread}
use siena_mem.Thread.Advance.{advance, advance_window, retry}
use siena_mem.Engine.Loop.{
  Machine, Sims, Pass, with_caches, count_done, step_pass, advance_sims, step_round, get_next_event,
  earlier,
}

abbrev pub as_nat : Bool → ℕ
as_nat b = if b then 1 else 0

-- Which of the threads are done, and how many are not.
abbrev pub marks : {C : Type 0} → List (Thread C) → List Bool
marks [] = []
marks (t ∷ ts) = t.is_done ∷ marks ts

abbrev pub unset : List Bool → ℕ
unset [] = 0
unset (b ∷ bs) = as_nat (not b) + unset bs

abbrev pub undone : {C : Type 0} → List (Thread C) → ℕ
undone ts = unset (marks ts)

-- A call of advance returns true exactly when the thread is done after it and was not before.
abbrev Once : {C : Type 0} → Thread C → Thread C × Bool → Type 0
Once t r = as_nat r.1 + as_nat (not r.0.is_done) ≡ as_nat (not t.is_done)

module _ {C : Type 0} (f : L1 C) where
  advance-Once : (n fuel draw now : ℕ) (t : Thread C) → Ok (Once t) (advance f n fuel draw now t)
  unfolding advance
  advance-Once n fuel draw now t =
      let t1 : Thread C = record t { ctx = retry f (record t.ctx { t_cpu = now }) } in
      Ok-if (Once t) t.is_done _ _ (λ d. ground arith)
        (λ d.
          Ok-if (Once t) (not t1.ctx.has_complete_op && ltb now t1.time_next_event) _ _
            (λ q. ground arith)
            (λ q. Ok-bind (Once t) (advance_window f n fuel draw t1) _ (λ t2. ground arith)))

pub count_done-add :
    (done : Bool) (finished : ℕ)
    → finished + as_nat done < word
    → count_done done finished ≡ finished + as_nat done
count_done-add true finished h = add64-eq finished 1 (omega arith)
count_done-add false finished h = omega arith

-- The threads that are finished and those that are not are `k` together.
abbrev pub Counted : {C : Type 0} → ℕ → Pass C → Type 0
Counted k p = p.num_finished_threads + undone p.threads ≡ k

module _ {C : Type 0} (l1_of : ℕ → L1 C) (n fuel draw : ℕ) (mode : Bool) (num_threads now : ℕ) where
  step_pass-Counted :
      (tid : ℕ) (ts : List (Thread C)) (c : C) (finished next_step k : ℕ)
      → finished + undone ts ≡ k
      → k < word
      → Ok
          (Counted k)
          (step_pass l1_of n fuel draw mode num_threads now tid ts c finished next_step)
  unfolding step_pass
  step_pass-Counted tid [] c finished next_step k e small = e
  step_pass-Counted tid (t ∷ ts) c finished next_step k e small =
      Ok-then (Counted k) (Once t) (advance (l1_of tid) n fuel draw now (with_caches c t)) _
        (advance-Once (l1_of tid) n fuel draw now (with_caches c t))
        (λ r once.
          let finished' = count_done r.1 finished in
          let same : finished' ≡ finished + as_nat r.1 =
            count_done-add r.1 finished (omega arith) in
          let rest_k = k - as_nat (not r.0.is_done) in
          Ok-bind (Counted k)
            (if ltb finished' num_threads
              then (get_next_event mode r.0 >>= (λ e'. some (earlier e' next_step)))
              else some now)
            _
            (λ next.
              Ok-then (Counted k) (Counted rest_k)
                (step_pass l1_of n fuel draw mode num_threads now (tid + 1) ts r.0.ctx.l1 finished'
                  next)
                _
                (step_pass-Counted (tid + 1) ts r.0.ctx.l1 finished' next rest_k (omega arith)
                  (omega arith))
                (λ rest done_rest. omega arith)))

-- Advancing the simulators finishes no thread.
abbrev pub KeepsMarks : {C : Type 0} → Sims C → Type 0
KeepsMarks {C} sims =
    (i now : ℕ) (m : Machine C)
    → Ok (λ (m' : Machine C). marks m'.threads ≡ marks m.threads) (sims.advance i now m)

module _ {C : Type 0} (sims : Sims C) (keeps : KeepsMarks sims) where
  advance_sims-marks :
      (k i now : ℕ) (m : Machine C) (next_step : ℕ) (bs : List Bool)
      → marks m.threads ≡ bs
      → Ok (λ r. marks r.0.threads ≡ bs) (advance_sims sims k i now m next_step)
  unfolding advance_sims
  advance_sims-marks zero i now m next_step bs h = h
  advance_sims-marks (suc k) i now m next_step bs h =
      Ok-then (λ r. marks r.0.threads ≡ bs) (λ m'. marks m'.threads ≡ marks m.threads)
        (sims.advance i now m) _ (keeps i now m)
        (λ m' same.
          Ok-bind (λ r. marks r.0.threads ≡ bs) (sims.next_event i m') _
            (λ e. advance_sims-marks k (i + 1) now m' (earlier e next_step) bs (same ∙ h)))

  module _ (l1_of : ℕ → L1 C) (n fuel draw num_threads : ℕ) where
    pub step_round-Counted :
        (p : Pass C) (k : ℕ)
        → Counted k p
        → k < word
        → Ok (Counted k) (step_round sims l1_of n fuel draw num_threads p)
    unfolding step_round
    step_round-Counted p k e small =
        Ok-then (Counted k) (λ r. marks r.0.threads ≡ marks p.threads)
          (advance_sims sims sims.count 0 p.next_step
            (record { threads = p.threads; caches = p.caches }) word_max)
          _
          (advance_sims-marks sims.count 0 p.next_step
            (record { threads = p.threads; caches = p.caches }) word_max (marks p.threads) refl)
          (λ r same.
            step_pass-Counted l1_of n fuel draw (ltb 0 sims.count) num_threads p.next_step 0
              r.0.threads r.0.caches p.num_finished_threads r.1 k
              (ap (λ x. p.num_finished_threads + unset x) same ∙ e) small)

module _ {C : Type 0} (sims : Sims C) where
  -- The passes that the loop over the steps comes to from a first one.
  pub data Steps (l1_of : ℕ → L1 C) (n fuel draw num_threads : ℕ) (p₀ : Pass C)
      : Pass C → Type 0 where
    start : Steps l1_of n fuel draw num_threads p₀ p₀
    again :
        {p p' : Pass C}
        → Steps l1_of n fuel draw num_threads p₀ p
        → p.num_finished_threads < num_threads
        → step_round sims l1_of n fuel draw num_threads p ≡ some p'
        → Steps l1_of n fuel draw num_threads p₀ p'
