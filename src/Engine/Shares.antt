-- ===== src/Engine/Shares.antt =====
-- How the shares of the threads follow each other: init_thread_ctx of engine/ar_engine.cpp.
use native.Mathlib.Nat.{div-add-mod', mod-lt, div-le_self}
use mathlib.Core.Path.{subst}
use siena_mem.Base.{
  ℕ, zero, suc, ◌+◌, ◌*◌, ◌/◌, ◌%◌, ◌≤◌, ◌<◌, ◌≡◌, refl, sym, ap, ◌∙◌, inl, inr, some, List, [],
  ◌∷◌, ◌++◌, arith, ltb, leb, ◌==◌, if◌then◌else◌, Bool-cases, ==→eq, ne→==, word, length, add64,
  add64-eq, sub64, mul64, mul64-eq,
}
use siena_mem.Engine.{Share, Threads, mark_rest, init_shares, workload, init_thread_ctx}

-- Shares that follow each other from `from` to `to`, of at most `size` steps each, none empty, for the
-- threads `tid`, `tid` + 1, ...
pub data Tiles (size : ℕ) : ℕ → ℕ → ℕ → List Share → Type 0 where
  done : {tid at : ℕ} → Tiles size tid at at []
  next :
      {tid from stop to : ℕ} {l : List Share}
      → from < stop
      → stop ≤ from + size
      → Tiles size (suc tid) stop to l
      → Tiles size tid from to (record { tid = tid; st = from; stop = stop } ∷ l)

workload-covers :
    (g n : ℕ) → 0 < n → g + n < word → (g ≤ n * workload g n) × (n * workload g n < word)
unfolding workload
workload-covers g n pos fits =
    let exact = div-add-mod' g n in
    let rest = mod-lt g pos in
    let small : g / n + 1 < word = omega (arith, div-le_self g n) in
    let up = add64-eq (g / n) 1 small in
    elim (Bool-cases (g % n == 0)) [
      | inl e ↦ rw e (omega (arith, ==→eq (g % n) 0 e), omega arith)
      | inr e ↦ rw (e, up) (omega arith, omega arith)
    ]

mark_rest_lem :
    (n tid : ℕ) (t : Threads)
    → t.num_finished_threads + n < word
    → ((mark_rest n tid t).shares ≡ t.shares)
      × ((mark_rest n tid t).num_finished_threads ≡ t.num_finished_threads + n)
unfolding mark_rest
mark_rest_lem zero tid t fits = (refl, omega arith)
mark_rest_lem (suc n) tid t fits =
    let one = add64-eq t.num_finished_threads 1 (omega arith) in
    let t1 : Threads = record t {
      num_finished_threads = add64 t.num_finished_threads 1;
      marked = t.marked ++ tid ∷ [];
    } in
    let (same, more) = mark_rest_lem n tid t1 (omega (arith, one)) in
    (same, omega (arith, more, one))

append-nil : (l : List Share) → l ++ [] ≡ l
append-nil [] = refl
append-nil (x ∷ l) = ap (λ (t : List Share). x ∷ t) (append-nil l)

append-one : (l : List Share) (x : Share) (k : List Share) → (l ++ x ∷ []) ++ k ≡ l ++ x ∷ k
append-one [] x k = refl
append-one (y ∷ l) x k = ap (λ (t : List Share). y ∷ t) (append-one l x k)

le-mul-add : (n size : ℕ) → size ≤ size + n * size
le-mul-add n size = omega arith

le-mul : (a b : ℕ) → 0 < b → a ≤ a * b
le-mul a b h = grind arith

-- Where the share of thread `tid` begins.
abbrev start_of : ℕ → ℕ → ℕ → ℕ
start_of size g tid = if leb g (tid * size) then g else tid * size

-- What the loop adds for `n` threads from `tid` on.
pub record Allotted (size g tid n : ℕ) (t t' : Threads) : Type 0 where
  pub added : List Share
  pub appended : t'.shares ≡ t.shares ++ added
  pub tiles : Tiles size tid (start_of size g tid) g added
  pub idle : t'.num_finished_threads + length added ≡ t.num_finished_threads + n

init_shares_lem :
    (n size g tid : ℕ) (t : Threads)
    → 0 < size
    → g ≤ (tid + n) * size
    → (tid + n) * size < word
    → t.num_finished_threads + n < word
    → Allotted size g tid n t (init_shares n size g tid t)
unfolding init_shares
init_shares_lem zero size g tid t pos covered fits few =
    let all_done : g ≡ start_of size g tid = ground arith in
    record {
      added = [];
      appended = sym (append-nil t.shares);
      tiles = subst (λ (f : ℕ). Tiles size tid f g []) all_done done;
      idle = refl;
    }
init_shares_lem (suc n) size g tid t pos covered fits few =
    let small : tid * size + size < word = omega (arith, le-mul-add n size) in
    let st_eq : mul64 tid size ≡ tid * size = mul64-eq tid size (omega arith) in
    let st = mul64 tid size in
    let end_eq : add64 st size ≡ tid * size + size = rw st_eq (add64-eq (tid * size) size small) in
    elim (Bool-cases (leb g st)) [
      | inl e ↦
          let (same, more) = mark_rest_lem (suc n) tid t few in
          let all_done : g ≡ start_of size g tid = ground (arith, e, st_eq) in
          rw e (record {
            added = [];
            appended = same ∙ sym (append-nil t.shares);
            tiles = subst (λ (f : ℕ). Tiles size tid f g []) all_done done;
            idle = omega (arith, more);
          })
      | inr e ↦
          let stop = if ltb g (add64 st size) then g else add64 st size in
          let share : Share = record { tid = tid; st = st; stop = stop } in
          let tid_eq : add64 tid 1 ≡ suc tid =
            add64-eq tid 1 (omega (arith, le-mul tid size pos)) ∙ omega arith in
          let t1 : Threads = record t { shares = t.shares ++ share ∷ [] } in
          let r =
            init_shares_lem n size g (suc tid) t1 pos (omega (arith, covered)) (omega (arith, fits))
              (omega arith) in
          let from_eq : st ≡ start_of size g tid = ground (arith, e, st_eq) in
          let stop_eq : start_of size g (suc tid) ≡ stop = ground (arith, end_eq) in
          rw (e, tid_eq)
            (record {
              added = share ∷ r.added;
              appended = r.appended ∙ append-one t.shares share r.added;
              tiles =
                  subst (λ (f : ℕ). Tiles size tid f g (share ∷ r.added)) from_eq
                    (Tiles.next (ground (arith, e, end_eq, st_eq)) (ground (arith, end_eq, st_eq))
                      (subst (λ (f : ℕ). Tiles size (suc tid) f g r.added) stop_eq r.tiles));
              idle = omega (arith, r.idle);
            })
    ]

factor_pos : (g n w : ℕ) → 0 < g → g ≤ n * w → 0 < w
factor_pos g n zero pg h = absurd (omega arith)
factor_pos g n (suc w) pg h = omega arith

-- With some threads and some steps, fewer than 2 ^ 64 of both together, init_thread_ctx succeeds:
-- the shares that the threads 0, 1, ... get follow each other from step 0 to global_control, each is
-- not empty and has at most the workload's number of steps, and every thread without a share is
-- counted as finished.
pub init_thread_ctx-Tiles :
    (n g : ℕ)
    → 0 < n
    → 0 < g
    → g + n < word
    → (t : Threads) × (init_thread_ctx n g ≡ some t)
      × Tiles (workload g n) 0 0 g t.shares
      × (t.num_finished_threads + length t.shares ≡ n)
unfolding init_thread_ctx
init_thread_ctx-Tiles n g pn pg fits =
    let (covered, small) = workload-covers g n pn fits in
    let t0 : Threads = record {
      shares = [];
      marked = [];
      num_finished_threads = 0;
      thread_end = sub64 n 1;
    } in
    let size_pos = factor_pos g n (workload g n) pg covered in
    let r =
      init_shares_lem n (workload g n) g 0 t0 size_pos (omega (arith, covered))
        (omega (arith, small)) (omega arith) in
    let from_eq : start_of (workload g n) g 0 ≡ 0 = ground arith in
    let tiled = subst (λ (f : ℕ). Tiles (workload g n) 0 f g r.added) from_eq r.tiles in
    (
      init_shares n (workload g n) g 0 t0,
      rw (ne→== n 0 (omega arith), ne→== g 0 (omega arith)) refl,
      subst (λ (l : List Share). Tiles (workload g n) 0 0 g l) (sym r.appended) tiled,
      omega (arith, r.idle, ap length r.appended),
    )
