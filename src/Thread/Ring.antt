-- ===== src/Thread/Ring.antt =====
-- The window of engine/ar_context.cpp as a ring, and the writes of a step.
use siena_mem.Base.{
  ℕ, ◌+◌, ◌-◌, ◌≤◌, ◌<◌, ◌≡◌, ◌≢◌, ◌⊎◌, refl, sym, ap, ◌∙◌, inl, inr, some, arith, ltb, leb,
  if◌then◌else◌, length, get_elem?, set, add64, add64-eq, word, get_elem?-set_self,
  get_elem?-set_ne, Bool-cases, ltb→lt, ltb→le,
}
use siena_mem.Context.{issued, Op}
use siena_mem.Thread.{Fetched}

-- The place of the `k`th operation of a ring of `d` places, from the place `p`.
abbrev pub slot : ℕ → ℕ → ℕ → ℕ
slot d p k = if ltb (p + k) d then p + k else p + k - d

-- The place at which the next operation is written.
abbrev pub place : ℕ → ℕ → ℕ
place d pos = if leb d pos then 0 else pos

-- What `m` operations leave that are written from the place `p` on: they stand in the places that follow
-- one another, each knows its own place, and every other place is as it was.
pub record Wrote (d p m : ℕ) (f f' : Fetched) : Type 0 where
  pub next_place : place d f'.pos ≡ slot d p m
  pub load : f'.win_load ≡ f.win_load + m
  pub in_window : (m ≡ 0) ⊎ ((0 < f'.pos) × (f'.pos ≤ d))
  pub written :
      (k : ℕ)
      → k < m
      → (op : Op) × (get_elem? f'.window (slot d p k) ≡ some op)
        × (op.pos ≡ slot d p k)
        × (op.status ≡ issued)
  pub kept :
      (j : ℕ) → ((k : ℕ) → k < m → slot d p k ≢ j) → get_elem? f'.window j ≡ get_elem? f.window j

pub place-lt : (d pos : ℕ) → 0 < d → place d pos < d
place-lt d pos h = ground arith

pub slot-lt : (d p k : ℕ) → p < d → k ≤ d → slot d p k < d
slot-lt d p k h l = ground arith

slot-ne : (d p k l : ℕ) → p < d → k < l → l < d → slot d p k ≢ slot d p l
slot-ne d p k l h a b = ground arith

slot-suc : (d p k : ℕ) → p < d → k < d → place d (slot d p k + 1) ≡ slot d p (k + 1)
slot-suc d p k h l = ground arith

stays : (d q : ℕ) → d < word → q < d → (0 < add64 q 1) × (add64 q 1 ≤ d)
stays d q s l = let e = add64-eq q 1 (omega arith) in (omega arith, omega arith)

pub Wrote-none : (d : ℕ) (f : Fetched) → 0 < d → Wrote d (place d f.pos) 0 f f
Wrote-none d f h = record {
  next_place = ground arith;
  load = omega arith;
  in_window = inl refl;
  written = λ k l. absurd (omega arith);
  kept = λ j h. refl;
}

-- One more operation.
abbrev pub write_op : ℕ → Op → Fetched → Fetched
write_op q op f = record {
  window = set f.window q op;
  win_load = add64 f.win_load 1;
  pos = add64 q 1;
}

pub Wrote-next :
    (d p m : ℕ) (op : Op) (f f' : Fetched)
    → p < d
    → m < d
    → d < word
    → f.win_load + d < word
    → length f'.window ≡ d
    → op.pos ≡ place d f'.pos
    → op.status ≡ issued
    → Wrote d p m f f'
    → Wrote d p (m + 1) f (write_op (place d f'.pos) op f')
Wrote-next d p m op f f' h l small fits len own iss w =
    let here = w.next_place in
    record {
      next_place =
          ap (place d)
            (add64-eq (place d f'.pos) 1 (omega (arith, place-lt d f'.pos (omega arith))))
          ∙ ap (λ q. place d (q + 1)) here
          ∙ slot-suc d p m h l;
      load = add64-eq f'.win_load 1 (omega (arith, w.load)) ∙ omega (arith, w.load);
      in_window = inr (stays d (place d f'.pos) small (place-lt d f'.pos (omega arith)));
      written = λ k lt. elim (Bool-cases (ltb k m)) [
        | inl e ↦
            let (old, found, at, st) = w.written k (ltb→lt k m e) in
            let apart : place d f'.pos ≢ slot d p k =
              λ q. slot-ne d p k m h (ltb→lt k m e) l (sym (sym here ∙ q)) in
            (old, get_elem?-set_ne f'.window (place d f'.pos) (slot d p k) op apart ∙ found, at, st)
        | inr e ↦
            let same : k ≡ m = (let le = ltb→le k m e in omega arith) in
            let q : place d f'.pos ≡ slot d p k = here ∙ ap (slot d p) (sym same) in
            (
              op,
              ap (get_elem? (set f'.window (place d f'.pos) op)) (sym q)
                  ∙ get_elem?-set_self f'.window (place d f'.pos) op
                      (omega (arith, len, place-lt d f'.pos (omega arith))),
              own ∙ q,
              iss,
            )
      ];
      kept = λ j none_at.
          get_elem?-set_ne f'.window (place d f'.pos) j op
            (λ q. none_at m (omega arith) (sym here ∙ q))
          ∙ w.kept j (λ k lt. none_at k (omega arith));
    }
