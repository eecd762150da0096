-- ===== src/Walk/Relate.antt =====
-- Two walks of engine/ar_context.cpp through the same groups, whose visits are related.
use siena_mem.Base.{
  ℕ, zero, suc, ◌+◌, ◌≡◌, refl, some, bind-some, get_elem?, Ok, Ok-bind, Ok-then, Ok-if, some_inj,
  ap, ◌∙◌, none, Option, Bool, true, false, if◌then◌else◌,
}
use mathlib.Core.Path.{subst}
use siena_mem.Walk.{Group, Walk, Visit, node_count, visit_nodes, walk_step, step_forward}
use siena_mem.Walk.Order.{at, visit_steps, visit_groups}

-- A visit that succeeds where the other one does, and keeps a relation of their states.
abbrev pub Follows : {A : Type 0} {S : Type 0} → (A → S → Type 0) → Visit A → Visit S → Type 0
Follows {A} {S} R u v =
    (w : Walk) (g : Group) (id : ℕ) (a a' : A) (s : S)
    → R a s
    → u w g id a ≡ some a'
    → (s' : S) × (v w g id s ≡ some s') × R a' s'

module _ {S : Type 0} (visit : Visit S) where
  walk_step_stop : (w : Walk) (s : S) → none ≡ walk_step visit 0 w s
  unfolding walk_step
  walk_step_stop w s = refl

  -- A round of a walk.
  walk_step_begins :
      (fuel : ℕ) (w : Walk) (s : S) (g : Group) (t : S)
      → get_elem? w.nodegroup_list w.curr_group_id ≡ some g
      → visit_nodes visit w g (node_count g) g.st_node s ≡ some t
      → walk_step visit (suc fuel) w s ≡ (
          if (step_forward g w).1
          then some ((step_forward g w).0, t)
          else walk_step visit fuel (step_forward g w).0 t)
  unfolding walk_step
  walk_step_begins fuel w s g t e f = rw (e, f) refl

  walk_step_begun :
      (fuel : ℕ) (w : Walk) (s : S) (r : Walk × S)
      → walk_step visit (suc fuel) w s ≡ some r
      → (g : Group) × (t : S) × (get_elem? w.nodegroup_list w.curr_group_id ≡ some g)
        × (visit_nodes visit w g (node_count g) g.st_node s ≡ some t)
        × ((if (step_forward g w).1
              then some ((step_forward g w).0, t)
              else walk_step visit fuel (step_forward g w).0 t)
            ≡ some r)
  unfolding walk_step
  walk_step_begun fuel w s r e =
      let (g, e0, e1) = bind-some (get_elem? w.nodegroup_list w.curr_group_id) _ r e in
      let (t, e2, e3) = bind-some (visit_nodes visit w g (node_count g) g.st_node s) _ r e1 in
      (g, t, e0, e2, e3)

-- What every visit that succeeds keeps, the walk keeps.
module _ {S : Type 0} (visit : Visit S) (P : S → Type 0)
    (keeps : (w : Walk) (g : Group) (id : ℕ) (s : S) → P s → Ok P (visit w g id s)) where
  visit_nodes-Ok :
      (w : Walk) (g : Group) (n id : ℕ) (s : S) → P s → Ok P (visit_nodes visit w g n id s)
  unfolding visit_nodes
  visit_nodes-Ok w g zero id s h = h
  visit_nodes-Ok w g (suc n) id s h =
      Ok-then P P (visit w g id s) _ (keeps w g id s h) (λ t k. visit_nodes-Ok w g n (id + 1) t k)

  pub walk_step-Ok :
      (fuel : ℕ) (w : Walk) (s : S) → P s → Ok (λ r. P r.1) (walk_step visit fuel w s)
  unfolding walk_step
  walk_step-Ok zero w s h = tt
  walk_step-Ok (suc fuel) w s h =
      Ok-bind (λ r. P r.1) (get_elem? w.nodegroup_list w.curr_group_id) _
        (λ g.
          Ok-then (λ r. P r.1) P (visit_nodes visit w g (node_count g) g.st_node s) _
            (visit_nodes-Ok w g (node_count g) g.st_node s h)
            (λ t k.
              let next = step_forward g w in
              Ok-if (λ r. P r.1) next.1 (some (next.0, t)) (walk_step visit fuel next.0 t) (λ q. k)
                (λ q. walk_step-Ok fuel next.0 t k)))

module _ {A : Type 0} {S : Type 0} (R : A → S → Type 0) (u : Visit A) (v : Visit S)
    (h : Follows R u v) where
  visit_nodes-Follows :
      (w : Walk) (g : Group) (n id : ℕ) (a a' : A) (s : S)
      → R a s
      → visit_nodes u w g n id a ≡ some a'
      → (s' : S) × (visit_nodes v w g n id s ≡ some s') × R a' s'
  unfolding visit_nodes
  visit_nodes-Follows w g zero id a a' s r e = (s, refl, subst (λ x. R x s) (cc e) r)
  visit_nodes-Follows w g (suc n) id a a' s r e =
      let (b, e1, e2) = bind-some (u w g id a) (visit_nodes u w g n (id + 1)) a' e in
      let (t, f1, q) = h w g id a b s r e1 in
      let (s', f2, q') = visit_nodes-Follows w g n (id + 1) b a' t q e2 in (s', rw f1 f2, q')

  visit_steps-Follows :
      (i : ℕ) (g : Group) (w : Walk) (n k : ℕ) (a a' : A) (s : S)
      → R a s
      → visit_steps u i g w n k a ≡ some a'
      → (s' : S) × (visit_steps v i g w n k s ≡ some s') × R a' s'
  unfolding visit_steps
  visit_steps-Follows i g w zero k a a' s r e = (s, refl, subst (λ x. R x s) (cc e) r)
  visit_steps-Follows i g w (suc n) k a a' s r e =
      let g' : Group = record g { curr_group_step = k } in
      let (b, e1, e2) =
        bind-some (visit_nodes u (at i k g w) g' (node_count g) g.st_node a)
          (visit_steps u i g w n (k + 1)) a' e in
      let (t, f1, q) = visit_nodes-Follows (at i k g w) g' (node_count g) g.st_node a b s r e1 in
      let (s', f2, q') = visit_steps-Follows i g w n (k + 1) b a' t q e2 in (s', rw f1 f2, q')

  pub visit_groups-Follows :
      (w : Walk) (n i : ℕ) (a a' : A) (s : S)
      → R a s
      → visit_groups u w n i a ≡ some a'
      → (s' : S) × (visit_groups v w n i s ≡ some s') × R a' s'
  unfolding visit_groups
  visit_groups-Follows w zero i a a' s r e = (s, refl, subst (λ x. R x s) (cc e) r)
  visit_groups-Follows w (suc n) i a a' s r e =
      let (g, e0, e1) = bind-some (get_elem? w.nodegroup_list i) _ a' e in
      let (b, e2, e3) =
        bind-some (visit_steps u i g w g.group_steps 0 a) (visit_groups u w n (i + 1)) a' e1 in
      let (t, f1, q) = visit_steps-Follows i g w g.group_steps 0 a b s r e2 in
      let (s', f2, q') = visit_groups-Follows w n (i + 1) b a' t q e3 in (s', rw (e0, f1) f2, q')

  -- The last round of a walk, or the rest of it.
  round-Follows :
      (done : Bool) (x w' : Walk) (b a' : A) (t : S) (more : Option (Walk × A))
      (more' : Option (Walk × S))
      → R b t
      → (more ≡ some (w', a') → (s' : S) × (more' ≡ some (w', s')) × R a' s')
      → (if done then some (x, b) else more) ≡ some (w', a')
      → (s' : S) × ((if done then some (x, t) else more') ≡ some (w', s')) × R a' s'
  round-Follows true x w' b a' t more more' r k e =
      let pair = some_inj (x, b) (w', a') e in
      (
        t,
        ap (λ y. some (y, t)) (ap (λ (y : Walk × A). y.0) pair),
        subst (λ y. R y t) (ap (λ (y : Walk × A). y.1) pair) r,
      )
  round-Follows false x w' b a' t more more' r k e = k e

  pub walk_step-Follows :
      (fuel : ℕ) (w w' : Walk) (a a' : A) (s : S)
      → R a s
      → walk_step u fuel w a ≡ some (w', a')
      → (s' : S) × (walk_step v fuel w s ≡ some (w', s')) × R a' s'
  walk_step-Follows zero w w' a a' s r e = absurd (cc (walk_step_stop u w a ∙ e))
  walk_step-Follows (suc fuel) w w' a a' s r e =
      let (g, b, e0, e2, e3) = walk_step_begun u fuel w a (w', a') e in
      let (t, f1, q) = visit_nodes-Follows w g (node_count g) g.st_node a b s r e2 in
      let next = step_forward g w in
      let (s', f2, q') =
        round-Follows next.1 next.0 w' b a' t (walk_step u fuel next.0 b)
          (walk_step v fuel next.0 t) q (walk_step-Follows fuel next.0 w' b a' t q) e3 in
      (s', walk_step_begins v fuel w s g t e0 f1 ∙ f2, q')
