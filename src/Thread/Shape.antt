-- ===== src/Thread/Shape.antt =====
-- What dispatching of engine/ar_context.cpp leaves as it is: the length of the window and the time.
use siena_mem.Base.{
  ℕ, ◌≡◌, refl, ◌∙◌, ◌&&◌, ◌==◌, none, some, List, [], ◌∷◌, ltb, leb, if◌then◌else◌, length,
  get_elem?, set, add64, sub64, div?, length-set, Ok, Ok-bind, Ok-then, Ok-if, if_both,
  Option-cases, Bool-cases, true, inl, inr,
}
use siena_mem.Types.{Req}
use siena_mem.DataNode.{OpType}
use siena_mem.Context.{
  Op, L1, Context, pending, dispatched, take_alu, try_dispatch_ld, try_dispatch_st, send_load,
  send_store, send, request, dispatch,
}
use siena_mem.Thread.Advance.{retry, retry_ld, retry_st}

-- A context with a window of the same length and at the same time.
pub record Shape {C : Type 0} (c c' : Context C) : Type 0 where
  pub window_length : length c'.window ≡ length c.window
  pub now : c'.t_cpu ≡ c.t_cpu

-- A write of an operation that is read at its place.
length-adjust :
    (w : List Op) (i : ℕ) (g : Op → Op)
    → length (elim (get_elem? w i) [ none ↦ w | some op ↦ set w i (g op) ]) ≡ length w
length-adjust w i g =
    elim (get_elem? w i)
      as (λ o. length (elim o [ none ↦ w | some op ↦ set w i (g op) ]) ≡ length w) [
        | none ↦ refl
        | some op ↦ length-set w i (g op)
      ]

module _ {C : Type 0} where
  pub Shape-self : (c : Context C) → Shape c c
  Shape-self c = record { window_length = refl; now = refl }

  -- A window that is written, from `c`, which has the shape of `c₀`.
  rewindowed :
      (c₀ c c' : Context C)
      → Shape c₀ c
      → length c'.window ≡ length c.window
      → c'.t_cpu ≡ c.t_cpu
      → Shape c₀ c'
  rewindowed c₀ c c' s l e = record { window_length = l ∙ s.window_length; now = e ∙ s.now }

  pub Shape-written :
      (c₀ c : Context C) (i : ℕ) (op : Op)
      → Shape c₀ c
      → Shape c₀ (record c { window = set c.window i op })
  Shape-written c₀ c i op s = rewindowed c₀ c _ s (length-set c.window i op) refl

  take_alu-Shape : (comp : ℕ) (c₀ c : Context C) → Shape c₀ c → Ok (Shape c₀) (take_alu comp c)
  unfolding take_alu
  take_alu-Shape comp c₀ c s =
      Ok-if (Shape c₀) (sub64 c.avail_alu (if ltb c.avail_alu comp then c.avail_alu else comp) == 0)
        _ _
        (λ q.
          Ok-bind (Shape c₀)
            (div? (sub64 comp (if ltb c.avail_alu comp then c.avail_alu else comp)) c.alu) _
            (λ dt. record { window_length = s.window_length; now = s.now }))
        (λ q. record { window_length = s.window_length; now = s.now })

  module _ (f : L1 C) (c₀ : Context C) where
    pub try_dispatch_ld-Shape :
        (req : Req) (c : Context C) → Shape c₀ c → Shape c₀ (try_dispatch_ld f req c).0
    unfolding try_dispatch_ld
    try_dispatch_ld-Shape req c s =
        let t_ld = if ltb c.t_cpu c.t_ld then c.t_ld else c.t_cpu in
        let complete = (f.load (record req { dispatch = t_ld }) c.l1).1 in
        let write = λ (op : Op). record op { status = dispatched; complete = complete } in
        elim (Bool-cases (leb req.dispatch t_ld && ltb (f.num_pending_cl c.l1) c.lfb_depth)) [
          | inl e ↦ rw e (record {
            window_length = length-adjust c.window req.pos write ∙ s.window_length;
            now = s.now;
          })
          | inr e ↦ rw e (record { window_length = s.window_length; now = s.now })
        ]

    pub try_dispatch_st-Shape :
        (req : Req) (c : Context C) → Shape c₀ c → Shape c₀ (try_dispatch_st f req c).0
    unfolding try_dispatch_st
    try_dispatch_st-Shape req c s =
        let t_st = if ltb c.t_cpu c.t_st then c.t_st else c.t_cpu in
        let t' = if sub64 c.avail_st 1 == 0 then add64 t_st 1 else t_st in
        let write = λ (op : Op). record op { status = dispatched; complete = t' } in
        elim (Bool-cases (leb req.dispatch t_st)) [
          | inl e ↦ rw e (record {
            window_length = length-adjust c.window req.pos write ∙ s.window_length;
            now = s.now;
          })
          | inr e ↦ rw e (record { window_length = s.window_length; now = s.now })
        ]

    send-Shape : (op : Op) (i : ℕ) (c : Context C) → Shape c₀ c → Ok (Shape c₀) (send f op i c)
    unfolding send send_load send_store
    send-Shape op i c s =
        let req = request f op c in
        let ld = try_dispatch_ld f req c in
        let st = try_dispatch_st f req c in
        let held = λ (op : Op). record op { status = pending } in
        elim op.type
          as (λ x. Ok (Shape c₀) (elim x [
            | OpType.load ↦ some (send_load f req i c)
            | OpType.store ↦ some (send_store f req i c)
            | _ ↦ none
          ])) [
            | OpType.load ↦
                let s' = try_dispatch_ld-Shape req c s in
                if_both (Shape c₀) ld.1 _ _ s'
                  (rewindowed c₀ ld.0 _ s' (length-adjust ld.0.window i held) refl)
            | OpType.store ↦
                let s' = try_dispatch_st-Shape req c s in
                if_both (Shape c₀) st.1 _ _ s'
                  (rewindowed c₀ st.0 _ s' (length-adjust st.0.window i held) refl)
            | _ ↦ tt
          ]

    pub dispatch-Shape : (i : ℕ) (c : Context C) → Shape c₀ c → Ok (Shape c₀) (dispatch f i c)
    unfolding dispatch
    dispatch-Shape i c s = elim (Option-cases (get_elem? c.window i)) [
      | inl e ↦ rw (Ok, dispatch, e) tt
      | inr (op, e) ↦
          rw (dispatch, e)
            (Ok-if (Shape c₀) (ltb 0 op.prev) _ _
              (λ q. rewindowed c₀ c _ s (length-set c.window i _) refl)
              (λ q.
                Ok-then (Shape c₀) (Shape c₀) (if ltb 0 op.comp then take_alu op.comp c else some c)
                  _
                  (Ok-if (Shape c₀) (ltb 0 op.comp) _ _ (λ t. take_alu-Shape op.comp c₀ c s)
                    (λ t. s))
                  (λ c1 s1.
                    let op' : Op = record op {
                      dispatch = if ltb 0 op.comp then c1.t_alu else c.t_cpu;
                      comp = 0;
                    } in
                    send-Shape op' i (record c1 { window = set c1.window i op' })
                      (Shape-written c₀ c1 i op' s1))))
    ]

    retry_ld-Shape : (rs : List Req) (c : Context C) → Shape c₀ c → Shape c₀ (retry_ld f rs c).0
    unfolding retry_ld
    retry_ld-Shape [] c s = s
    retry_ld-Shape (r ∷ rs) c s =
        let d = try_dispatch_ld f r c in
        let s1 = try_dispatch_ld-Shape r c s in
        retry_ld-Shape rs (if d.1 then record d.0 { has_complete_op = true } else d.0) (
          if_both (Shape c₀) d.1 _ _ (record { window_length = s1.window_length; now = s1.now }) s1)

    retry_st-Shape : (rs : List Req) (c : Context C) → Shape c₀ c → Shape c₀ (retry_st f rs c).0
    unfolding retry_st
    retry_st-Shape [] c s = s
    retry_st-Shape (r ∷ rs) c s =
        let d = try_dispatch_st f r c in
        let s1 = try_dispatch_st-Shape r c s in
        retry_st-Shape rs (if d.1 then record d.0 { has_complete_op = true } else d.0) (
          if_both (Shape c₀) d.1 _ _ (record { window_length = s1.window_length; now = s1.now }) s1)

    pub retry-Shape : (c : Context C) → Shape c₀ c → Shape c₀ (retry f c)
    unfolding retry
    retry-Shape c s =
        let r = retry_ld f c.pending_ld_list c in
        let s1 = retry_ld-Shape c.pending_ld_list c s in
        let c2 : Context C = record r.0 { pending_ld_list = r.1 } in
        let s2 : Shape c₀ c2 = record { window_length = s1.window_length; now = s1.now } in
        let s3 = retry_st-Shape c2.pending_st_list c2 s2 in
        record { window_length = s3.window_length; now = s3.now }
