-- ===== src/Context/Slots.antt =====
-- The slots of the ports of a context of engine/ar_context.cpp: a cycle has `alu` operations, `ld` loads and
-- `st` stores.
use native.Mathlib.Nat.{div-add-mod', mod-lt, div-le_self}
use siena_mem.Base.{
  ℕ, ◌+◌, ◌-◌, ◌*◌, ◌/◌, ◌%◌, ◌≤◌, ◌<◌, ◌≡◌, refl, ◌∙◌, ◌⊎◌, inl, inr, true, false, some, arith,
  ltb, leb, ◌==◌, ltb→lt, ltb→le, if◌then◌else◌, Bool-cases, ==→eq, ==→ne, ne→==, word, add64,
  add64-eq, sub64, sub64-eq, mul64, mul64-eq,
}
use siena_mem.Types.{Req}
use siena_mem.Context.{Context, L1, take_alu, try_dispatch_ld, try_dispatch_st}

abbrev pub max : ℕ → ℕ → ℕ
max a b = if ltb b a then a else b

-- The number of the next slot of a port with `width` slots in a cycle, of which `avail` are left in cycle `t`.
abbrev pub slot : ℕ → ℕ → ℕ → ℕ
slot t width avail = t * width + (width - avail)

-- The slots that are left.
abbrev pub InWidth : ℕ → ℕ → Type 0
InWidth avail width = (0 < avail) × (avail ≤ width)

-- The carry into the following cycles: `r` operations beyond a cycle that is full.
carry :
    (r t alu : ℕ)
    → 0 < alu
    → alu < word
    → t + r + 1 < word
    → (sub64 alu (sub64 r (mul64 (r / alu) alu)) ≡ alu - r % alu)
      × (add64 (add64 t 1) (r / alu) ≡ t + 1 + r / alu)
carry r t alu pos narrow fits =
    let exact = div-add-mod' r alu in
    let below = mod-lt r pos in
    let product = mul64-eq (r / alu) alu (omega (arith, exact)) in
    let rest : sub64 r (r / alu * alu) ≡ r % alu =
      sub64-eq r (r / alu * alu) (omega arith) (omega arith) ∙ omega (arith, exact) in
    let first = add64-eq t 1 (omega arith) in
    (
      rw (product, rest) (sub64-eq alu (r % alu) (omega (arith, below)) narrow),
      rw first (add64-eq (t + 1) (r / alu) (omega (arith, div-le_self r alu))),
    )

carry_slot :
    (r t alu : ℕ)
    → 0 < alu
    → InWidth (alu - r % alu) alu × (slot (t + 1 + r / alu) alu (alu - r % alu) ≡ (t + 1) * alu + r)
carry_slot r t alu pos =
    let below = mod-lt r pos in
    ((omega (arith, below), omega arith), omega (arith, below, div-add-mod' r alu))

leb→le : (a b : ℕ) → leb a b ≡ true → a ≤ b
leb→le a b h = ground arith

leb→lt : (a b : ℕ) → leb a b ≡ false → b < a
leb→lt a b h = ground arith

-- One slot of a port.
port_slot :
    (t width avail : ℕ)
    → InWidth avail width
    → width < word
    → t + 1 < word
    → let rest = sub64 avail 1 in
      let avail' = if rest == 0 then width else rest in
      let t' = if rest == 0 then add64 t 1 else t in
      InWidth avail' width × (slot t' width avail' ≡ slot t width avail + 1)
port_slot t width avail (pos, le) narrow fits =
    let rest : sub64 avail 1 ≡ avail - 1 = sub64-eq avail 1 (omega arith) (omega arith) in
    let next = add64-eq t 1 fits in
    elim (Bool-cases (avail - 1 == 0)) [
      | inl z ↦
          let last = ==→eq (avail - 1) 0 z in
          rw (rest, z, next) ((omega arith, omega arith), omega arith)
      | inr z ↦
          let more = ==→ne (avail - 1) 0 z in rw (rest, z) ((omega arith, omega arith), omega arith)
    ]

module _ {C : Type 0} (c : Context C) where
  -- No more operations than slots that are left.
  in_cycle :
      (comp : ℕ)
      → comp ≤ c.avail_alu
      → ltb c.avail_alu comp ≡ false
      → InWidth c.avail_alu c.alu
      → c.alu < word
      → max c.t_alu c.t_cpu + comp + 1 < word
      → (c' : Context C) × (take_alu comp c ≡ some c')
        × InWidth c'.avail_alu c.alu
        × (slot c'.t_alu c.alu c'.avail_alu ≡ slot (max c.t_alu c.t_cpu) c.alu c.avail_alu + comp)
  unfolding take_alu
  in_cycle comp few e (pos, le) narrow fits =
      let t = max c.t_alu c.t_cpu in
      let alu_pos : 0 < c.alu = omega arith in
      let left : sub64 c.avail_alu comp ≡ c.avail_alu - comp =
        sub64-eq c.avail_alu comp few (omega arith) in
      let rest : sub64 comp comp ≡ 0 =
        sub64-eq comp comp (omega arith) (omega (arith, fits)) ∙ omega arith in
      elim (Bool-cases (c.avail_alu - comp == 0)) [
        | inl z ↦
            let exact = ==→eq (c.avail_alu - comp) 0 z in
            let (avail, time) = carry 0 t c.alu alu_pos narrow (omega (arith, fits)) in
            let (inside, at) = carry_slot 0 t c.alu alu_pos in
            (
              record c { avail_alu = c.alu - 0 % c.alu; t_alu = t + 1 + 0 / c.alu },
              rw (e, left, z, ne→== c.alu 0 (omega (arith, alu_pos)), rest, avail, time) refl,
              inside,
              omega (arith, at, exact, few, le),
            )
        | inr z ↦
            let some_left = ==→ne (c.avail_alu - comp) 0 z in
            (
              record c { avail_alu = c.avail_alu - comp; t_alu = t },
              rw (e, left, z) refl,
              (omega arith, omega arith),
              omega (arith, few, le),
            )
      ]

  -- If the ALU has between one and `alu` slots left in its cycle and its cycle does not wrap, taking
  -- slots for `comp` operations succeeds: the next slot is then `comp` further, counted from the
  -- context's cycle on, and there is a slot left in the cycle at which the ALU stops.
  pub take_alu-slot :
      (comp : ℕ)
      → InWidth c.avail_alu c.alu
      → c.alu < word
      → max c.t_alu c.t_cpu + comp + 1 < word
      → (c' : Context C) × (take_alu comp c ≡ some c')
        × InWidth c'.avail_alu c.alu
        × (slot c'.t_alu c.alu c'.avail_alu ≡ slot (max c.t_alu c.t_cpu) c.alu c.avail_alu + comp)
  unfolding take_alu
  take_alu-slot comp (pos, le) narrow fits =
      let t = max c.t_alu c.t_cpu in
      let alu_pos : 0 < c.alu = omega arith in
      let no_zero = ne→== c.alu 0 (omega (arith, alu_pos)) in
      elim (Bool-cases (ltb c.avail_alu comp)) [
        | inl e ↦
            let more = ltb→lt c.avail_alu comp e in
            let r = comp - c.avail_alu in
            let rest : sub64 comp c.avail_alu ≡ r =
              sub64-eq comp c.avail_alu (omega (arith, more)) (omega (arith, fits)) in
            let full : sub64 c.avail_alu c.avail_alu ≡ 0 =
              sub64-eq c.avail_alu c.avail_alu (omega arith) (omega arith) ∙ omega arith in
            let (avail, time) = carry r t c.alu alu_pos narrow (omega (arith, fits, more)) in
            let (inside, at) = carry_slot r t c.alu alu_pos in
            (
              record c { avail_alu = c.alu - r % c.alu; t_alu = t + 1 + r / c.alu },
              rw (e, full, no_zero, rest, avail, time) refl,
              inside,
              omega (arith, at, more, le),
            )
        | inr e ↦ in_cycle comp (ltb→le c.avail_alu comp e) e (pos, le) narrow fits
      ]

  -- If the load port has between one and `ld` slots left in its cycle and its cycle does not wrap: a
  -- load is dispatched where its time has come on the port and the line buffers are not full; it takes
  -- the next slot of the port, from the context's cycle on, and goes to the cache with the cycle of
  -- that slot, and the port has a slot left. Otherwise nothing happens but that the port's cycle
  -- catches up.
  pub try_dispatch_ld-slot :
      (f : L1 C) (req : Req)
      → InWidth c.avail_ld c.ld
      → c.ld < word
      → max c.t_ld c.t_cpu + 1 < word
      → let t = max c.t_ld c.t_cpu in
        let (c', success) = try_dispatch_ld f req c in
        ((success ≡ true)
          × (req.dispatch ≤ t)
          × (f.num_pending_cl c.l1 < c.lfb_depth)
          × InWidth c'.avail_ld c.ld
          × (slot c'.t_ld c.ld c'.avail_ld ≡ slot t c.ld c.avail_ld + 1)
          × (c'.l1 ≡ (f.load (record req { dispatch = t }) c.l1).0))
        ⊎ ((success ≡ false)
            × ((t < req.dispatch) ⊎ (c.lfb_depth ≤ f.num_pending_cl c.l1))
            × (c' ≡ record c { t_ld = t }))
  unfolding try_dispatch_ld
  try_dispatch_ld-slot f req inside narrow fits =
      let t = max c.t_ld c.t_cpu in
      let (left, next) = port_slot t c.ld c.avail_ld inside narrow fits in
      elim (Bool-cases (leb req.dispatch t)) [
        | inr e ↦ inr (rw (e, try_dispatch_ld) (refl, inl (leb→lt req.dispatch t e), refl))
        | inl e ↦ elim (Bool-cases (ltb (f.num_pending_cl c.l1) c.lfb_depth)) [
          | inr e' ↦ inr (
              rw (e, e', try_dispatch_ld)
                (refl, inr (ltb→le (f.num_pending_cl c.l1) c.lfb_depth e'), refl))
          | inl e' ↦ inl (
              rw (e, e', try_dispatch_ld)
                (
                  refl,
                  leb→le req.dispatch t e,
                  ltb→lt (f.num_pending_cl c.l1) c.lfb_depth e',
                  left,
                  next,
                  refl,
                ))
        ]
      ]

  -- If the store port has between one and `st` slots left in its cycle and its cycle does not wrap: a
  -- store is dispatched where its time has come on the port; it takes the next slot of the port, from
  -- the context's cycle on, and goes to the cache with the cycle of that slot, and the port has a slot
  -- left. Otherwise nothing happens but that the port's cycle catches up.
  pub try_dispatch_st-slot :
      (f : L1 C) (req : Req)
      → InWidth c.avail_st c.st
      → c.st < word
      → max c.t_st c.t_cpu + 1 < word
      → let t = max c.t_st c.t_cpu in
        let (c', success) = try_dispatch_st f req c in
        ((success ≡ true)
          × (req.dispatch ≤ t)
          × InWidth c'.avail_st c.st
          × (slot c'.t_st c.st c'.avail_st ≡ slot t c.st c.avail_st + 1)
          × (c'.l1 ≡ (f.store (record req { dispatch = t }) c.l1).0))
        ⊎ ((success ≡ false) × (t < req.dispatch) × (c' ≡ record c { t_st = t }))
  unfolding try_dispatch_st
  try_dispatch_st-slot f req inside narrow fits =
      let t = max c.t_st c.t_cpu in
      let (left, next) = port_slot t c.st c.avail_st inside narrow fits in
      elim (Bool-cases (leb req.dispatch t)) [
        | inr e ↦ inr (rw (e, try_dispatch_st) (refl, leb→lt req.dispatch t e, refl))
        | inl e ↦ inl (rw (e, try_dispatch_st) (refl, leb→le req.dispatch t e, left, next, refl))
      ]
