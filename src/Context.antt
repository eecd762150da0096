-- ===== src/Context.antt =====
-- engine/ar_context.cpp: the window of a thread, its ports, and how an operation is dispatched and
-- completed. The first-level cache is not part of a context: `l1` is its state, and the calls of it are
-- the arguments of an L1. A write outside the window, which the source does not check, changes nothing.
pub mod Slots
use siena_mem.Base.{
  div?, ◌>>=◌, ℕ, zero, suc, ◌+◌, ◌*◌, ◌/◌, Bool, true, false, ◌&&◌, Option, none, some, List, [],
  ◌∷◌, ◌++◌, ltb, leb, ◌==◌, if◌then◌else◌, get_elem?, set, add64, sub64, mul64,
}
use siena_mem.DataNode.{OpType}
use siena_mem.Types.{Req}

-- OP_STATUS_T
pub data Status : Type 0 where
  issued pending ready dispatched completed : Status

-- OP_T, with the fields that dispatching reads.
pub record Op : Type 0 where
  pub status : Status
  pub pos : ℕ
  pub prev : ℕ
  pub type : OpType
  pub comp : ℕ
  pub addr : ℕ
  pub dispatch : ℕ
  pub complete : ℕ
  pub mem_ptr : ℕ
  pub next : List ℕ

-- The calls of CacheObj: load and store with the completion time they return, and get_num_pending_cl.
pub record L1 (C : Type 0) : Type 0 where
  pub load : Req → C → C × ℕ
  pub store : Req → C → C × ℕ
  pub num_pending_cl : C → ℕ

-- A Context, as far as dispatching reads it.
pub record Context (C : Type 0) : Type 0 where
  pub tid : ℕ
  pub window : List Op
  pub lfb_depth : ℕ
  pub alu : ℕ
  pub ld : ℕ
  pub st : ℕ
  pub avail_alu : ℕ
  pub avail_ld : ℕ
  pub avail_st : ℕ
  pub t_cpu : ℕ
  pub t_alu : ℕ
  pub t_ld : ℕ
  pub t_st : ℕ
  pub has_complete_op : Bool
  pub l1 : C
  pub pending_ld_list : List Req
  pub pending_st_list : List Req

abbrev later : ℕ → ℕ → ℕ
later a b = if ltb b a then a else b

-- A write of an operation at its place in the window; out of range changes nothing.
abbrev pub mark : ℕ → Status → ℕ → List Op → List Op
mark pos status complete w = elim (get_elem? w pos) [
  | none ↦ w
  | some op ↦ set w pos (record op { status = status; complete = complete })
]

module _ {C : Type 0} where
  -- init_ports
  unfoldable pub init_ports : Context C → Context C
  init_ports c = record c {
    t_cpu = 0;
    t_alu = 1;
    avail_alu = c.alu;
    t_ld = 1;
    avail_ld = c.ld;
    t_st = 1;
    avail_st = c.st;
  }

  -- complete_op
  unfoldable pub complete_op : Req → Context C → Context C
  complete_op req c = elim (get_elem? c.window req.pos) [
    | none ↦ c
    | some op ↦ record c {
      window = set c.window req.pos (record op { complete = req.complete });
      has_complete_op = true;
    }
  ]

  -- The part of `dispatch` that takes the ALU's slots for `comp` operations. `none` is a division by 0.
  unfoldable pub take_alu : ℕ → Context C → Option (Context C)
  take_alu comp c =
      let t_alu = later c.t_alu c.t_cpu in
      let min = if ltb c.avail_alu comp then c.avail_alu else comp in
      let rest = sub64 comp min in
      let avail_alu = sub64 c.avail_alu min in
      if avail_alu == 0
      then (do
        dt ← div? rest c.alu
        let dc = sub64 rest (mul64 dt c.alu)
        some (record c { avail_alu = sub64 c.alu dc; t_alu = add64 (add64 t_alu 1) dt }))
      else some (record c { avail_alu = avail_alu; t_alu = t_alu })

  module _ (f : L1 C) where
    -- try_dispatch_ld: the context and whether the load was dispatched.
    unfoldable pub try_dispatch_ld : Req → Context C → Context C × Bool
    try_dispatch_ld req c =
        let t_ld = later c.t_ld c.t_cpu in
        if leb req.dispatch t_ld && ltb (f.num_pending_cl c.l1) c.lfb_depth
        then (let avail = sub64 c.avail_ld 1 in
            let (l1, complete) = f.load (record req { dispatch = t_ld }) c.l1 in
            (
              record c {
                avail_ld = if avail == 0 then c.ld else avail;
                t_ld = if avail == 0 then add64 t_ld 1 else t_ld;
                l1 = l1;
                window = mark req.pos dispatched complete c.window;
              },
              true,
            ))
        else (record c { t_ld = t_ld }, false)

    -- try_dispatch_st
    unfoldable pub try_dispatch_st : Req → Context C → Context C × Bool
    try_dispatch_st req c =
        let t_st = later c.t_st c.t_cpu in
        if leb req.dispatch t_st
        then (let avail = sub64 c.avail_st 1 in
            let t' = if avail == 0 then add64 t_st 1 else t_st in
            let (l1, complete) = f.store (record req { dispatch = t_st }) c.l1 in
            (
              record c {
                avail_st = if avail == 0 then c.st else avail;
                t_st = t';
                l1 = l1;
                window = mark req.pos dispatched t' c.window;
              },
              true,
            ))
        else (record c { t_st = t_st }, false)

    -- What becomes of the request of a load or a store: it goes out, or it waits in a list and its
    -- operation is pending.
    unfoldable pub send_load : Req → ℕ → Context C → Context C
    unfolding try_dispatch_ld
    send_load req i c =
        let (c', success) = try_dispatch_ld req c in
        if success then c' else record c' {
          pending_ld_list = c'.pending_ld_list ++ req ∷ [];
          window = elim (get_elem? c'.window i) [
            | none ↦ c'.window
            | some op ↦ set c'.window i (record op { status = pending })
          ];
        }

    unfoldable pub send_store : Req → ℕ → Context C → Context C
    unfolding try_dispatch_st
    send_store req i c =
        let (c', success) = try_dispatch_st req c in
        if success then c' else record c' {
          pending_st_list = c'.pending_st_list ++ req ∷ [];
          window = elim (get_elem? c'.window i) [
            | none ↦ c'.window
            | some op ↦ set c'.window i (record op { status = pending })
          ];
        }

    -- The request of an operation.
    abbrev pub request : Op → Context C → Req
    request op c = record {
      addr = op.addr;
      dispatch = op.dispatch;
      ctx = c.tid;
      pos = op.pos;
      mem = some op.mem_ptr;
      prev = none;
      complete = 0;
    }

    -- The switch of `dispatch` on the operation at `i`; `none` is the PANIC.
    unfoldable pub send : Op → ℕ → Context C → Option (Context C)
    unfolding send_load send_store
    send op i c = elim op.type [
      | OpType.load ↦ some (send_load (request op c) i c)
      | OpType.store ↦ some (send_store (request op c) i c)
      | _ ↦ none
    ]

    -- The assertion of dispatch that no operation is left over cannot fail: either the slots are enough, or they are
    -- used up and `comp` is set to 0.
    -- dispatch of the operation at `i` of the window; `none` is a PANIC, a division by 0 or an index that is
    -- out of range.
    unfoldable pub dispatch : ℕ → Context C → Option (Context C)
    unfolding take_alu send
    dispatch i c = elim (get_elem? c.window i) [
      | none ↦ none
      | some op ↦
          if ltb 0 op.prev
          then some
              (record c { window = set c.window i (record op { status = pending; dispatch = 0 }) })
          else (do
            c1 ← (if ltb 0 op.comp then take_alu op.comp c else some c)
            let op' : Op = record op {
              dispatch = if ltb 0 op.comp then c1.t_alu else c.t_cpu;
              comp = 0;
            }
            send op' i (record c1 { window = set c1.window i op' }))
    ]
