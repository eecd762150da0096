-- ===== src/Memory/Aggregate.antt =====
-- The aggregation of the reads of one line by a simulated memory of engine/ar_memobj.cpp.
use siena_mem.Base.{
  ℕ, ◌+◌, ◌≡◌, ◌≢◌, refl, sym, ap, ◌∙◌, inl, inr, Option, none, some, List, [], ◌∷◌, ◌++◌, map,
  arith, if◌then◌else◌, ◌==◌, Bool-cases, Option-cases, ==→eq, ==→ne, find, put, find-put_self,
  find-put_ne, find-erase_self,
}
use siena_mem.Types.{Req}
use siena_mem.Simulator.{MemSim, push_at}
use siena_mem.Simulator
use siena_mem.Simulator.Insert.{pending, count, one_if}
use siena_mem.Memory.{Memory, align, queue_at, load, start_complete}

-- The loads of a list of requests, one after the other.
abbrev pub run_loads : List Req → Memory → Memory
run_loads [] m = m
run_loads (r ∷ rs) m = run_loads rs (load r m).0

-- The requests of a line, in order.
abbrev pub on_line : ℕ → ℕ → List Req → List Req
on_line shift line [] = []
on_line shift line (r ∷ rs) =
    let rest = on_line shift line rs in if line == align shift r.addr then r ∷ rest else rest

-- The reads of a line that wait in the simulator's adapter.
abbrev pub reads_sent : ℕ → Memory → ℕ
reads_sent line m = elim m.simulator [ none ↦ 0 | some s ↦ pending line s.pending_ld_map ]

count-append : (a : ℕ) (l : List ℕ) (x : ℕ) → count a (l ++ x ∷ []) ≡ count a l + one_if a x
count-append a [] x = ground arith
count-append a (y ∷ l) x = let ih = count-append a l x in ground arith

pub pending-push_at :
    (a t x : ℕ) (p : List (ℕ × List ℕ)) → pending a (push_at t x p) ≡ pending a p + one_if a x
unfolding push_at
pending-push_at a t x [] = ground arith
pending-push_at a t x (e ∷ p) =
    let ih = pending-push_at a t x p in let last = count-append a e.1 x in ground arith

-- One, if no request of the line waits.
abbrev idle_of : Option (List Req) → ℕ
idle_of none = 1
idle_of (some l) = 0

abbrev waiting_of : Option (List Req) → List Req
waiting_of none = []
waiting_of (some l) = l

abbrev idle : ℕ → Memory → ℕ
idle line m = idle_of (find line m.load_queue)

append-nil : (l : List Req) → l ++ [] ≡ l
append-nil [] = refl
append-nil (x ∷ l) = ap (λ (t : List Req). x ∷ t) (append-nil l)

-- What one load of a simulated memory does to a line.
record Loaded (line : ℕ) (r : Req) (m m' : Memory) : Type 0 where
  simulated : (s : MemSim) × (m'.simulator ≡ some s)
  same_shift : m'.lineshift ≡ m.lineshift
  joined :
      queue_at line m'.load_queue
      ≡ queue_at line m.load_queue ++ (if line == align m.lineshift r.addr then r ∷ [] else [])
  sent : reads_sent line m' + idle line m' ≡ reads_sent line m + idle line m

-- The queue after a request of the line `addr` joined it, as the line `line` sees it.
record Joined (line addr : ℕ) (r : Req) (q q' : List (ℕ × List Req)) : Type 0 where
  at_line : queue_at line q' ≡ queue_at line q ++ (if line == addr then r ∷ [] else [])
  busy : line ≡ addr → idle_of (find line q') ≡ 0
  still : line ≢ addr → idle_of (find line q') ≡ idle_of (find line q)

put-Joined :
    (line addr : ℕ) (r : Req) (q : List (ℕ × List Req))
    → Joined line addr r q (put addr (queue_at addr q ++ r ∷ []) q)
put-Joined line addr r q =
    let more = queue_at addr q ++ r ∷ [] in
    let same : line ≡ addr → find line (put addr more q) ≡ some more =
      λ e. ap (λ (k : ℕ). find k (put addr more q)) e ∙ find-put_self addr more q in
    let other = find-put_ne addr line more q in
    elim (Bool-cases (line == addr)) [
      | inl e ↦
          let eq = ==→eq line addr e in
          record {
            at_line =
                rw e (ap waiting_of (same eq) ∙ ap (λ (k : ℕ). queue_at k q ++ r ∷ []) (sym eq));
            busy = λ p. ap idle_of (same p);
            still = λ n. absurd (n eq);
          }
      | inr e ↦
          let ne = ==→ne line addr e in
          record {
            at_line = rw e (ap waiting_of (other ne) ∙ sym (append-nil (queue_at line q)));
            busy = λ p. absurd (ne p);
            still = λ n. ap idle_of (other n);
          }
    ]

load-absent :
    (r : Req) (m : Memory) (s : MemSim)
    → m.simulator ≡ some s
    → find (align m.lineshift r.addr) m.load_queue ≡ none
    → ((load r m).0.simulator ≡ some (Simulator.load r.dispatch (align m.lineshift r.addr) s))
      × ((load r m).0.load_queue
          ≡ put
              (align m.lineshift r.addr)
              (queue_at (align m.lineshift r.addr) m.load_queue ++ r ∷ [])
              m.load_queue)
      × ((load r m).0.lineshift ≡ m.lineshift)
unfolding load
load-absent r m s sim absent = rw (load, sim, absent) (refl, refl, refl)

load-there :
    (r : Req) (m : Memory) (s : MemSim) (l : List Req)
    → m.simulator ≡ some s
    → find (align m.lineshift r.addr) m.load_queue ≡ some l
    → ((load r m).0.simulator ≡ some s)
      × ((load r m).0.load_queue
          ≡ put
              (align m.lineshift r.addr)
              (queue_at (align m.lineshift r.addr) m.load_queue ++ r ∷ [])
              m.load_queue)
      × ((load r m).0.lineshift ≡ m.lineshift)
unfolding load
load-there r m s l sim there = rw (load, sim, there) (sim, refl, refl)

-- The reads that an adapter has been given.
abbrev sent_of : ℕ → Option MemSim → ℕ
sent_of line none = 0
sent_of line (some s) = pending line s.pending_ld_map

sent_more :
    (line t addr : ℕ) (s : MemSim)
    → pending line (Simulator.load t addr s).pending_ld_map
      ≡ pending line s.pending_ld_map + one_if line addr
unfolding Simulator.load
sent_more line t addr s = pending-push_at line t addr s.pending_ld_map

load-Loaded :
    (line : ℕ) (r : Req) (m : Memory) (s : MemSim)
    → m.simulator ≡ some s
    → Loaded line r m (load r m).0
load-Loaded line r m s sim =
    let addr = align m.lineshift r.addr in
    let q = m.load_queue in
    let j = put-Joined line addr r q in
    let before : reads_sent line m ≡ pending line s.pending_ld_map = ap (sent_of line) sim in
    elim (Option-cases (find addr q)) [
      | inl absent ↦
          let (sim', queue, shift) = load-absent r m s sim absent in
          let after = ap (sent_of line) sim' in
          let more = sent_more line r.dispatch addr s in
          record {
            simulated = (_, sim');
            same_shift = shift;
            joined = ap (queue_at line) queue ∙ j.at_line;
            sent = elim (Bool-cases (line == addr)) [
              | inl e ↦
                  let eq = ==→eq line addr e in
                  let one : one_if line addr ≡ 1 = rw e refl in
                  omega (
                    arith,
                    before,
                    after,
                    more,
                    one,
                    ap (λ (k : List (ℕ × List Req)). idle_of (find line k)) queue,
                    j.busy eq,
                    ap (λ (k : ℕ). idle_of (find k q)) eq,
                    ap idle_of absent,
                  )
              | inr e ↦
                  let ne = ==→ne line addr e in
                  let zero_more : one_if line addr ≡ 0 = rw e refl in
                  omega (
                    arith,
                    before,
                    after,
                    more,
                    zero_more,
                    ap (λ (k : List (ℕ × List Req)). idle_of (find line k)) queue,
                    j.still ne,
                  )
            ];
          }
      | inr (l, there) ↦
          let (sim', queue, shift) = load-there r m s l sim there in
          let after = ap (sent_of line) sim' in
          record {
            simulated = (_, sim');
            same_shift = shift;
            joined = ap (queue_at line) queue ∙ j.at_line;
            sent = elim (Bool-cases (line == addr)) [
              | inl e ↦
                  let eq = ==→eq line addr e in
                  omega (
                    arith,
                    before,
                    after,
                    ap (λ (k : List (ℕ × List Req)). idle_of (find line k)) queue,
                    j.busy eq,
                    ap (λ (k : ℕ). idle_of (find k q)) eq,
                    ap idle_of there,
                  )
              | inr e ↦ omega (
                arith,
                before,
                after,
                ap (λ (k : List (ℕ × List Req)). idle_of (find line k)) queue,
                j.still (==→ne line addr e),
              )
            ];
          }
    ]

append_assoc : (a b c : List Req) → (a ++ b) ++ c ≡ a ++ (b ++ c)
append_assoc [] b c = refl
append_assoc (x ∷ a) b c = ap (λ (l : List Req). x ∷ l) (append_assoc a b c)

on_line-cons :
    (shift line : ℕ) (r : Req) (rs : List Req)
    → (if line == align shift r.addr then r ∷ [] else []) ++ on_line shift line rs
      ≡ on_line shift line (r ∷ rs)
on_line-cons shift line r rs = elim (Bool-cases (line == align shift r.addr)) [
  | inl e ↦ rw e refl
  | inr e ↦ rw e refl
]

run_loads_lem :
    (line : ℕ) (rs : List Req) (m : Memory) (s : MemSim)
    → m.simulator ≡ some s
    → (queue_at line (run_loads rs m).load_queue
        ≡ queue_at line m.load_queue ++ on_line m.lineshift line rs)
      × (reads_sent line (run_loads rs m) + idle line (run_loads rs m)
          ≡ reads_sent line m + idle line m)
run_loads_lem line [] m s sim = (sym (append-nil (queue_at line m.load_queue)), refl)
run_loads_lem line (r ∷ rs) m s sim =
    let one = load-Loaded line r m s sim in
    let (s', sim') = one.simulated in
    let (queue, sent) = run_loads_lem line rs (load r m).0 s' sim' in
    let shifted =
      ap (λ (k : ℕ). queue_at line (load r m).0.load_queue ++ on_line k line rs) one.same_shift in
    let here = if line == align m.lineshift r.addr then r ∷ [] else [] in
    (
      queue
          ∙ shifted
          ∙ ap (λ (l : List Req). l ++ on_line m.lineshift line rs) one.joined
          ∙ append_assoc (queue_at line m.load_queue) here (on_line m.lineshift line rs)
          ∙ ap (λ (l : List Req). queue_at line m.load_queue ++ l)
              (on_line-cons m.lineshift line r rs),
      sent ∙ one.sent,
    )

idle-busy : (o : Option (List Req)) (r : Req) (l : List Req) → waiting_of o ≡ r ∷ l → idle_of o ≡ 0
idle-busy none r l e = absurd (cc e)
idle-busy (some x) r l e = refl

-- A simulated memory in which no request of a line waits takes any sequence of loads of which at least one
-- is of the line. However many these are, one read of the line goes to the simulator; and when it
-- completes at `t`, exactly the requests of the line complete, at `t`, in the order in which they came.
pub start_complete-run_loads :
    (t line : ℕ) (rs : List Req) (m : Memory) (s : MemSim) (r : Req) (l : List Req)
    → m.simulator ≡ some s
    → find line m.load_queue ≡ none
    → on_line m.lineshift line rs ≡ r ∷ l
    → ((start_complete t line (run_loads rs m)).1
        ≡ map (λ (q : Req). record q { complete = t }) (on_line m.lineshift line rs))
      × (reads_sent line (run_loads rs m) ≡ reads_sent line m + 1)
      × (find line (start_complete t line (run_loads rs m)).0.load_queue ≡ none)
unfolding start_complete
start_complete-run_loads t line rs m s r l sim absent some_req =
    let (queue, sent) = run_loads_lem line rs m s sim in
    let empty : queue_at line m.load_queue ≡ [] = ap waiting_of absent in
    let all = queue ∙ ap (λ (k : List Req). k ++ on_line m.lineshift line rs) empty in
    let busy = idle-busy (find line (run_loads rs m).load_queue) r l (all ∙ some_req) in
    (
      ap (map (λ (q : Req). record q { complete = t })) all,
      omega (arith, sent, busy, ap idle_of absent),
      find-erase_self line (run_loads rs m).load_queue,
    )
