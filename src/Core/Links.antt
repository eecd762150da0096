-- ===== src/Core/Links.antt =====
-- Which cache a thread gets by the connections of engine/ar_core.cpp.
use siena_mem.Base.{
  ℕ, zero, suc, ◌+◌, ◌*◌, ◌/◌, ◌%◌, ◌<◌, ◌≡◌, refl, sym, ap, ◌∙◌, inl, inr, some, List, [], ◌∷◌,
  arith, leb, if◌then◌else◌, length, get_elem?, add64, add64-eq, word, Bool-cases, ne→==, eq→==,
}
use native.Mathlib.Nat.{
  mul_comm, add-mod_left, mod-lt, mod-eq_of_lt, div-lt_iff_lt-mul, div-mul_cancel,
  dvd_of_mod-eq-zero,
}
use siena_mem.Core.{
  Core, CoreGroup, init_cores, init_group, connect_from, connect_cache, link_from, link_core_ctx,
}

-- Each core has the cache that its place, divided by the stride, gives.
abbrev Connected : ℕ → ℕ → List Core → Type 0
Connected stride first cs =
    (i : ℕ)
    → i < length cs
    → (c : Core) × (get_elem? cs i ≡ some c) × (c.l1 ≡ some ((first + i) / stride))

length-init_cores : (n : ℕ) (g : CoreGroup) → length (init_cores n g) ≡ n
unfolding init_cores
length-init_cores zero g = refl
length-init_cores (suc n) g = ap suc (length-init_cores n g)

connect_from_lem :
    (stride first : ℕ) (cs : List Core)
    → 0 < stride
    → first + length cs < word
    → (ds : List Core) × (connect_from stride first cs ≡ some ds)
      × (length ds ≡ length cs)
      × Connected stride first ds
unfolding connect_from
connect_from_lem stride first [] h b = ([], refl, refl, λ i l. absurd (omega arith))
connect_from_lem stride first (c ∷ cs) h b =
    let next : add64 first 1 ≡ first + 1 = add64-eq first 1 (omega arith) in
    let (ds, run, len, all) = connect_from_lem stride (first + 1) cs h (omega arith) in
    let step : connect_from stride (add64 first 1) cs ≡ some ds =
      ap (λ x. connect_from stride x cs) next ∙ run in
    let d : Core = record c { l1 = some (first / stride) } in
    (
      d ∷ ds,
      rw (ne→== stride 0 (omega arith), step) refl,
      ap suc len,
      λ i l.
          elim i
              as (λ k.
                k ≡ i
                → (x : Core) × (get_elem? (d ∷ ds) k ≡ some x)
                  × (x.l1 ≡ some ((first + k) / stride))) [
                    | zero ↦ λ e. (d, refl, ap (λ t. some (t / stride)) (omega arith))
                    | suc k ↦ λ e.
                        let (x, found, l1) = all k (omega arith) in
                        (x, found, l1 ∙ ap (λ t. some (t / stride)) (omega arith))
                  ]
            refl,
    )

wraps : (n id t : ℕ) → id < n → ((if leb n (id + 1) then 0 else id + 1) + t) % n ≡ (id + suc t) % n
wraps n id t h = elim (Bool-cases (leb n (id + 1))) [
  | inl e ↦
      let last : n ≡ id + 1 = ground arith in
      let zero_t : 0 + t ≡ t = omega arith in
      let full : n + t ≡ id + suc t = omega (arith, last) in
      rw e (ap (λ x. x % n) zero_t ∙ sym (add-mod_left n t) ∙ ap (λ x. x % n) full)
  | inr e ↦ let one : id + 1 + t ≡ id + suc t = omega arith in rw e (ap (λ x. x % n) one)
]

turns : (n id : ℕ) → id < n → (if leb n (id + 1) then 0 else id + 1) < n
turns n id h = ground arith

link_from_lem :
    (stride : ℕ) (cs : List Core) (m id : ℕ)
    → Connected stride 0 cs
    → id < length cs
    → length cs < word
    → (l : List ℕ) × (link_from cs m id ≡ some l)
      × (length l ≡ m)
      × ((t : ℕ) → t < m → get_elem? l t ≡ some ((id + t) % length cs / stride))
unfolding link_from
link_from_lem stride cs zero id c h b = ([], refl, refl, λ t l. absurd (omega arith))
link_from_lem stride cs (suc m) id c h b =
    let (c', found, l1) = c id h in
    let n = length cs in
    let l1' : c'.l1 ≡ some (id / stride) = l1 ∙ ap (λ v. some (v / stride)) (omega arith) in
    let next : add64 id 1 ≡ id + 1 = add64-eq id 1 (omega arith) in
    let id' = if leb n (id + 1) then 0 else id + 1 in
    let (l, run, len, all) = link_from_lem stride cs m id' c (turns n id h) b in
    let step : link_from cs m (if leb n (add64 id 1) then 0 else add64 id 1) ≡ some l =
      ap (λ x. link_from cs m (if leb n x then 0 else x)) next ∙ run in
    (
      id / stride ∷ l,
      rw (found, l1', step) refl,
      ap suc len,
      λ t lt.
          elim t as (λ k. k ≡ t → get_elem? (id / stride ∷ l) k ≡ some ((id + k) % n / stride)) [
            | zero ↦ λ e.
                ap (λ v. some (v / stride)) (sym (mod-eq_of_lt h) ∙ ap (λ v. v % n) (omega arith))
            | suc k ↦ λ e. all k (omega arith) ∙ ap (λ v. some (v / stride)) (wraps n id k h)
          ]
            refl,
    )

connect_cache_lem :
    (k n : ℕ) (g : CoreGroup) (ds : List Core)
    → length g.core_list ≡ n
    → 0 < k
    → n % k ≡ 0
    → connect_from (n / k) 0 g.core_list ≡ some ds
    → connect_cache k g ≡ some (record g { core_list = ds })
unfolding connect_cache
connect_cache_lem k n g ds e h z run = rw (e, ne→== k 0 (omega arith), eq→== (n % k) 0 z, run) refl

positive : (a k n : ℕ) → 0 < n → a * k ≡ n → 0 < a
positive zero k n h e = absurd (omega (arith, e))
positive (suc a) k n h e = omega arith

-- In a new group of `n` cores that is connected to `k` caches, of which n is a multiple, the threads are
-- linked to the cores in turn, and the thread t gets the cache (t mod n) / (n / k), which is one of the k.
pub link_core_ctx-connect_cache :
    (n k m t : ℕ)
    → 0 < n
    → 0 < k
    → n % k ≡ 0
    → n < word
    → t < m
    → (g : CoreGroup) × (l : List ℕ) × (connect_cache k (init_group n) ≡ some g)
      × (link_core_ctx m g ≡ some l)
      × (length l ≡ m)
      × (get_elem? l t ≡ some (t % n / (n / k)))
      × (t % n / (n / k) < k)
unfolding init_group link_core_ctx
link_core_ctx-connect_cache n k m t h p z b lt =
    let stride = n / k in
    let size = length-init_cores n (record (init_group n) { core_list = [] }) in
    let whole : stride * k ≡ n = div-mul_cancel k (dvd_of_mod-eq-zero k z) in
    let some_stride : 0 < stride = positive stride k n h whole in
    let (ds, run, len, all) =
      connect_from_lem stride 0 (init_group n).core_list some_stride (omega (arith, size)) in
    let count : length ds ≡ n = len ∙ size in
    let (l, linked, len', each) =
      link_from_lem stride ds m 0 all (omega (arith, count)) (omega (arith, count)) in
    let g' : CoreGroup = record (init_group n) { core_list = ds } in
    let zero_t : 0 + t ≡ t = omega arith in
    let place : (0 + t) % length ds / stride ≡ t % n / stride =
      ap (λ x. x % length ds / stride) zero_t ∙ ap (λ x. t % x / stride) count in
    let below : t % n < k * stride = omega (arith, mod-lt t h, whole, mul_comm stride k) in
    (
      g',
      l,
      connect_cache_lem k n (init_group n) ds size p z run,
      linked,
      len',
      each t lt ∙ ap some place,
      (div-lt_iff_lt-mul some_stride).1 below,
    )
