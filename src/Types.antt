-- ===== src/Types.antt =====
-- engine/ar_typedef.h: the request that travels between the parts, the ids of the objects it points to
-- in place of the pointers, and gcd.
pub mod Gcd
use siena_mem.Base.{ℕ, zero, suc, ◌+◌, ◌%◌, Option, ◌==◌, if◌then◌else◌}

-- REQ_T
pub record Req : Type 0 where
  pub addr : ℕ
  pub dispatch : ℕ
  pub ctx : ℕ
  pub pos : ℕ
  pub mem : Option ℕ
  pub prev : Option ℕ
  pub complete : ℕ

-- gcd, with the second argument and one more as fuel: it falls at every call.
unfoldable pub gcd_steps : ℕ → ℕ → ℕ → ℕ
gcd_steps zero a b = a
gcd_steps (suc fuel) a b = let rest = gcd_steps fuel b (a % b) in if b == 0 then a else rest

unfoldable pub gcd : ℕ → ℕ → ℕ
unfolding gcd_steps
gcd a b = gcd_steps (suc b) a b
