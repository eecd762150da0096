-- ===== src/Cache/Geometry.antt =====
-- The index arithmetic of engine/ar_cache.h: IsPower2, FloorLog2, CeilLog2 and SplitAddress.
-- UINT32 and ADDRINT are typedefs of uint64_t there, and INT32 of int64_t.
pub mod Log
use Prim.Native.Nat.{bit_and}
use siena_mem.Base.{ℕ, ◌+◌, ◌/◌, ◌^◌, Bool, ◌==◌, if◌then◌else◌, word_max, add64, sub64}

unfoldable pub is_power2 : ℕ → Bool
is_power2 n = bit_and n (sub64 n 1) == 0

-- One line of FloorLog2: `if (n & mask) { p += shift; n >>= shift; }`.
unfoldable pub log_step : ℕ → ℕ → ℕ × ℕ → ℕ × ℕ
log_step mask shift (p, n) = if bit_and n mask == 0 then (p, n) else (p + shift, n / 2 ^ shift)

-- The five lines, from p = 0.
unfoldable pub log_steps : ℕ → ℕ × ℕ
unfolding log_step
log_steps n = log_step 2 1 (
    log_step 0x0000000c 2
      (log_step 0x000000f0 4 (log_step 0x0000ff00 8 (log_step 0xffff0000 16 (0, n)))))

-- The result -1 is the word that every caller stores it in.
unfoldable pub floor_log2 : ℕ → ℕ
floor_log2 n = if n == 0 then word_max else (log_steps n).0

unfoldable pub ceil_log2 : ℕ → ℕ
unfolding floor_log2
ceil_log2 n = add64 (floor_log2 (sub64 n 1)) 1

-- SplitAddress: the tag and the set index.
unfoldable pub split_address : ℕ → ℕ → ℕ → ℕ × ℕ
split_address line_shift set_index_mask addr =
    let tag = addr / 2 ^ line_shift in (tag, bit_and tag set_index_mask)
