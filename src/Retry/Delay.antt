-- ===== src/Retry/Delay.antt =====
-- The delay before a segment is fetched again (`SegmentFetchRetryDelayMs` of src/SegmentFetchFailure.h).
use native.Mathlib.Nat.{pow-suc, mul_assoc, mul_comm, mul-le-mul_left, one-le-pow}
use pvr_dispatcharr_unoffici.Prelude.{
  ℕ, zero, suc, ◌-◌, ◌*◌, ◌^◌, ◌≤◌, min, ◌≡◌, refl, Bool-cases, inl, inr, ltb, arith,
}
use pvr_dispatcharr_unoffici.Retry.{double_delay, segment_fetch_retry_delay_ms}

pow_suc-mul : (delay n : ℕ) → delay * 2 * 2 ^ n ≡ delay * 2 ^ suc n
pow_suc-mul delay n = rw (pow-suc 2 n, mul_comm (2 ^ n) 2, mul_assoc) refl

over : (delay k : ℕ) → 2000 ≤ delay → 1 ≤ k → min delay 2000 ≡ min (delay * k) 2000
over delay k h one = let g = mul-le-mul_left delay one in omega arith

double_delay_lem :
    (rounds delay : ℕ)
    → 1 ≤ delay
    → min (double_delay rounds delay) 2000 ≡ min (delay * 2 ^ rounds) 2000
unfolding double_delay
double_delay_lem zero delay h = omega arith
double_delay_lem (suc rounds) delay h = elim (Bool-cases (ltb delay 2000)) [
  | inl below ↦
      rw (below, double_delay)
        (rw (double_delay_lem rounds (delay * 2) (omega arith), pow_suc-mul delay rounds) refl)
  | inr above ↦
      rw (above, double_delay)
        (over delay (2 ^ suc rounds) (ground arith) (one-le-pow (suc rounds) 2 (omega arith)))
]

-- The delay after the nth failure in a row is 250 ms doubled for each failure before it, and at most
-- 2 seconds.
pub segment_fetch_retry_delay_ms_doubles :
    (failures : ℕ) → segment_fetch_retry_delay_ms failures ≡ min (250 * 2 ^ (failures - 1)) 2000
unfolding segment_fetch_retry_delay_ms
segment_fetch_retry_delay_ms_doubles failures = double_delay_lem (failures - 1) 250 (omega arith)
