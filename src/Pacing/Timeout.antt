-- ===== src/Pacing/Timeout.antt =====
-- The bounds on a short request (src/RequestTimeout.h).
use pvr_dispatcharr_unoffici.Prelude.{ℕ, ◌*◌, suc, arith}
use pvr_dispatcharr_unoffici.Prelude.Int.{pos, ◌*ℤ◌, ◌≤ℤ◌}
use pvr_dispatcharr_unoffici.Pacing.{short_request_timeout_ms}

-- For a timeout of a second or more, a short request is given some time, 30 seconds at most, never
-- more than the configured timeout, and 5 seconds at least where the timeout allows them.
pub short_request_timeout_ms_range :
    (n : ℕ)
    → let full = suc n * 1000 in
      let ms = short_request_timeout_ms (pos (suc n)) in
      (pos 1 ≤ℤ ms) × (ms ≤ℤ pos 30000) × (ms ≤ℤ pos full) × (pos 5000 ≤ℤ pos full → pos 5000 ≤ℤ ms)
unfolding short_request_timeout_ms ◌*ℤ◌
short_request_timeout_ms_range n = ground arith
