-- ===== src/CatchUp/Bounds.antt =====
-- How long a wait at the tail may take (src/CatchUpUtil.h).
use pvr_dispatcharr_unoffici.Prelude.{ℕ, ◌≤◌, false, List, arith}
use pvr_dispatcharr_unoffici.Prelude.Int.{ℤ, pos, ◌+ℤ◌, ◌*ℤ◌, ◌≤ℤ◌, ◌<ℤ◌, negsuc}
use pvr_dispatcharr_unoffici.Segments.{SegmentT}
use pvr_dispatcharr_unoffici.CatchUp.{
  estimate_segment_duration_ms, compute_catch_up_attempts, compute_catch_up_wall_clock_budget_ms,
}

module _ {S : Type 0} ⦃seg : SegmentT S⦄ where
  -- The estimate lies between 1.5 and 60 seconds, whatever the segments say.
  pub estimate_range :
      (total : ℤ) (segments : List S)
      → (pos 1500 ≤ℤ estimate_segment_duration_ms total segments)
        × (estimate_segment_duration_ms total segments ≤ℤ pos 60000)
  unfolding estimate_segment_duration_ms
  estimate_range total segments = ground arith

-- The attempts and the budget of a wait whose estimate is a number `n`.
abbrev pub Covers : ℤ → Type 0
Covers estimate_ms =
    let attempts = compute_catch_up_attempts false estimate_ms 250 in
    let budget_ms = compute_catch_up_wall_clock_budget_ms attempts 250 in
    (attempts ≤ℤ pos 721)
    × (estimate_ms *ℤ pos 3 <ℤ attempts *ℤ pos 250)
    × (pos 9500 ≤ℤ budget_ms)
    × (budget_ms ≤ℤ pos 120000)

covers : (n : ℕ) → 1500 ≤ n → n ≤ 60000 → Covers (pos n)
unfolding compute_catch_up_attempts compute_catch_up_wall_clock_budget_ms ◌*ℤ◌ ◌+ℤ◌
covers n lo hi = ground arith

module _ {S : Type 0} ⦃seg : SegmentT S⦄ where
  -- A wait at the tail that is no seek probe, with a refresh every 250 ms, tries at most 721 times,
  -- for more than three estimated segments, and its wall-clock budget is at least 9.5 seconds and
  -- at most two minutes, whatever the segments say.
  pub catch_up-Covers :
      (total : ℤ) (segments : List S) → Covers (estimate_segment_duration_ms total segments)
  catch_up-Covers total segments = of_number _ (estimate_range total segments)
    where
      of_number : (e : ℤ) → (pos 1500 ≤ℤ e) × (e ≤ℤ pos 60000) → Covers e
      of_number (pos n) (lo, hi) = covers n (omega arith) (omega arith)
      of_number (negsuc n) (lo, hi) = absurd (omega arith)
