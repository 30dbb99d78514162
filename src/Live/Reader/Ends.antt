-- ===== src/Live/Reader/Ends.antt =====
-- When a read of the live stream answers 0, which the player takes for the end
-- (`ReadLiveTimeshiftStreamOnce` of src/DispatcharrClient.cpp).
use pvr_dispatcharr_unoffici.Prelude.{◌-◌, ◌≡◌, ◌≢◌, Bool, if◌then◌else◌}
use pvr_dispatcharr_unoffici.Prelude.Int.{ℤ, pos, pos_part}
use pvr_dispatcharr_unoffici.CatchUp.{
  TailWaitOutcome, waited_ms, decide_tail_wait_outcome, compute_catch_up_wall_clock_budget_ms,
  compute_live_tail_wait_budget_ms,
}
use pvr_dispatcharr_unoffici.Live.{segment_t}
use pvr_dispatcharr_unoffici.Live.Calls.{skip_rolled_off}
use pvr_dispatcharr_unoffici.Live.Reader.{Reader, Env, catch_up_sleep_ms}
use pvr_dispatcharr_unoffici.Live.Reader.Pass.{
  WaitEnd, Next, says, goes_on, catch_up_attempts, enter_tail,
}
use pvr_dispatcharr_unoffici.Live.Reader.Pass.Once.{is_heartbeat_due, heartbeat_sent}
use pvr_dispatcharr_unoffici.Live.Reader.Rounds.{Tells}

abbrev tail_outcome : Env → ℤ → Reader → Bool → Bool → TailWaitOutcome
tail_outcome env budget_ms r answered probe =
    decide_tail_wait_outcome probe (waited_ms (r.tail_wait) (env.waited_at))
      (compute_live_tail_wait_budget_ms probe budget_ms answered)

-- What the loop comes to, for the wait begun in the state `before`.
abbrev Told : Env → Reader → WaitEnd → Type 0
Told env before w =
    Tells env
      (compute_catch_up_wall_clock_budget_ms (catch_up_attempts env before) catch_up_sleep_ms) 0
      (pos_part (catch_up_attempts env before) - 1) (enter_tail env before) w

-- The state in which a read comes to the tail: its position has been moved up, and the heartbeat sent.
abbrev pub entered : Env → Reader → Reader
entered env r =
    let moved = record r { stream = skip_rolled_off (r.stream) } in
    if is_heartbeat_due env moved then heartbeat_sent env moved else moved

-- A heartbeat goes on in a state `before`, or the read answers -1.
abbrev Beats : Reader → Next → Type 0
Beats before (says answer r) = answer ≢ pos 0
Beats before (goes_on r gave_up) = r ≡ before
