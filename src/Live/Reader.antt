-- ===== src/Live/Reader.antt =====
-- A whole read of the live stream: `ReadLiveTimeshiftStream`, `ReadLiveTimeshiftStreamOnce` and
-- `HandleLiveTimeshiftSegmentFetchFailure` of src/DispatcharrClient.cpp. The clock, the network and
-- the other threads come in as an environment.
pub mod Pass
pub mod Fetching
pub mod FetchKeeps
pub mod Rounds
pub mod Ends
pub mod Sleeps
pub mod Others
pub mod Keeps
pub mod Loop
mod Examples
use pvr_dispatcharr_unoffici.Prelude.{
  ℕ, zero, suc, ◌+◌, Bool, true, false, ◌&&◌, ◌||◌, not, Option, none, some, ◌==◌, if◌then◌else◌,
}
use pvr_dispatcharr_unoffici.Prelude.Int.{
  ℤ, pos, negsuc, pos_part, ◌+ℤ◌, ◌-ℤ◌, ◌*ℤ◌, ltb_ℤ, leb_ℤ, eqb_ℤ, min_ℤ,
}
use pvr_dispatcharr_unoffici.Position.{compute_segment_read_size}
use pvr_dispatcharr_unoffici.Segments.{find_segment_containing_position, is_at_ended_tail}
use pvr_dispatcharr_unoffici.CatchUp.{
  to_ms, is_unset, TailWaitEpisode, TailWaitOutcome, new_episode, enter, touch, waited_ms, retry,
  give_up, decide_tail_wait_outcome, estimate_segment_duration_ms, compute_catch_up_attempts,
  compute_catch_up_wall_clock_budget_ms, has_catch_up_budget_elapsed, is_likely_seek_probe,
  compute_short_give_up_position, has_tail_wait_slice_elapsed, live_tail_give_up_result,
  compute_live_tail_wait_budget_ms, live_tail_wait_slice_ms,
}
use pvr_dispatcharr_unoffici.Retry.{
  should_give_up_after_segment_fetch_failure, segment_fetch_retry_delay_ms, LiveSegmentOutcome,
  LiveSegmentRetryStep, classify_live_segment_response, transport_failure, segment_gone,
  range_ignored, unexpected_status, size_mismatch, ok, decide_live_segment_retry_step, try_again,
  hand_back, stop,
}
use pvr_dispatcharr_unoffici.Live.{Segment, segment_t, Stream}
use pvr_dispatcharr_unoffici.Live.Calls.{skip_rolled_off}

-- The stream with the members of `LiveTimeshiftStreamState` that only a read uses, and how long the
-- reads have slept behind failed fetches.
pub record Reader : Type 0 where
  pub stream : Stream
  pub last_seek_time : ℤ
  pub last_short_give_up_position : ℤ
  pub tail_wait : TailWaitEpisode
  pub has_viewer : Bool
  pub last_heartbeat_sent : ℤ
  pub consecutive_failures : ℕ
  pub first_failure_at : ℤ
  pub fatal_notified : Bool
  pub slept_ms : ℕ

-- A time without the state lock: what it does to the stream and to the time of the last seek, and
-- whether the stream is still the same when the lock is taken again (`stillSameStream()`). Where it
-- is not, the read ends at once, and the state is no longer this stream's.
pub record Away : Type 0 where
  pub stream : Stream → Stream
  pub seek_time : ℤ → ℤ
  pub same : Bool

abbrev pub unlocked : Away → Reader → Reader
unlocked a r = record r {
  stream = a.stream (r.stream);
  last_seek_time = a.seek_time (r.last_seek_time);
}

-- One round of the wait at the tail: its refresh, what that answered, the clock at the two checks
-- behind it, and its sleep.
pub record Round : Type 0 where
  pub refresh : Away
  pub answered : Bool
  pub fatal : Bool
  pub checked_at : ℤ
  pub sliced_at : ℤ
  pub sleep : Away

-- What a failed fetch meets. `lost` tells that the file server did not answer the probe of it.
pub record Failing : Type 0 where
  pub counted_at : ℤ
  pub refresh : Away
  pub refresh_fatal : Bool
  pub judged_at : ℤ
  pub lost : Bool

-- The response to a transfer, and how many bytes of its body came in.
pub record Transfer : Type 0 where
  pub transfer_ok : Bool
  pub http_code : ℕ
  pub server_reported_total : ℤ
  pub received : ℕ

pub record Env : Type 0 where
  pub heartbeat_at : ℤ
  pub heartbeat : Away
  pub probed_at : ℤ
  pub began_at : ℤ
  pub rounds : ℕ → Round
  pub waited_at : ℤ
  pub curl_wait : Away
  pub has_handle : Bool
  pub away : Away
  pub transfer : Transfer
  pub failing : Failing

abbrev pub retry_segment_fetch : ℤ
retry_segment_fetch = negsuc 1

abbrev pub max_consecutive_segment_fetch_failures : ℕ
max_consecutive_segment_fetch_failures = 4

abbrev pub min_segment_fetch_failure_streak_ms : ℤ
min_segment_fetch_failure_streak_ms = pos 30000

abbrev pub catch_up_sleep_ms : ℕ
catch_up_sleep_ms = 250

abbrev pub seek_probe_window : ℤ
seek_probe_window = pos 800000000

abbrev pub heartbeat_interval : ℤ
heartbeat_interval = pos 10000000000

abbrev pub mark_fatal : Reader → Reader
mark_fatal r = record r { stream = record r.stream { fatal = true } }

abbrev pub at_tail : Reader → Bool
at_tail r = leb_ℤ ((r.stream).total_bytes) ((r.stream).position)

abbrev pub count_failure : Failing → Reader → Reader
count_failure f r = record r {
  consecutive_failures = suc (r.consecutive_failures);
  first_failure_at = if suc (r.consecutive_failures) == 1 then f.counted_at else r.first_failure_at;
}

-- Whether the handler gives up, once it has counted the failure.
abbrev pub gives_up : Failing → Reader → Bool
gives_up f r =
    should_give_up_after_segment_fetch_failure (r.consecutive_failures) (f.refresh_fatal)
      max_consecutive_segment_fetch_failures (to_ms (f.judged_at -ℤ r.first_failure_at))
      min_segment_fetch_failure_streak_ms

-- `HandleLiveTimeshiftSegmentFetchFailure`.
unfoldable pub handle_failure : Failing → Reader → ℤ × Reader
handle_failure f r =
    let counted = count_failure f r in
    let refreshed = unlocked (f.refresh) counted in
    if not (gives_up f counted)
    then (
      retry_segment_fetch,
      record refreshed {
        slept_ms = refreshed.slept_ms + segment_fetch_retry_delay_ms (counted.consecutive_failures);
      },
    )
    else if (f.refresh).same
    then (
      pos 0,
      record (mark_fatal refreshed) { fatal_notified = f.lost || refreshed.fatal_notified },
    )
    else (pos 0, refreshed)
