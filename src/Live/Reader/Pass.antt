-- ===== src/Live/Reader/Pass.antt =====
-- The parts of a pass of a read of the live stream (`ReadLiveTimeshiftStreamOnce` of
-- src/DispatcharrClient.cpp): the wait at the tail, and the transfer.
pub mod Once
use pvr_dispatcharr_unoffici.Prelude.{
  ℕ, zero, suc, Bool, true, false, ◌&&◌, ◌||◌, not, Option, none, some, ◌==◌, if◌then◌else◌,
}
use pvr_dispatcharr_unoffici.Prelude.Int.{
  ℤ, pos, negsuc, pos_part, ◌+ℤ◌, ◌-ℤ◌, ◌*ℤ◌, leb_ℤ, eqb_ℤ, min_ℤ,
}
use pvr_dispatcharr_unoffici.Position.{compute_segment_read_size}
use pvr_dispatcharr_unoffici.Segments.{find_segment_containing_position, is_at_ended_tail}
use pvr_dispatcharr_unoffici.CatchUp.{
  to_ms, is_unset, TailWaitOutcome, new_episode, enter, touch, waited_ms, retry, give_up,
  decide_tail_wait_outcome, estimate_segment_duration_ms, compute_catch_up_attempts,
  compute_catch_up_wall_clock_budget_ms, has_catch_up_budget_elapsed, is_likely_seek_probe,
  compute_short_give_up_position, has_tail_wait_slice_elapsed, live_tail_give_up_result,
  compute_live_tail_wait_budget_ms, live_tail_wait_slice_ms,
}
use pvr_dispatcharr_unoffici.Retry.{
  LiveSegmentOutcome, LiveSegmentRetryStep, classify_live_segment_response, transport_failure,
  segment_gone, range_ignored, unexpected_status, size_mismatch, ok, decide_live_segment_retry_step,
  try_again, hand_back, stop,
}
use pvr_dispatcharr_unoffici.Live.{Segment, segment_t}
use pvr_dispatcharr_unoffici.Live.Calls.{skip_rolled_off}
use pvr_dispatcharr_unoffici.Live.Reader.{
  Env, Reader, Round, at_tail, catch_up_sleep_ms, handle_failure, heartbeat_interval, mark_fatal,
  retry_segment_fetch, seek_probe_window, unlocked,
}

-- How the loop of the wait ends: the stream is gone, or the wait is over, and whether the last
-- refresh was answered.
pub data WaitEnd : Type 0 where
  gone : Reader → WaitEnd
  waited : Reader → Bool → WaitEnd

-- Whether the checks behind a refresh end the loop.
abbrev pub stops_waiting : Env → ℤ → Round → Reader → Bool
stops_waiting env budget_ms round r =
    not (at_tail r)
    || ((r.stream).ended
        || (has_catch_up_budget_elapsed (to_ms (round.checked_at -ℤ env.began_at)) budget_ms
            || has_tail_wait_slice_elapsed (to_ms (round.sliced_at -ℤ env.began_at))))

-- The rounds of the wait from `attempt` on, `left` of them at most.
unfoldable pub wait_rounds : Env → ℤ → ℕ → ℕ → Reader → Bool → WaitEnd
wait_rounds env budget_ms attempt zero r answered = waited r answered
wait_rounds env budget_ms attempt (suc left) r answered =
    let round = env.rounds attempt in
    let refreshed = unlocked (round.refresh) r in
    let slept = unlocked (round.sleep) refreshed in
    let rest = wait_rounds env budget_ms (suc attempt) left slept (round.answered) in
    if not (at_tail r)
    then waited r answered
    else if not ((round.refresh).same)
    then gone refreshed
    else if round.fatal
    then waited (mark_fatal refreshed) (round.answered)
    else if stops_waiting env budget_ms round refreshed || left == 0
    then waited refreshed (round.answered)
    else if not ((round.sleep).same)
    then gone slept
    else rest

-- What follows a part of a read: an answer, or more of it (and whether it gave up on a seek probe).
pub data Next : Type 0 where
  says : ℤ → Reader → Next
  goes_on : Reader → Bool → Next

-- The wait ends without an answer.
abbrev pub leave_wait : Bool → Reader → Next
leave_wait probe r =
    goes_on
      (record r {
        tail_wait = new_episode;
        last_short_give_up_position =
            compute_short_give_up_position probe (not (at_tail r)) ((r.stream).position);
      })
      (probe && at_tail r)

unfoldable pub hand_back_or_leave : Env → Bool → TailWaitOutcome → Reader → Next
hand_back_or_leave env probe retry r =
    says (negsuc 0) (record r { tail_wait = touch (r.tail_wait) (env.waited_at) })
hand_back_or_leave env probe give_up r = leave_wait probe r

-- The decisions behind the loop. `budget_ms` is `catchUpAttempts * kCatchUpSleepMs`.
unfoldable pub after_wait : Env → Bool → ℤ → WaitEnd → Next
after_wait env probe budget_ms (gone r) = says (negsuc 0) r
after_wait env probe budget_ms (waited r answered) =
    if (r.stream).fatal
    then says (pos 0) r
    else if is_at_ended_tail ((r.stream).ended) ((r.stream).position) ((r.stream).total_bytes)
    then says (pos 0) r
    else if not (at_tail r)
    then leave_wait probe r
    else hand_back_or_leave env probe
        (decide_tail_wait_outcome probe (waited_ms (r.tail_wait) (env.waited_at))
          (compute_live_tail_wait_budget_ms probe budget_ms answered))
        r

abbrev pub probes : Env → Reader → Bool
probes env r =
    is_likely_seek_probe ((r.stream).position) (r.last_short_give_up_position) (r.last_seek_time)
      (env.probed_at) seek_probe_window

abbrev pub catch_up_attempts : Env → Reader → ℤ
catch_up_attempts env r =
    compute_catch_up_attempts (probes env r)
      (estimate_segment_duration_ms ((r.stream).total_duration_ms) ((r.stream).segments))
      catch_up_sleep_ms

abbrev pub enter_tail : Env → Reader → Reader
enter_tail env r = record r { tail_wait = enter (r.tail_wait) ((r.stream).position) (env.began_at) }

-- The wait at the tail, where the position is there.
unfoldable pub wait_at_tail : Env → Reader → Next
wait_at_tail env r =
    let attempts = catch_up_attempts env r in
    if not (at_tail r)
    then goes_on r false
    else after_wait env (probes env r) (attempts *ℤ pos catch_up_sleep_ms) (
        wait_rounds env (compute_catch_up_wall_clock_budget_ms attempts catch_up_sleep_ms) 0
          (pos_part attempts) (enter_tail env r) true)

-- `static_cast<int>` of an `unsigned int`.
abbrev pub as_int : ℤ → ℤ
as_int n = if leb_ℤ n (pos 2147483647) then n else n -ℤ pos 4294967296

-- What the response to a transfer means. The callback `FixedBufferWriteCallback` writes no more than
-- `want_size` bytes of it.
unfoldable pub settle : Env → ℤ → ℤ → LiveSegmentOutcome → Reader → ℤ × Reader
settle env position_at_fetch want_size transport_failure r = handle_failure (env.failing) r
settle env position_at_fetch want_size segment_gone r = handle_failure (env.failing) r
settle env position_at_fetch want_size range_ignored r = (pos 0, mark_fatal r)
settle env position_at_fetch want_size unexpected_status r = handle_failure (env.failing) r
settle env position_at_fetch want_size size_mismatch r = (pos 0, mark_fatal r)
settle env position_at_fetch want_size ok r =
    let written = min_ℤ (pos ((env.transfer).received)) want_size in
    if not ((env.away).same) || not (eqb_ℤ ((r.stream).position) position_at_fetch)
    then (negsuc 0, r)
    else (
      as_int written,
      record r {
        consecutive_failures = 0;
        first_failure_at = pos 0;
        stream = record r.stream { position = (r.stream).position +ℤ written };
      },
    )

-- The transfer from an offset in a segment.
unfoldable pub transfer_segment : Env → Segment → ℤ → ℤ → Reader → ℤ × Reader
transfer_segment env seg offset_in_segment want_size r =
    let position_at_fetch = (r.stream).position in
    let locked = unlocked (env.curl_wait) r in
    let t = env.transfer in
    if not ((env.curl_wait).same) || not (eqb_ℤ ((locked.stream).position) position_at_fetch)
    then (negsuc 0, locked)
    else if not (env.has_handle)
    then (negsuc 0, locked)
    else settle env position_at_fetch want_size
        (classify_live_segment_response (t.transfer_ok) (t.http_code) offset_in_segment
          (t.server_reported_total) (seg.byte_size))
        (unlocked (env.away) locked)

-- What the search for a segment gives, then how much of it there is to read.
unfoldable pub read_size : Env → Segment → ℤ → Option ℤ → Reader → ℤ × Reader
read_size env seg offset_in_segment none r = (pos 0, r)
read_size env seg offset_in_segment (some want_size) r =
    transfer_segment env seg offset_in_segment want_size r

unfoldable pub read_segment : Env → ℤ → Option Segment → Reader → ℤ × Reader
read_segment env size none r = handle_failure (env.failing) r
read_segment env size (some seg) r =
    let offset_in_segment = (r.stream).position -ℤ seg.byte_offset in
    read_size env seg offset_in_segment
      (compute_segment_read_size offset_in_segment (seg.byte_size) size) r

-- The read once it has waited.
unfoldable pub fetch : Env → ℤ → Reader → Bool → ℤ × Reader
fetch env size r gave_up_on_seek_probe =
    if at_tail r
    then (live_tail_give_up_result gave_up_on_seek_probe, r)
    else read_segment env size
        (find_segment_containing_position ((r.stream).position) ((r.stream).segments)) r

unfoldable pub continue_read : Env → ℤ → Next → ℤ × Reader
continue_read env size (says answer r) = (answer, r)
continue_read env size (goes_on r gave_up_on_seek_probe) = fetch env size r gave_up_on_seek_probe
