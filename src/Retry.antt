-- ===== src/Retry.antt =====
-- What is done about a fetch that fails: src/SegmentFetchFailure.h, and the classes of a response in
-- src/RecordingHttpUtil.h. A point or a span of the steady clock is a number of nanoseconds.
pub mod Delay
pub mod Permanent
mod Examples
use pvr_dispatcharr_unoffici.Prelude.{
  ℕ, zero, suc, ◌-◌, ◌*◌, min, Bool, true, false, not, ◌&&◌, ◌||◌, ltb, leb, ◌==◌, if◌then◌else◌,
}
use pvr_dispatcharr_unoffici.Prelude.Int.{ℤ, pos, ◌-ℤ◌, ltb_ℤ, leb_ℤ, eqb_ℤ}

-- A span of `n` milliseconds.
abbrev pub ms : ℕ → ℤ
ms n = pos (n * 1000000)

abbrev pub should_give_up_after_segment_fetch_failure : ℕ → Bool → ℕ → ℤ → ℤ → Bool
should_give_up_after_segment_fetch_failure consecutive_failures refresh_fatal max_attempts
      failing_for min_failing_for =
    refresh_fatal || leb max_attempts consecutive_failures && leb_ℤ min_failing_for failing_for

-- The loop, with the rounds that are left.
double_delay : ℕ → ℕ → ℕ
double_delay zero delay = delay
double_delay (suc rounds) delay =
    let rest = double_delay rounds (delay * 2) in if ltb delay 2000 then rest else delay

unfoldable pub segment_fetch_retry_delay_ms : ℕ → ℕ
unfolding double_delay
segment_fetch_retry_delay_ms consecutive_failures =
    min (double_delay (consecutive_failures - 1) 250) 2000

abbrev pub is_transient_read_failure : Bool → ℕ → Bool
is_transient_read_failure transfer_ok http_code =
    not transfer_ok
    || (http_code == 500 || (http_code == 502 || (http_code == 503 || http_code == 504)))

abbrev pub should_keep_retrying_transient_read : ℤ → ℤ → Bool
should_keep_retrying_transient_read waited budget = ltb_ℤ waited budget

pub data LiveSegmentRetryStep : Type 0 where
  try_again : LiveSegmentRetryStep
  hand_back : LiveSegmentRetryStep
  stop : LiveSegmentRetryStep

unfoldable pub decide_live_segment_retry_step : Bool → ℤ → ℤ → LiveSegmentRetryStep
decide_live_segment_retry_step aborted since_read_started slice =
    if aborted then stop else if leb_ℤ slice since_read_started then hand_back else try_again

abbrev pub permanent_read_failure_min_count : ℕ
permanent_read_failure_min_count = 5

abbrev pub permanent_read_failure_min_span : ℤ
permanent_read_failure_min_span = ms 3000

pub record PermanentReadFailureTracker : Type 0 where
  pub count : ℕ
  pub first_at : ℤ
  pub ended : Bool

abbrev pub new_failures : PermanentReadFailureTracker
new_failures = record { count = 0; first_at = pos 0; ended = false }

-- One more failure, of a tracker that has not ended.
abbrev pub count_one : PermanentReadFailureTracker → ℤ → PermanentReadFailureTracker
count_one t now =
    let first_at = if t.count == 0 then now else t.first_at in
    record {
      count = suc (t.count);
      first_at = first_at;
      ended =
          leb permanent_read_failure_min_count (suc (t.count))
          && leb_ℤ permanent_read_failure_min_span (now -ℤ first_at);
    }

unfoldable pub record_permanent_read_failure :
    PermanentReadFailureTracker → ℤ → Bool × PermanentReadFailureTracker
record_permanent_read_failure t now =
    if t.ended then (true, t) else ((count_one t now).ended, count_one t now)

unfoldable pub reset_permanent_read_failures :
    PermanentReadFailureTracker → PermanentReadFailureTracker
reset_permanent_read_failures t =
    if not (t.ended) then record t { count = 0; first_at = pos 0 } else t

abbrev pub server_ignored_range_request : ℤ → ℕ → Bool
server_ignored_range_request requested_offset http_code =
    http_code == 200 && ltb_ℤ (pos 0) requested_offset

abbrev pub has_recording_file_changed : ℤ → ℤ → Bool
has_recording_file_changed cached_length server_reported_total =
    leb_ℤ (pos 0) cached_length
    && (leb_ℤ (pos 0) server_reported_total && not (eqb_ℤ server_reported_total cached_length))

pub data LiveSegmentOutcome : Type 0 where
  transport_failure : LiveSegmentOutcome
  segment_gone : LiveSegmentOutcome
  range_ignored : LiveSegmentOutcome
  unexpected_status : LiveSegmentOutcome
  size_mismatch : LiveSegmentOutcome
  ok : LiveSegmentOutcome

unfoldable pub classify_live_segment_response : Bool → ℕ → ℤ → ℤ → ℤ → LiveSegmentOutcome
classify_live_segment_response transfer_ok http_code offset_in_segment server_reported_total
      segment_byte_size =
    if not transfer_ok
    then transport_failure
    else if http_code == 404
    then segment_gone
    else if server_ignored_range_request offset_in_segment http_code
    then range_ignored
    else if not (http_code == 200) && not (http_code == 206)
    then unexpected_status
    else if leb_ℤ (pos 0) server_reported_total
        && not (eqb_ℤ server_reported_total segment_byte_size)
    then size_mismatch
    else ok

pub data RecordingReadOutcome : Type 0 where
  refresh_api_key_and_retry : RecordingReadOutcome
  retry_transient : RecordingReadOutcome
  fail_permanently : RecordingReadOutcome
  range_was_ignored : RecordingReadOutcome
  file_changed : RecordingReadOutcome
  read_ok : RecordingReadOutcome

unfoldable pub classify_recording_read_response : Bool → ℕ → Bool → ℤ → ℤ → ℤ → RecordingReadOutcome
classify_recording_read_response transfer_ok http_code api_key_already_refreshed position
      cached_length server_reported_total =
    if http_code == 401 && not api_key_already_refreshed
    then refresh_api_key_and_retry
    else if is_transient_read_failure transfer_ok http_code
    then retry_transient
    else if not (http_code == 200) && not (http_code == 206)
    then fail_permanently
    else if server_ignored_range_request position http_code
    then range_was_ignored
    else if has_recording_file_changed cached_length server_reported_total
    then file_changed
    else read_ok

pub data InProgressSegmentOutcome : Type 0 where
  refresh_api_key : InProgressSegmentOutcome
  retry_segment : InProgressSegmentOutcome
  segment_not_found : InProgressSegmentOutcome
  fail_segment : InProgressSegmentOutcome
  segment_ok : InProgressSegmentOutcome

unfoldable pub classify_in_progress_segment_response : Bool → ℕ → Bool → InProgressSegmentOutcome
classify_in_progress_segment_response transfer_ok http_code api_key_already_refreshed =
    if http_code == 401 && not api_key_already_refreshed
    then refresh_api_key
    else if is_transient_read_failure transfer_ok http_code
    then retry_segment
    else if http_code == 404
    then segment_not_found
    else if not (http_code == 200)
    then fail_segment
    else segment_ok
