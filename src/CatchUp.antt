-- ===== src/CatchUp.antt =====
-- Waiting at the tail of a growing stream: the functions and the episode of src/CatchUpUtil.h. A
-- point or a span of the steady clock is a number of nanoseconds.
pub mod Bounds
pub mod Episode
mod Examples
use pvr_dispatcharr_unoffici.Prelude.{
  ℕ, ◌-◌, min, Bool, true, false, not, ◌&&◌, ◌||◌, none, some, List, length, get_elem?, ◌==◌,
  if◌then◌else◌,
}
use pvr_dispatcharr_unoffici.Prelude.Int.{
  ℤ, pos, negsuc, ◌+ℤ◌, ◌-ℤ◌, ◌*ℤ◌, div_ℤ, ltb_ℤ, leb_ℤ, eqb_ℤ, min_ℤ, max_ℤ,
}
use pvr_dispatcharr_unoffici.Segments.{SegmentT}

-- `duration_cast<milliseconds>`.
abbrev pub to_ms : ℤ → ℤ
to_ms d = div_ℤ d 1000000

-- A time point's count is 0 where it was never set.
abbrev pub is_unset : ℤ → Bool
is_unset t = eqb_ℤ t (pos 0)

abbrev pub segment_duration_sample_count : ℕ
segment_duration_sample_count = 5

abbrev pub min_segment_duration_ms : ℤ
min_segment_duration_ms = pos 1500

abbrev pub max_segment_duration_ms : ℤ
max_segment_duration_ms = pos 60000

module _ {S : Type 0} ⦃seg : SegmentT S⦄ where
  open seg use {time_offset_ms}

  -- The estimate before it is clamped.
  unfoldable pub average_segment_duration_ms : ℤ → List S → ℤ
  average_segment_duration_ms total_duration_ms segments =
      let sample_count = min segment_duration_sample_count (length segments) in
      if sample_count == 0
      then pos 6000
      else elim (get_elem? segments (length segments - sample_count)) [
        | none ↦ pos 6000
        | some s ↦
            let sum_ms = total_duration_ms -ℤ time_offset_ms s in
            if ltb_ℤ (pos 0) sum_ms then div_ℤ sum_ms sample_count else pos 6000
      ]

  unfoldable pub estimate_segment_duration_ms : ℤ → List S → ℤ
  estimate_segment_duration_ms total_duration_ms segments =
      min_ℤ (max_ℤ (average_segment_duration_ms total_duration_ms segments) min_segment_duration_ms)
        max_segment_duration_ms

unfoldable pub compute_catch_up_attempts : Bool → ℤ → ℕ → ℤ
compute_catch_up_attempts likely_seek_probe segment_duration_estimate_ms catch_up_sleep_ms =
    if likely_seek_probe
    then pos 1
    else div_ℤ (segment_duration_estimate_ms *ℤ pos 3) catch_up_sleep_ms +ℤ pos 1

abbrev pub max_catch_up_wall_clock_ms : ℤ
max_catch_up_wall_clock_ms = pos 120000

unfoldable pub compute_catch_up_wall_clock_budget_ms : ℤ → ℕ → ℤ
compute_catch_up_wall_clock_budget_ms attempts catch_up_sleep_ms =
    let budget =
      (if ltb_ℤ (pos 0) attempts then attempts else pos 0) *ℤ pos catch_up_sleep_ms *ℤ pos 2 in
    if ltb_ℤ budget max_catch_up_wall_clock_ms then budget else max_catch_up_wall_clock_ms

abbrev pub has_catch_up_budget_elapsed : ℤ → ℤ → Bool
has_catch_up_budget_elapsed elapsed_ms budget_ms = leb_ℤ budget_ms elapsed_ms

abbrev pub is_likely_seek_probe : ℤ → ℤ → ℤ → ℤ → ℤ → Bool
is_likely_seek_probe position last_short_give_up_position last_seek_time now seek_probe_window =
    if eqb_ℤ position last_short_give_up_position
    then false
    else if is_unset last_seek_time
    then false
    else ltb_ℤ (now -ℤ last_seek_time) seek_probe_window

abbrev pub compute_short_give_up_position : Bool → Bool → ℤ → ℤ
compute_short_give_up_position likely_seek_probe caught_up position =
    if likely_seek_probe && not caught_up then position else negsuc 0

abbrev pub live_tail_wait_slice_ms : ℤ
live_tail_wait_slice_ms = pos 1000

abbrev pub tail_wait_episode_gap_ms : ℤ
tail_wait_episode_gap_ms = pos 3000

abbrev pub has_tail_wait_slice_elapsed : ℤ → Bool
has_tail_wait_slice_elapsed since_this_call_started_ms =
    leb_ℤ live_tail_wait_slice_ms since_this_call_started_ms

pub record TailWaitEpisode : Type 0 where
  pub position : ℤ
  pub start : ℤ
  pub last_call : ℤ

abbrev pub new_episode : TailWaitEpisode
new_episode = record { position = negsuc 0; start = pos 0; last_call = pos 0 }

-- Whether `Enter` begins a new episode.
abbrev pub is_fresh : TailWaitEpisode → ℤ → ℤ → Bool
is_fresh e position now =
    not (eqb_ℤ (e.position) position)
    || is_unset (e.last_call)
    || ltb_ℤ tail_wait_episode_gap_ms (to_ms (now -ℤ e.last_call))

unfoldable pub enter : TailWaitEpisode → ℤ → ℤ → TailWaitEpisode
enter e position now =
    if is_fresh e position now
    then record { position = position; start = now; last_call = now }
    else record e { last_call = now }

abbrev pub touch : TailWaitEpisode → ℤ → TailWaitEpisode
touch e now = record e { last_call = now }

unfoldable pub waited_ms : TailWaitEpisode → ℤ → ℤ
waited_ms e now = if ltb_ℤ (e.position) (pos 0) then pos 0 else to_ms (now -ℤ e.start)

pub data TailWaitOutcome : Type 0 where
  retry : TailWaitOutcome
  give_up : TailWaitOutcome

unfoldable pub decide_tail_wait_outcome : Bool → ℤ → ℤ → TailWaitOutcome
decide_tail_wait_outcome likely_seek_probe waited budget_ms =
    if likely_seek_probe || leb_ℤ budget_ms waited then give_up else retry

abbrev pub live_tail_give_up_result : Bool → ℤ
live_tail_give_up_result gave_up_on_seek_probe = if gave_up_on_seek_probe then negsuc 0 else pos 0

abbrev pub live_stall_wait_budget_ms : ℤ
live_stall_wait_budget_ms = pos 70000

unfoldable pub compute_live_tail_wait_budget_ms : Bool → ℤ → Bool → ℤ
compute_live_tail_wait_budget_ms likely_seek_probe normal_budget_ms last_refresh_answered =
    if likely_seek_probe || not last_refresh_answered
    then normal_budget_ms
    else if ltb_ℤ live_stall_wait_budget_ms normal_budget_ms
    then normal_budget_ms
    else live_stall_wait_budget_ms

unfoldable pub compute_tail_wait_sleep_ms : ℤ → ℤ → ℤ → ℤ
compute_tail_wait_sleep_ms waited normal_budget_ms base_sleep_ms =
    if ltb_ℤ waited normal_budget_ms
    then base_sleep_ms
    else if ltb_ℤ live_tail_wait_slice_ms base_sleep_ms
    then base_sleep_ms
    else live_tail_wait_slice_ms
