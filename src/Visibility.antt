-- ===== src/Visibility.antt =====
-- src/RecordingVisibility.cpp: where a recording is listed, what deleting it does, and how an open of
-- an in-progress one goes on. An HTTP status and a `time_t` are integers. (The end of an in-progress
-- recording is in Recording.)
pub mod Delete
mod Examples
use pvr_dispatcharr_unoffici.Prelude.{Bool, true, false, not, ◌&&◌, ◌||◌, if◌then◌else◌}
use pvr_dispatcharr_unoffici.Prelude.Int.{ℤ, pos, ltb_ℤ, leb_ℤ, eqb_ℤ}

-- The members of `Recording` that are read.
pub record Recording : Type 0 where
  pub is_in_progress : Bool
  pub is_upcoming : Bool
  pub hls_dir_still_present : Bool
  pub end_time : ℤ

unfoldable pub is_listed_as_recording : Recording → Bool
is_listed_as_recording rec = not (rec.is_upcoming)

unfoldable pub is_missed_occurrence : Bool → ℤ → ℤ → Bool
is_missed_occurrence is_upcoming end_time now =
    is_upcoming && ltb_ℤ (pos 0) end_time && leb_ℤ end_time now

unfoldable pub is_listed_as_timer : Recording → ℤ → Bool
is_listed_as_timer rec now =
    if rec.is_in_progress
    then true
    else rec.is_upcoming && not (is_missed_occurrence (rec.is_upcoming) (rec.end_time) now)

unfoldable pub should_use_growing_buffer_playback : Recording → Bool
should_use_growing_buffer_playback rec = rec.is_in_progress || rec.hls_dir_still_present

unfoldable pub should_retry_in_progress_cold_start : ℤ → Bool → Bool → Bool
should_retry_in_progress_cold_start playlist_http_status lookup_ok is_in_progress =
    eqb_ℤ playlist_http_status (pos 404) && lookup_ok && is_in_progress

unfoldable pub is_in_progress_content_gone : Bool → Bool → Bool → ℤ → Bool → Bool
is_in_progress_content_gone had_segments playlist_was_not_found lookup_ok lookup_http_status
      is_in_progress =
    if not had_segments || not playlist_was_not_found
    then false
    else if lookup_ok
    then not is_in_progress
    else eqb_ℤ lookup_http_status (pos 404)

unfoldable pub should_stop_instead_of_delete : Bool → Bool → Bool → Bool
should_stop_instead_of_delete force_delete lookup_ok server_says_in_progress =
    force_delete || (lookup_ok && server_says_in_progress)

unfoldable pub is_already_finished_recording : Bool → Bool → Bool → Bool
is_already_finished_recording lookup_ok is_in_progress is_upcoming =
    lookup_ok && not is_in_progress && not is_upcoming

pub data DeleteTimerAction : Type 0 where
  delete stop already_done refuse_unverified : DeleteTimerAction

unfoldable pub decide_delete_timer_action : Bool → Bool → ℤ → Bool → Bool → DeleteTimerAction
decide_delete_timer_action force_delete lookup_ok lookup_http_status is_in_progress is_upcoming =
    if lookup_ok
    then (if is_already_finished_recording lookup_ok is_in_progress is_upcoming
        then already_done
        else if should_stop_instead_of_delete force_delete lookup_ok is_in_progress
        then stop
        else delete)
    else if eqb_ℤ lookup_http_status (pos 404)
    then already_done
    else if force_delete
    then stop
    else refuse_unverified

pub data InProgressColdStartStep : Type 0 where
  ready wait fail finished_empty finished_playlist_gone : InProgressColdStartStep

unfoldable pub decide_in_progress_cold_start_step :
    Bool → Bool → Bool → Bool → InProgressColdStartStep
decide_in_progress_cold_start_step refresh_ok retryable have_segments finished =
    if not refresh_ok
    then (if retryable then wait else if finished then finished_playlist_gone else fail)
    else if have_segments
    then ready
    else if finished
    then finished_empty
    else wait
