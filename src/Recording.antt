-- ===== src/Recording.antt =====
-- An in-progress recording's stream: src/UnprobeableSegment.cpp, and of src/M3u8SegmentParser.cpp,
-- src/RecordingVisibility.cpp and src/InProgressSegmentCache.h the functions that the refresh of
-- the segment list is made of. Times are milliseconds of the steady clock.
pub mod Refresh
pub mod Failures
pub mod Merge
pub mod Finish
mod Examples
use pvr_dispatcharr_unoffici.Prelude.{
  ℕ, zero, suc, ◌+◌, ◌-◌, ◌*◌, Bool, true, false, not, ◌&&◌, ◌||◌, Option, none, some, List, [],
  ◌∷◌, Bytes, length, get_or, bytes_eq, is_empty, ltb, leb, ◌==◌, if◌then◌else◌,
}
use pvr_dispatcharr_unoffici.Prelude.Int.{ℤ, pos, ltb_ℤ, leb_ℤ}

-- `UnprobeableSegmentTracker`.
pub record Tracker : Type 0 where
  pub url : Bytes
  pub consecutive_failures : ℕ
  pub first_failed_at : ℕ

abbrev pub new_tracker : Tracker
new_tracker = record { url = []; consecutive_failures = 0; first_failed_at = 0 }

pub data UnprobeableSegmentAction : Type 0 where
  keep_retrying give_up : UnprobeableSegmentAction

abbrev pub min_failures : ℕ
min_failures = 5

abbrev pub min_wait : ℕ
min_wait = 30000

unfoldable pub should_probe_only_leading_segment : Tracker → Bytes → Bool
should_probe_only_leading_segment tracker leading =
    ltb 0 (tracker.consecutive_failures)
    && not (is_empty (tracker.url))
    && bytes_eq (tracker.url) leading

-- The tracker with one more failure of `leading` counted.
abbrev pub count_failure : Tracker → Bytes → ℕ → Tracker
count_failure tracker leading now =
    if not (bytes_eq (tracker.url) leading)
    then record { url = leading; consecutive_failures = 1; first_failed_at = now }
    else record tracker { consecutive_failures = tracker.consecutive_failures + 1 }

-- Both thresholds, on the tracker with the failure counted.
abbrev pub decide_give_up : Tracker → ℕ → UnprobeableSegmentAction × Tracker
decide_give_up tracker now =
    if leb min_failures (tracker.consecutive_failures)
      && leb min_wait (now - tracker.first_failed_at)
    then (give_up, new_tracker)
    else (keep_retrying, tracker)

unfoldable pub update_unprobeable_segment_tracker :
    Tracker → Bytes → Bool → ℕ → UnprobeableSegmentAction × Tracker
update_unprobeable_segment_tracker tracker leading failed now =
    if is_empty leading || not failed
    then (keep_retrying, new_tracker)
    else decide_give_up (count_failure tracker leading now) now

unfoldable pub count_leading_probed_segments : List ℤ → ℕ
count_leading_probed_segments [] = 0
count_leading_probed_segments (size ∷ sizes) =
    let rest = count_leading_probed_segments sizes in if ltb_ℤ (pos 0) size then suc rest else 0

unfoldable pub count_mergeable_segments : List ℤ → Bool → ℕ
unfolding count_leading_probed_segments
count_mergeable_segments sizes false = count_leading_probed_segments sizes
count_mergeable_segments [] true = 0
count_mergeable_segments (size ∷ sizes) true = suc (count_leading_probed_segments sizes)

unfoldable pub index_to_arm_tracker_after_merge : List ℤ → ℕ → Bool → ℕ → ℕ
index_to_arm_tracker_after_merge sizes merged_count given_up probed_count =
    if given_up
      || merged_count == 0
      || leb (length sizes) merged_count
      || leb probed_count merged_count
    then length sizes
    else if leb_ℤ (get_or sizes merged_count (pos 0)) (pos 0)
    then merged_count
    else length sizes

unfoldable pub resolve_in_progress_finished : Bool → Bool → Bool → Bool → Bool
resolve_in_progress_finished lookup_ok is_in_progress previous_finished all_probes_succeeded =
    if not lookup_ok
    then previous_finished
    else if is_in_progress
    then false
    else all_probes_succeeded

-- `waitingSince` once it is set.
abbrev pub since_or : Option ℕ → ℕ → ℕ
since_or none now = now
since_or (some since) now = since

-- The answer, and what the call leaves in `waitingSince`.
unfoldable pub gate_finished_on_end_list : Bool → Bool → Option ℕ → ℕ → ℕ → Bool × Option ℕ
gate_finished_on_end_list candidate_finished has_end_list waiting_since now grace =
    if not candidate_finished
    then (false, none)
    else if has_end_list
    then (true, none)
    else (leb grace (now - since_or waiting_since now), some (since_or waiting_since now))

unfoldable pub should_reseed_in_progress_segment_cache : ℕ → ℕ → ℕ → Bool
should_reseed_in_progress_segment_cache cached newly_probed current =
    not (cached + newly_probed == current)
