-- ===== src/Recording/Examples.antt =====
-- The theorems on an in-progress recording at a stream of one segment, and a refresh that finds two
-- more, the second of which cannot be sized.
use pvr_dispatcharr_unoffici.Prelude.{
  ℕ, ◌+◌, ◌≤◌, ◌≡◌, refl, inr, true, false, none, some, List, [], ◌∷◌, Bytes, codes, arith, ◌==◌,
  if◌then◌else◌,
}
use pvr_dispatcharr_unoffici.Prelude.Int.{ℤ, pos, negsuc, ◌+ℤ◌}
use pvr_dispatcharr_unoffici.Recording.{
  new_tracker, give_up, update_unprobeable_segment_tracker, resolve_in_progress_finished,
  gate_finished_on_end_list, count_mergeable_segments, should_probe_only_leading_segment,
}
use pvr_dispatcharr_unoffici.Recording.Failures.{
  Report, update, tracker_after, FailedFor, give_up-FailedFor,
}
use pvr_dispatcharr_unoffici.Recording.Failures.GivingUp.{GivesUp, FailedFor-GivesUp}
use pvr_dispatcharr_unoffici.Recording.Refresh.{
  Segment, segment_t, Stream, Round, probe_count, track_leading, merge_probed, refresh,
}
use pvr_dispatcharr_unoffici.Recording.Merge.{
  IsValid, refresh-IsValid, urls, IsPrefix, refresh-IsPrefix,
}
use pvr_dispatcharr_unoffici.Recording.Finish.{
  MayFinish, finished-MayFinish, InStep, refresh-InStep, finished_whole,
}

abbrev failure_at : ℕ → Report
failure_at at = record { leading = codes "c.ts"; failed = true; at = at }

abbrev four_failures : List Report
four_failures = failure_at 30500 ∷ failure_at 20000 ∷ failure_at 10000 ∷ failure_at 1000 ∷ []

gives_up_now : (update (tracker_after four_failures) (failure_at 31000)).0 ≡ give_up
unfolding update_unprobeable_segment_tracker
gives_up_now = refl

give_up-FailedFor_example :
    (count : ℕ) × (since : ℕ) × (5 ≤ count)
    × (since + 30000 ≤ 31000)
    × FailedFor (codes "c.ts") since count (failure_at 31000 ∷ four_failures)
give_up-FailedFor_example = give_up-FailedFor (failure_at 31000) four_failures gives_up_now

FailedFor-GivesUp_example : GivesUp (failure_at 31000 ∷ four_failures)
FailedFor-GivesUp_example =
    FailedFor-GivesUp (codes "c.ts") 1000 (failure_at 31000) four_failures refl
      (refl, refl, (refl, refl, (refl, refl, (refl, refl, (refl, refl, refl))))) (omega arith)
      (omega arith)

abbrev playlist : List Bytes
playlist = codes "a.ts" ∷ codes "b.ts" ∷ codes "c.ts" ∷ []

abbrev one_segment : List Segment
one_segment =
    record { url = codes "a.ts"; byte_offset = pos 0; byte_size = pos 100; time_offset_ms = pos 0 }
    ∷ []

abbrev sample : Stream
sample = record {
  segments = one_segment;
  total_bytes = pos 100;
  total_duration_ms = pos 2000;
  unprobeable_segment = new_tracker;
  finished = false;
  end_list_waiting_since = none;
  cached = some one_segment;
}

abbrev round : (ℕ → ℤ) → Round
round probe = record {
  pending =
      record { url = codes "b.ts"; duration_ms = pos 2000 }
      ∷ record { url = codes "c.ts"; duration_ms = pos 1500 }
      ∷ [];
  probe = probe;
  probed_at = 1000;
  armed_at = 1001;
  now = 990;
  lookup_ok = true;
  is_in_progress = false;
  has_end_list = true;
}

abbrev second_fails : ℕ → ℤ
second_fails i = if i == 0 then pos 80 else negsuc 0

sample-IsValid : IsValid sample
unfolding ◌+ℤ◌
sample-IsValid = ((omega arith, refl, tt), (omega arith, tt))

refresh-IsValid_example : IsValid (refresh sample (round second_fails))
refresh-IsValid_example =
    refresh-IsValid sample (round second_fails) sample-IsValid (omega arith, (omega arith, tt))

refresh-IsPrefix_example : IsPrefix playlist (refresh sample (round second_fails))
refresh-IsPrefix_example = refresh-IsPrefix playlist sample (round second_fails) refl refl

refresh-InStep_example : InStep (refresh sample (round second_fails))
refresh-InStep_example = refresh-InStep sample (round second_fails) (inr refl)

all_answer : (refresh sample (round (λ i. pos 80))).finished ≡ true
unfolding refresh merge_probed probe_count track_leading update_unprobeable_segment_tracker
    count_mergeable_segments resolve_in_progress_finished gate_finished_on_end_list
    should_probe_only_leading_segment
all_answer = refl

finished-MayFinish_example : MayFinish sample (round (λ i. pos 80))
finished-MayFinish_example = finished-MayFinish sample (round (λ i. pos 80)) all_answer

finished_whole_example : urls ((refresh sample (round (λ i. pos 80))).segments) ≡ playlist
finished_whole_example =
    finished_whole playlist sample (round (λ i. pos 80)) refl refl refl all_answer
