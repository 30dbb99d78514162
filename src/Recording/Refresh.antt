-- ===== src/Recording/Refresh.antt =====
-- The refresh of an in-progress recording's segments (src/DispatcharrClient.cpp), from the parsed
-- playlist on. The answers of the server are in `Round`.
use pvr_dispatcharr_unoffici.Prelude.{
  ℕ, zero, suc, ◌+◌, ◌-◌, Bool, true, false, ◌||◌, Option, none, some, List, [], ◌∷◌, ◌++◌, Bytes,
  length, get_or, drop, ltb, ◌==◌, if◌then◌else◌,
}
use pvr_dispatcharr_unoffici.Prelude.Int.{ℤ, pos, negsuc, leb_ℤ}
use pvr_dispatcharr_unoffici.Segments.{SegmentT, append_segment_offsets}
use pvr_dispatcharr_unoffici.Recording.{
  Tracker, UnprobeableSegmentAction, keep_retrying, give_up, should_probe_only_leading_segment,
  update_unprobeable_segment_tracker, count_mergeable_segments, index_to_arm_tracker_after_merge,
  resolve_in_progress_finished, gate_finished_on_end_list, should_reseed_in_progress_segment_cache,
}

-- A playlist entry that is not merged yet; `duration_ms` is the rounded product that the merge
-- computes of the parsed seconds.
pub record Pending : Type 0 where
  pub url : Bytes
  pub duration_ms : ℤ

-- `InProgressRecordingSegmentInfo`.
pub record Segment : Type 0 where
  pub url : Bytes
  pub byte_offset : ℤ
  pub byte_size : ℤ
  pub time_offset_ms : ℤ

instance abbrev pub segment_t : SegmentT Segment
segment_t = record {
  byte_offset = λ s. s.byte_offset;
  byte_size = λ s. s.byte_size;
  time_offset_ms = λ s. s.time_offset_ms;
}

-- The members of `InProgressRecordingStreamState` that a refresh reads or writes, and the segments
-- that `m_inProgressSegmentCache` has for the recording.
pub record Stream : Type 0 where
  pub segments : List Segment
  pub total_bytes : ℤ
  pub total_duration_ms : ℤ
  pub unprobeable_segment : Tracker
  pub finished : Bool
  pub end_list_waiting_since : Option ℕ
  pub cached : Option (List Segment)

-- What one refresh gets to know: the size that a probe of the entry with an index finds (not
-- positive for a failure), the times of its reads of the clock, what the lookup of the recording
-- said, and whether the playlist has its end tag.
pub record Round : Type 0 where
  pub pending : List Pending
  pub probe : ℕ → ℤ
  pub probed_at : ℕ
  pub armed_at : ℕ
  pub now : ℕ
  pub lookup_ok : Bool
  pub is_in_progress : Bool
  pub has_end_list : Bool

abbrev pub end_list_grace : ℕ
end_list_grace = 15000

-- The entries of `probedSizes` from index `i` on; one that is not probed keeps its -1.
abbrev pub probed_sizes : (ℕ → ℤ) → ℕ → ℕ → List Pending → List ℤ
probed_sizes probe probe_count i [] = []
probed_sizes probe probe_count i (p ∷ pending) =
    (if ltb i probe_count then probe i else negsuc 0)
    ∷ probed_sizes probe probe_count (i + 1) pending

-- `probedSizes[0] = 0` for a leading segment that is given up.
abbrev pub give_up_sizes : Bool → List ℤ → List ℤ
give_up_sizes true (size ∷ sizes) = pos 0 ∷ sizes
give_up_sizes true [] = []
give_up_sizes false sizes = sizes

abbrev pub count_failed : List ℤ → ℕ
count_failed [] = 0
count_failed (size ∷ sizes) =
    let rest = count_failed sizes in if leb_ℤ size (pos 0) then suc rest else rest

unfoldable pub probe_count : Stream → List Pending → ℕ
probe_count s [] = 0
probe_count s (p ∷ pending) =
    if should_probe_only_leading_segment (s.unprobeable_segment) (p.url)
    then 1
    else length (p ∷ pending)

abbrev pub gave_up : UnprobeableSegmentAction → Bool
gave_up give_up = true
gave_up keep_retrying = false

-- Whether the leading segment is given up, and the tracker.
unfoldable pub track_leading : Stream → Round → List Pending → List ℤ → Bool × Tracker
track_leading s r [] sizes = (false, s.unprobeable_segment)
track_leading s r (p ∷ pending) sizes =
    let (action, tracker) =
      update_unprobeable_segment_tracker (s.unprobeable_segment) (p.url)
        (leb_ℤ (get_or sizes 0 (pos 0)) (pos 0)) (r.probed_at) in
    (gave_up action, tracker)

-- The tracker, armed for the entry with the index, when there is one.
unfoldable pub arm : Tracker → List Pending → ℕ → ℕ → Tracker
arm tracker [] i now = tracker
arm tracker (p ∷ pending) zero now = (update_unprobeable_segment_tracker tracker (p.url) true now).1
arm tracker (p ∷ pending) (suc i) now = arm tracker pending i now

-- One round of the merge.
unfoldable pub append_segment : Stream → Pending → ℤ → Stream
append_segment s p size =
    let (offsets, total_bytes, total_duration_ms) =
      append_segment_offsets size (p.duration_ms) (s.total_bytes) (s.total_duration_ms) in
    record s {
      segments =
          s.segments
          ++ record {
            url = p.url;
            byte_offset = offsets.byte_offset;
            byte_size = size;
            time_offset_ms = offsets.time_offset_ms;
          }
            ∷ [];
      total_bytes = total_bytes;
      total_duration_ms = total_duration_ms;
    }

-- The loop over the first `count` entries.
unfoldable pub merge : ℕ → List Pending → List ℤ → Stream → Stream
merge zero pending sizes s = s
merge (suc count) (p ∷ pending) (size ∷ sizes) s =
    merge count pending sizes (append_segment s p size)
merge (suc count) pending sizes s = s

-- The sizes, whether the leading segment is given up, and the tracker that counts its failure.
abbrev pub probe_pending : Stream → Round → List ℤ × Bool × Tracker
probe_pending s r =
    let sizes = probed_sizes (r.probe) (probe_count s (r.pending)) 0 (r.pending) in
    let (given_up, tracker) = track_leading s r (r.pending) sizes in
    (give_up_sizes given_up sizes, given_up, tracker)

-- The stream with what was probed merged, and the number of merged segments and of those that are
-- left unsized.
unfoldable pub merge_probed : Stream → Round → Stream × ℕ × ℕ
merge_probed s r =
    let (sizes, given_up, tracker) = probe_pending s r in
    let merged = count_mergeable_segments sizes given_up in
    let arm_index =
      index_to_arm_tracker_after_merge sizes merged given_up (probe_count s (r.pending)) in
    (
      merge merged (r.pending) sizes
          (record s { unprobeable_segment = arm tracker (r.pending) arm_index (r.armed_at) }),
      merged,
      count_failed (drop merged sizes),
    )

abbrev pub entry_segments : Option (List Segment) → List Segment
entry_segments none = []
entry_segments (some segments) = segments

-- The cache's entry after the refresh, when it merged `newly_probed` segments.
unfoldable pub update_cache : Stream → ℕ → Option (List Segment)
update_cache s newly_probed =
    if ltb 0 newly_probed || s.finished
    then (if s.finished
        then none
        else if should_reseed_in_progress_segment_cache (length (entry_segments (s.cached)))
            newly_probed (length (s.segments))
        then some (s.segments)
        else some
            (entry_segments (s.cached) ++ drop (length (s.segments) - newly_probed) (s.segments)))
    else s.cached

unfoldable pub refresh : Stream → Round → Stream
refresh s r =
    let (merged, newly_probed, failed) = merge_probed s r in
    let status_finished =
      resolve_in_progress_finished (r.lookup_ok) (r.is_in_progress) (s.finished) (failed == 0) in
    let (finished, waiting_since) =
      gate_finished_on_end_list status_finished (r.has_end_list) (s.end_list_waiting_since) (r.now)
        end_list_grace in
    let s' = record merged { finished = finished; end_list_waiting_since = waiting_since } in
    record s' { cached = update_cache s' newly_probed }
