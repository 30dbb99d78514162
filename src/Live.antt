-- ===== src/Live.antt =====
-- The live timeshift stream: its segment list and read position (LiveTimeshiftStreamState of
-- src/DispatcharrClient.h), with the calls of src/DispatcharrClient.cpp that change them, and the
-- templates of src/LiveEdgeMargin.h and src/LiveManifestParser.cpp that these calls use.
pub mod Calls
pub mod Manifest
pub mod Window
pub mod Invariant
pub mod Refresh
pub mod Held
pub mod Seek
pub mod Read
pub mod Open
pub mod Session
pub mod Reader
mod Examples
use pvr_dispatcharr_unoffici.Prelude.{
  ℕ, zero, suc, ◌-◌, min, Bool, true, false, ◌&&◌, ◌||◌, not, Option, none, some, List, [], ◌∷◌,
  ◌++◌, Bytes, codes, length, get_elem?, drop, is_empty, ltb, ◌==◌, if◌then◌else◌,
}
use pvr_dispatcharr_unoffici.Prelude.Int.{ℤ, pos, negsuc, ◌+ℤ◌, ◌-ℤ◌, ltb_ℤ, leb_ℤ, min_ℤ, max_ℤ}
use pvr_dispatcharr_unoffici.Prelude.Search.{lower_bound}
use pvr_dispatcharr_unoffici.Json.{JsonLib, field_or_int64, field_or_string, field_or_bool}
use pvr_dispatcharr_unoffici.Segments.{
  SegmentT, AppendOffsets, append_segment_offsets, offset_or, compute_live_edge_tail_target,
  compute_live_edge_start_position, LiveSeekResolution, resolve_live_seek_target,
  find_segment_containing_position,
}

-- `LiveManifestSegmentEntry`.
pub record Entry : Type 0 where
  pub sequence : ℤ
  pub filename : Bytes
  pub byte_size : ℤ
  pub duration_ms : ℤ

abbrev pub max_segment_duration_ms : ℤ
max_segment_duration_ms = pos 86400000

-- 1 TiB.
abbrev pub max_segment_byte_size : ℤ
max_segment_byte_size = pos 1099511627776

module _ (lib : JsonLib) where
  open lib use {Json}

  -- The clamps of the loop's body, from the fields that it has read.
  clamp_entry : ℤ → Bytes → ℤ → ℤ → Entry
  clamp_entry sequence filename byte_size duration_ms = record {
    sequence = sequence;
    filename = filename;
    byte_size = if ltb_ℤ max_segment_byte_size byte_size then max_segment_byte_size else byte_size;
    duration_ms =
        if ltb_ℤ duration_ms (pos 0)
        then pos 0
        else if ltb_ℤ max_segment_duration_ms duration_ms
        then max_segment_duration_ms
        else duration_ms;
  }

  -- One round of the loop of `ParseNewLiveManifestSegments`; `none` is `continue`.
  pub read_entry : ℤ → Json → Option Entry
  unfolding clamp_entry
  read_entry newest_kept seg =
      let sequence = field_or_int64 lib seg (codes "sequence") (negsuc 0) in
      let filename = field_or_string lib seg (codes "filename") [] in
      let byte_size = field_or_int64 lib seg (codes "byte_size") (pos 0) in
      let duration_ms = field_or_int64 lib seg (codes "duration_ms") (pos 0) in
      if ltb_ℤ sequence (pos 0) || leb_ℤ sequence newest_kept
      then none
      else if is_empty filename || leb_ℤ byte_size (pos 0)
      then none
      else some (clamp_entry sequence filename byte_size duration_ms)

  -- The loop; the second argument is `newestKept`, at first `lastKnownSequence`.
  pub parse_new_live_manifest_segments : List Json → ℤ → List Entry
  parse_new_live_manifest_segments [] newest_kept = []
  parse_new_live_manifest_segments (seg ∷ segments) newest_kept =
      elim (read_entry newest_kept seg) [
        | none ↦ parse_new_live_manifest_segments segments newest_kept
        | some entry ↦ entry ∷ parse_new_live_manifest_segments segments (entry.sequence)
      ]

  -- The loop of `OldestLiveManifestSequence` over `oldest`, and the function.
  oldest_from : List Json → ℤ → ℤ
  oldest_from [] oldest = oldest
  oldest_from (seg ∷ segments) oldest =
      let sequence = field_or_int64 lib seg (codes "sequence") (negsuc 0) in
      oldest_from segments (
        if leb_ℤ (pos 0) sequence && (ltb_ℤ oldest (pos 0) || ltb_ℤ sequence oldest)
        then sequence
        else oldest)

  unfoldable pub oldest_live_manifest_sequence : List Json → ℤ
  unfolding oldest_from
  oldest_live_manifest_sequence segments = oldest_from segments (negsuc 0)

-- `LiveTimeshiftSegmentInfo`.
pub record Segment : Type 0 where
  pub filename : Bytes
  pub sequence : ℤ
  pub byte_offset : ℤ
  pub byte_size : ℤ
  pub time_offset_ms : ℤ

instance abbrev pub segment_t : SegmentT Segment
segment_t = record {
  byte_offset = λ s. s.byte_offset;
  byte_size = λ s. s.byte_size;
  time_offset_ms = λ s. s.time_offset_ms;
}

-- The members of `LiveTimeshiftStreamState` that the calls below read or write.
pub record Stream : Type 0 where
  pub open_ : Bool
  pub segments : List Segment
  pub oldest_available_sequence : ℤ
  pub total_bytes : ℤ
  pub total_duration_ms : ℤ
  pub position : ℤ
  pub ended : Bool
  pub fatal : Bool

-- `segments.back().sequence`, or -1 for no segment.
pub last_known_sequence : List Segment → ℤ
last_known_sequence [] = negsuc 0
last_known_sequence (s ∷ []) = s.sequence
last_known_sequence (s ∷ t ∷ segments) = last_known_sequence (t ∷ segments)

-- The comparator of `FirstAvailableLiveSegmentIndex`, by index.
abbrev pub older : List Segment → ℤ → ℕ → Bool
older segments oldest i = elim (get_elem? segments i) [
  | none ↦ false
  | some s ↦ ltb_ℤ (s.sequence) oldest
]

unfoldable pub first_available_live_segment_index : List Segment → ℤ → ℕ
first_available_live_segment_index segments oldest =
    if ltb_ℤ oldest (pos 0)
    then 0
    else lower_bound (older segments oldest) (length segments) 0 (length segments)

-- The segments that are left, and how many were dropped.
unfoldable pub prune_rolled_off_live_segments : List Segment → ℤ → List Segment × ℕ
prune_rolled_off_live_segments segments oldest =
    let first_available = first_available_live_segment_index segments oldest in
    let count = min first_available (length segments - 1) in
    if ltb (length segments) 2 then (segments, 0) else (drop count segments, count)

abbrev pub rebase : ℤ → ℤ → List Segment → List Segment
rebase byte_base time_base [] = []
rebase byte_base time_base (s ∷ segments) =
    record s {
      byte_offset = s.byte_offset -ℤ byte_base;
      time_offset_ms = s.time_offset_ms -ℤ time_base;
    }
    ∷ rebase byte_base time_base segments

-- The list from `dropCount` on, which the code's tests make not empty, with the two totals.
rebase_kept : List Segment → ℤ → ℤ → List Segment × ℤ × ℤ
rebase_kept [] total_bytes total_duration_ms = ([], total_bytes, total_duration_ms)
rebase_kept (s ∷ segments) total_bytes total_duration_ms = (
  rebase (s.byte_offset) (s.time_offset_ms) (s ∷ segments),
  total_bytes -ℤ s.byte_offset,
  total_duration_ms -ℤ s.time_offset_ms,
)

unfoldable pub trim_to_trailing_live_edge_margin : List Segment → ℤ → ℤ → ℕ → List Segment × ℤ × ℤ
unfolding rebase_kept
trim_to_trailing_live_edge_margin segments total_bytes total_duration_ms margin_segments =
    if not (ltb margin_segments (length segments))
    then (segments, total_bytes, total_duration_ms)
    else if margin_segments == 0
    then ([], pos 0, pos 0)
    else rebase_kept (drop (length segments - margin_segments) segments) total_bytes
        total_duration_ms
