-- ===== src/Live/Calls.antt =====
-- The calls of src/DispatcharrClient.cpp on the live stream's state, each with the work that it
-- does under the state lock. What is fetched over the network comes in as an argument.
use pvr_dispatcharr_unoffici.Prelude.{
  ℕ, Bool, true, false, ◌||◌, not, Option, none, some, List, [], ◌∷◌, ◌++◌, codes, get_elem?,
  if◌then◌else◌,
}
use pvr_dispatcharr_unoffici.Prelude.Int.{ℤ, pos, negsuc, ◌+ℤ◌, ◌-ℤ◌, ltb_ℤ, eqb_ℤ}
use pvr_dispatcharr_unoffici.Json.{JsonLib, field_or_bool}
use pvr_dispatcharr_unoffici.Position.{
  Whence, end, wrapped, resolve_seek_position, compute_segment_read_size,
}
use pvr_dispatcharr_unoffici.Segments.{
  append_segment_offsets, offset_or, compute_live_edge_tail_target,
  compute_live_edge_start_position, resolve_live_seek_target, find_segment_containing_position,
}
use pvr_dispatcharr_unoffici.Live.{
  Entry, parse_new_live_manifest_segments, oldest_live_manifest_sequence, Segment, segment_t,
  Stream, last_known_sequence, first_available_live_segment_index, prune_rolled_off_live_segments,
  trim_to_trailing_live_edge_margin,
}

-- One round of the merge loop.
unfoldable pub append_entry : Stream → Entry → Stream
append_entry s entry =
    let (offsets, total_bytes, total_duration_ms) =
      append_segment_offsets (entry.byte_size) (entry.duration_ms) (s.total_bytes)
        (s.total_duration_ms) in
    record s {
      segments =
          s.segments
          ++ record {
            filename = entry.filename;
            sequence = entry.sequence;
            byte_offset = offsets.byte_offset;
            byte_size = entry.byte_size;
            time_offset_ms = offsets.time_offset_ms;
          }
            ∷ [];
      total_bytes = total_bytes;
      total_duration_ms = total_duration_ms;
    }

unfoldable pub append_entries : Stream → List Entry → Stream
append_entries s [] = s
append_entries s (entry ∷ entries) = append_entries (append_entry s entry) entries

-- The prune at the end of a refresh.
unfoldable pub prune : Stream → Stream
prune s = record s {
  segments = (prune_rolled_off_live_segments (s.segments) (s.oldest_available_sequence)).0;
}

unfoldable pub note_oldest : Stream → ℤ → Stream
note_oldest s oldest =
    if ltb_ℤ (s.oldest_available_sequence) oldest
    then record s { oldest_available_sequence = oldest }
    else s

module _ (lib : JsonLib) where
  open lib use {Json, items}

  -- The merge of a manifest that has been fetched and found to have its fields, `manifest` being
  -- its array of segments.
  unfoldable pub merge_manifest : Stream → Json → List Json → Stream
  merge_manifest s result manifest =
      let entries =
        parse_new_live_manifest_segments lib manifest (last_known_sequence (s.segments)) in
      let merged = append_entries s entries in
      let marked =
        if field_or_bool lib result (codes "ended") false
        then record merged { ended = true }
        else merged in
      prune (note_oldest marked (oldest_live_manifest_sequence lib manifest))

  -- `RefreshLiveManifest` from the state lock on; `same_session` is `m_liveSession == session`.
  unfoldable pub finish_refresh : Stream → Bool → Json → List Json → Bool × Stream
  finish_refresh s same_session result manifest =
      if not (s.open_) || not same_session
      then (false, s)
      else (true, merge_manifest s result manifest)

abbrev pub live_edge_margin_segments : ℕ
live_edge_margin_segments = 3

-- `OpenLiveTimeshiftStream` once the first manifest is there: the trim and the start position.
unfoldable pub start_at_live_edge : Stream → Stream
start_at_live_edge s =
    let (segments, total_bytes, total_duration_ms) =
      trim_to_trailing_live_edge_margin (s.segments) (s.total_bytes) (s.total_duration_ms)
        live_edge_margin_segments in
    record s {
      segments = segments;
      total_bytes = total_bytes;
      total_duration_ms = total_duration_ms;
      position = compute_live_edge_start_position segments total_bytes live_edge_margin_segments;
    }

unfoldable pub first_available_live_byte_offset : Stream → ℤ
first_available_live_byte_offset s =
    offset_or
      (get_elem? (s.segments)
        (first_available_live_segment_index (s.segments) (s.oldest_available_sequence)))
      (pos 0)

abbrev pub live_edge_seek_backoff_segments : ℕ
live_edge_seek_backoff_segments = 3

-- `SeekLiveTimeshiftStream` under the second state lock.
unfoldable pub seek_locked : Stream → ℤ → Whence → ℤ × Stream
seek_locked s position whence =
    let new_pos = resolve_seek_position wrapped position whence (s.position) (s.total_bytes) in
    let tail_target =
      compute_live_edge_tail_target (s.segments) (s.total_bytes) live_edge_seek_backoff_segments in
    let resolved =
      resolve_live_seek_target new_pos (s.position) tail_target
        (first_available_live_byte_offset s) in
    if not (s.open_) || s.fatal
    then (negsuc 0, s)
    else if ltb_ℤ new_pos (pos 0)
    then (negsuc 0, s)
    else (resolved.position, record s { position = resolved.position })

-- The state once `SEEK_END` has asked for a refresh.
abbrev pub before_seek : (Stream → Stream) → Stream → Whence → Stream
before_seek refresh s end = refresh s
before_seek refresh s _ = s

-- The whole call. `refresh` is what `RefreshLiveManifest` does to the state, which `SEEK_END` asks
-- for; its result is not looked at.
unfoldable pub seek_live_timeshift_stream : (Stream → Stream) → Stream → ℤ → Whence → ℤ × Stream
seek_live_timeshift_stream refresh s position whence =
    if not (s.open_) || s.fatal
    then (negsuc 0, s)
    else seek_locked (before_seek refresh s whence) position whence

-- `ReadLiveTimeshiftStream` at its start: a position that has rolled off moves up.
unfoldable pub skip_rolled_off : Stream → Stream
skip_rolled_off s =
    let first_available = first_available_live_byte_offset s in
    if ltb_ℤ (s.position) first_available then record s { position = first_available } else s

-- What a read then fetches, where the position is before the tail: a segment, the offset in it and
-- the number of bytes; nothing for a gap, or where no byte is left to read.
pub record Fetch : Type 0 where
  pub segment : Segment
  pub offset_in_segment : ℤ
  pub want_size : ℤ

unfoldable pub choose_fetch : Stream → ℤ → Option Fetch
choose_fetch s size = elim (find_segment_containing_position (s.position) (s.segments)) [
  | none ↦ none
  | some seg ↦
      elim (compute_segment_read_size (s.position -ℤ seg.byte_offset) (seg.byte_size) size) [
        | none ↦ none
        | some want_size ↦ some (record {
          segment = seg;
          offset_in_segment = s.position -ℤ seg.byte_offset;
          want_size = want_size;
        })
      ]
]

-- The end of a read whose transfer wrote `written` bytes; `same_stream` is `stillSameStream()`.
unfoldable pub commit_read : Stream → Bool → ℤ → ℤ → ℤ × Stream
commit_read s same_stream position_at_fetch written =
    if not same_stream || not (eqb_ℤ (s.position) position_at_fetch)
    then (negsuc 0, s)
    else (written, record s { position = s.position +ℤ written })
