-- ===== src/Segments.antt =====
-- The header templates over a list of stream segments: src/SegmentAppendOffsets.h,
-- src/SegmentLookup.h, and of src/LiveEdgeMargin.h the tail target, the start position and the
-- clamps of a seek. A template's `SegmentT` is the interface `SegmentT`. An `int64_t` is an
-- integer without a bound; that the sums stay in range is proved where the values come from.
pub mod Chain
pub mod Tail
use pvr_dispatcharr_unoffici.Prelude.{
  ℕ, ◌-◌, min, Bool, true, false, ◌&&◌, Option, none, some, List, [], ◌∷◌, length, get_elem?, drop,
  ltb, if◌then◌else◌,
}
use pvr_dispatcharr_unoffici.Prelude.Int.{ℤ, pos, ◌+ℤ◌, ◌-ℤ◌, ltb_ℤ, leb_ℤ, min_ℤ, max_ℤ}

-- The members that the templates need of a segment.
pub record SegmentT (S : Type 0) : Type 0 where
  pub byte_offset : S → ℤ
  pub byte_size : S → ℤ
  pub time_offset_ms : S → ℤ

pub record AppendOffsets : Type 0 where
  pub byte_offset : ℤ
  pub time_offset_ms : ℤ

-- The offsets of the new segment, then the two running totals that the call updates.
unfoldable pub append_segment_offsets : ℤ → ℤ → ℤ → ℤ → AppendOffsets × ℤ × ℤ
append_segment_offsets size_bytes duration_ms total_bytes total_duration_ms = (
  record { byte_offset = total_bytes; time_offset_ms = total_duration_ms },
  total_bytes +ℤ size_bytes,
  total_duration_ms +ℤ duration_ms,
)

unfoldable pub clamp_seek_to_tail : ℤ → ℤ → ℤ → ℤ
clamp_seek_to_tail requested current tail_target =
    if leb_ℤ requested tail_target then requested else max_ℤ tail_target (min_ℤ current requested)

pub record LiveSeekResolution : Type 0 where
  pub position : ℤ
  pub clamped_to_tail : Bool
  pub clamped_to_head : Bool

unfoldable pub resolve_live_seek_target : ℤ → ℤ → ℤ → ℤ → LiveSeekResolution
unfolding clamp_seek_to_tail
resolve_live_seek_target requested current tail_target first_available =
    let to_tail = ltb_ℤ tail_target requested in
    let clamped = if to_tail then clamp_seek_to_tail requested current tail_target else requested in
    let to_head = ltb_ℤ clamped first_available in
    record {
      position = if to_head then first_available else clamped;
      clamped_to_tail = to_tail;
      clamped_to_head = to_head;
    }

unfoldable pub is_at_ended_tail : Bool → ℤ → ℤ → Bool
is_at_ended_tail ended position total_bytes = ended && leb_ℤ total_bytes position

module _ {S : Type 0} ⦃seg : SegmentT S⦄ where
  open seg use {byte_offset, byte_size}

  -- The test of the loop in `FindSegmentContainingPosition`.
  abbrev pub holds : ℤ → S → Bool
  holds position s = leb_ℤ (byte_offset s) position && ltb_ℤ position (byte_offset s +ℤ byte_size s)

  unfoldable pub find_segment_containing_position : ℤ → List S → Option S
  find_segment_containing_position position [] = none
  find_segment_containing_position position (s ∷ segments) =
      if holds position s then some s else find_segment_containing_position position segments

  -- The loop that sums the sizes of the segments that are backed off from.
  unfoldable pub sum_bytes : List S → ℤ
  sum_bytes [] = pos 0
  sum_bytes (s ∷ segments) = byte_size s +ℤ sum_bytes segments

  unfoldable pub compute_live_edge_tail_target : List S → ℤ → ℕ → ℤ
  unfolding sum_bytes
  compute_live_edge_tail_target segments total_bytes margin_segments =
      let backoff_count = min margin_segments (length segments) in
      let backoff_bytes = sum_bytes (drop (length segments - backoff_count) segments) in
      max_ℤ (pos 0) (total_bytes -ℤ backoff_bytes)

  abbrev pub offset_or : Option S → ℤ → ℤ
  offset_or none default = default
  offset_or (some s) default = byte_offset s

  unfoldable pub compute_live_edge_start_position : List S → ℤ → ℕ → ℤ
  compute_live_edge_start_position segments total_bytes margin_segments =
      let segment_count = length segments in
      let margin_index =
        if ltb margin_segments segment_count then segment_count - margin_segments else 0 in
      offset_or (get_elem? segments margin_index) total_bytes
