-- ===== src/Live/Examples.antt =====
-- The theorems on the live stream at a stream of three segments, the first of them rolled off.
use pvr_dispatcharr_unoffici.Prelude.{
  true, false, List, [], ◌∷◌, some, none, ◌≡◌, refl, ◌⊎◌, ◌<◌, ◌≤◌, ◌*◌, arith, codes, length,
}
use pvr_dispatcharr_unoffici.Prelude.Int.{pos, negsuc, ◌+ℤ◌, ◌≤ℤ◌, ◌<ℤ◌}
use pvr_dispatcharr_unoffici.Prelude.Search.{lower_bound}
use pvr_dispatcharr_unoffici.Json.Examples.{Value, manifest_entry, missing, sample_lib}
use pvr_dispatcharr_unoffici.Position.{end}
use pvr_dispatcharr_unoffici.Segments.Chain.{start}
use pvr_dispatcharr_unoffici.Live.{
  Segment, segment_t, Stream, last_known_sequence, parse_new_live_manifest_segments,
  first_available_live_segment_index, prune_rolled_off_live_segments,
}
use pvr_dispatcharr_unoffici.Live.Calls.{
  merge_manifest, finish_refresh, live_edge_margin_segments, start_at_live_edge,
  first_available_live_byte_offset, before_seek, seek_live_timeshift_stream, skip_rolled_off, Fetch,
  choose_fetch,
}
use pvr_dispatcharr_unoffici.Live.Manifest.{Fresh, parse_new_live_manifest_segments-Fresh}
use pvr_dispatcharr_unoffici.Live.Window.{IsPruned, prune_rolled_off_live_segments-IsPruned}
use pvr_dispatcharr_unoffici.Live.Invariant.{IsValid}
use pvr_dispatcharr_unoffici.Live.Refresh.{
  finish_refresh-IsValid, merge_manifest_once, merge_manifest_growth,
}
use pvr_dispatcharr_unoffici.Live.Seek.{Lands, seek_live_timeshift_stream-Lands}
use pvr_dispatcharr_unoffici.Live.Read.{Serves, read-Serves}
use pvr_dispatcharr_unoffici.Live.Read.Gap.{read_gap}
use pvr_dispatcharr_unoffici.Live.Open.{start_at_live_edge-IsValid}

abbrev sample_segments : List Segment
sample_segments =
    record {
      filename = codes "a.ts";
      sequence = pos 5;
      byte_offset = pos 10;
      byte_size = pos 100;
      time_offset_ms = pos 1000;
    }
    ∷ record {
      filename = codes "b.ts";
      sequence = pos 6;
      byte_offset = pos 110;
      byte_size = pos 50;
      time_offset_ms = pos 3000;
    }
    ∷ record {
      filename = codes "c.ts";
      sequence = pos 8;
      byte_offset = pos 160;
      byte_size = pos 70;
      time_offset_ms = pos 5000;
    }
    ∷ []

abbrev sample : Stream
sample = record {
  open_ = true;
  segments = sample_segments;
  oldest_available_sequence = pos 6;
  total_bytes = pos 230;
  total_duration_ms = pos 7000;
  position = pos 20;
  ended = false;
  fatal = false;
}

sample-IsValid : IsValid sample
unfolding ◌+ℤ◌
sample-IsValid = record {
  chain = (omega arith, refl, (omega arith, refl, (omega arith, refl, tt)));
  begins = omega arith;
  times = (omega arith, (omega arith, (omega arith, tt)));
  begins_ms = omega arith;
  ascending = ((omega arith, (omega arith, tt)), ((omega arith, tt), (tt, tt)));
  numbered = (omega arith, (omega arith, (omega arith, tt)));
  not_empty = (omega arith, (omega arith, (omega arith, tt)));
  covered = λ e. absurd (omega arith);
  placed = omega arith;
  within = omega arith;
}

abbrev pub manifest : List Value
manifest =
    manifest_entry (pos 8) (codes "c.ts") (pos 70) (pos 2000)
    ∷ manifest_entry (pos 9) (codes "d.ts") (pos 0) (pos 2000)
    ∷ manifest_entry (pos 9) (codes "d.ts") (pos 30) (negsuc 4)
    ∷ []

parse_new_live_manifest_segments_example :
    Fresh (pos 8) (parse_new_live_manifest_segments sample_lib manifest (pos 8))
parse_new_live_manifest_segments_example =
    parse_new_live_manifest_segments-Fresh sample_lib manifest (pos 8)

prune_rolled_off_live_segments_example :
    IsPruned sample_segments
      (pos 6)
      ((prune_rolled_off_live_segments sample_segments (pos 6)).0)
      ((prune_rolled_off_live_segments sample_segments (pos 6)).1)
prune_rolled_off_live_segments_example =
    prune_rolled_off_live_segments-IsPruned sample_segments (pos 6) (sample-IsValid.ascending)
      (sample-IsValid.numbered)

finish_refresh_example :
    IsValid (finish_refresh sample_lib sample true missing manifest).1
    × ((sample.open_ ≡ false) ⊎ (true ≡ false)
        → finish_refresh sample_lib sample true missing manifest ≡ (false, sample))
finish_refresh_example =
    finish_refresh-IsValid sample_lib sample true missing manifest sample-IsValid

merge_manifest_once_example :
    parse_new_live_manifest_segments sample_lib manifest
      (last_known_sequence ((merge_manifest sample_lib sample missing manifest).segments))
    ≡ []
merge_manifest_once_example = merge_manifest_once sample_lib sample missing manifest sample-IsValid

merge_manifest_growth_example :
    (sample.total_bytes ≤ℤ (merge_manifest sample_lib sample missing manifest).total_bytes)
    × ((merge_manifest sample_lib sample missing manifest).total_bytes
        ≤ℤ sample.total_bytes +ℤ pos (length manifest * 1099511627776))
    × (sample.total_duration_ms
        ≤ℤ (merge_manifest sample_lib sample missing manifest).total_duration_ms)
    × ((merge_manifest sample_lib sample missing manifest).total_duration_ms
        ≤ℤ sample.total_duration_ms +ℤ pos (length manifest * 86400000))
merge_manifest_growth_example = merge_manifest_growth sample_lib sample missing manifest

abbrev refresh_sample : Stream → Stream
refresh_sample s = (finish_refresh sample_lib s true missing manifest).1

seek_live_timeshift_stream_example :
    (seek_live_timeshift_stream refresh_sample sample (negsuc 29) end ≡ (negsuc 0, sample))
    ⊎ Lands
        (before_seek refresh_sample sample end)
        (seek_live_timeshift_stream refresh_sample sample (negsuc 29) end)
seek_live_timeshift_stream_example =
    seek_live_timeshift_stream-Lands refresh_sample sample (negsuc 29) end
      (λ t v. (finish_refresh-IsValid sample_lib t true missing manifest v).0) sample-IsValid

-- What a read of 64 bytes fetches once the position has moved up: 50 bytes of the second segment.
abbrev pub sample_fetch : Fetch
sample_fetch = record {
  segment = record {
    filename = codes "b.ts";
    sequence = pos 6;
    byte_offset = pos 110;
    byte_size = pos 50;
    time_offset_ms = pos 3000;
  };
  offset_in_segment = pos 0;
  want_size = pos 50;
}

before_tail : (skip_rolled_off sample).position <ℤ (skip_rolled_off sample).total_bytes
unfolding skip_rolled_off first_available_live_byte_offset first_available_live_segment_index
    lower_bound
before_tail = omega arith

newest_left : sample.oldest_available_sequence ≤ℤ last_known_sequence (sample.segments)
unfolding last_known_sequence
newest_left = omega arith

read-Serves_example :
    (f : Fetch) × (choose_fetch (skip_rolled_off sample) (pos 64) ≡ some f)
    × Serves (skip_rolled_off sample) (pos 64) f
read-Serves_example =
    read-Serves sample (pos 64) sample-IsValid newest_left before_tail (omega arith)

-- Every segment has rolled off, and the position lies before the first.
abbrev gap_sample : Stream
gap_sample = record {
  open_ = true;
  segments = sample_segments;
  oldest_available_sequence = pos 9;
  total_bytes = pos 230;
  total_duration_ms = pos 7000;
  position = pos 0;
  ended = false;
  fatal = false;
}

gap_sample-IsValid : IsValid gap_sample
gap_sample-IsValid = record {
  chain = sample-IsValid.chain;
  begins = sample-IsValid.begins;
  times = sample-IsValid.times;
  begins_ms = sample-IsValid.begins_ms;
  ascending = sample-IsValid.ascending;
  numbered = sample-IsValid.numbered;
  not_empty = sample-IsValid.not_empty;
  covered = λ e. absurd (omega arith);
  placed = omega arith;
  within = omega arith;
}

read_gap_example :
    (skip_rolled_off gap_sample ≡ gap_sample)
    × (choose_fetch (skip_rolled_off gap_sample) (pos 64) ≡ none)
read_gap_example =
    read_gap gap_sample (pos 64) gap_sample-IsValid (omega arith, (omega arith, (omega arith, tt)))
      (omega arith)

abbrev pub moved_sample : Stream
moved_sample = record {
  open_ = true;
  segments = sample_segments;
  oldest_available_sequence = pos 6;
  total_bytes = pos 230;
  total_duration_ms = pos 7000;
  position = pos 110;
  ended = false;
  fatal = false;
}

pub moved_sample-IsValid : IsValid moved_sample
moved_sample-IsValid = record {
  chain = sample-IsValid.chain;
  begins = sample-IsValid.begins;
  times = sample-IsValid.times;
  begins_ms = sample-IsValid.begins_ms;
  ascending = sample-IsValid.ascending;
  numbered = sample-IsValid.numbered;
  not_empty = sample-IsValid.not_empty;
  covered = λ e. absurd (omega arith);
  placed = omega arith;
  within = omega arith;
}

sample_fetch-Serves : Serves moved_sample (pos 64) sample_fetch
unfolding ◌+ℤ◌
sample_fetch-Serves = record {
  at_position = refl;
  offset_pos = omega arith;
  some_bytes = omega arith;
  requested = omega arith;
  inside = omega arith;
  within = omega arith;
}

start_at_live_edge_example :
    IsValid (start_at_live_edge sample)
    × (length ((start_at_live_edge sample).segments) ≤ live_edge_margin_segments)
    × ((start_at_live_edge sample).position
        ≡ start ((start_at_live_edge sample).segments) ((start_at_live_edge sample).total_bytes))
    × (live_edge_margin_segments < length (sample.segments)
        → (start_at_live_edge sample).position ≡ pos 0)
start_at_live_edge_example = start_at_live_edge-IsValid sample sample-IsValid
