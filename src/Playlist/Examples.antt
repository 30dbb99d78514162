-- ===== src/Playlist/Examples.antt =====
-- The theorems on a playlist at a recording of two segments that grows by a third.
use pvr_dispatcharr_unoffici.Prelude.{
  ℕ, ◌-◌, ◌*◌, true, false, ◌&&◌, Option, none, some, [], ◌∷◌, ◌++◌, Bytes, codes, drop, leb, ltb,
  ◌≡◌, refl, if◌then◌else◌, ◌↔◌,
}
use pvr_dispatcharr_unoffici.Prelude.Int.{pos}
use pvr_dispatcharr_unoffici.Recording.{new_tracker}
use pvr_dispatcharr_unoffici.Recording.Refresh.{Stream, Round, refresh}
use pvr_dispatcharr_unoffici.Recording.Merge.{IsPrefix}
use pvr_dispatcharr_unoffici.Playlist.{
  DoubleLib, lines, read_lines, parse_new_m3u8_segment_entries, pending_entries,
  rebase_recording_segment_url, m3u8_has_end_list,
}
use pvr_dispatcharr_unoffici.Playlist.Known.{parse-known}
use pvr_dispatcharr_unoffici.Playlist.Follow.{playlist_urls, refresh-follows}
use pvr_dispatcharr_unoffici.Playlist.Durations.{InRangeEntries, parse-InRange}
use pvr_dispatcharr_unoffici.Playlist.EndList.{HasTagLine, m3u8_has_end_list_iff}

-- Whole seconds of one digit stand for the doubles.
abbrev digit : Bytes → Option ℕ
digit [] = none
digit (c ∷ s) = if leb b'0' c && leb c b'9' then some (c - b'0') else none

abbrev sample_doubles : DoubleLib
sample_doubles = record {
  Real = ℕ;
  zero = 0;
  day = 86400;
  stod = digit;
  is_finite = λ d. true;
  below = ltb;
  to_ms = λ d. pos (d * 1000);
}

abbrev text : Bytes
text = codes "#EXTM3U\n#EXTINF:6.0,\na.ts\r\n#EXTINF:nan,\nb.ts"

abbrev more : Bytes
more = codes "#EXTINF:4.2,\nc.ts\n"

parse-known_example :
    parse_new_m3u8_segment_entries sample_doubles text (codes "http://h/") 1
    ≡ drop 1 (parse_new_m3u8_segment_entries sample_doubles text (codes "http://h/") 0)
parse-known_example = parse-known sample_doubles text (codes "http://h/") 1

parse-InRange_example :
    InRangeEntries sample_doubles
      (parse_new_m3u8_segment_entries sample_doubles text (codes "http://h/") 0)
parse-InRange_example =
    parse-InRange sample_doubles text (codes "http://h/") 0 (refl, refl, refl) (refl, refl, refl)

m3u8_has_end_list_iff_example : (m3u8_has_end_list text ≡ true) ↔ HasTagLine (lines text)
m3u8_has_end_list_iff_example = m3u8_has_end_list_iff text

-- The recording has the first of the two segments.
abbrev recorded : Stream
recorded = record {
  segments =
      record {
        url = codes "https://tv.example/hls/a.ts";
        byte_offset = pos 0;
        byte_size = pos 100;
        time_offset_ms = pos 0;
      }
      ∷ [];
  total_bytes = pos 100;
  total_duration_ms = pos 6000;
  unprobeable_segment = new_tracker;
  finished = false;
  end_list_waiting_since = none;
  cached = none;
}

abbrev base : Bytes
base = codes "https://tv.example/"

abbrev base_dir : Bytes
base_dir = codes "http://10.0.0.2:9191/hls/"

abbrev round : Round
round = record {
  pending = pending_entries sample_doubles base (codes "/hls/") base_dir (text ++ b'\n' ∷ more) 1;
  probe = λ i. pos 80;
  probed_at = 1000;
  armed_at = 1001;
  now = 990;
  lookup_ok = true;
  is_in_progress = true;
  has_end_list = false;
}

recorded-IsPrefix :
    IsPrefix (playlist_urls sample_doubles base (codes "/hls/") base_dir text) recorded
unfolding pending_entries parse_new_m3u8_segment_entries lines read_lines
    rebase_recording_segment_url
recorded-IsPrefix = refl

refresh-follows_example :
    IsPrefix
      (playlist_urls sample_doubles base (codes "/hls/") base_dir (text ++ b'\n' ∷ more))
      (refresh recorded round)
refresh-follows_example =
    refresh-follows sample_doubles base (codes "/hls/") base_dir text more recorded round
      recorded-IsPrefix refl
