-- ===== src/Playlist.antt =====
-- The playlist of an in-progress recording: src/M3u8SegmentParser.cpp, and how
-- `RefreshInProgressRecordingManifest` of src/DispatcharrClient.cpp asks it for new segments. Doubles
-- and `std::stod` are the interface `DoubleLib`.
pub mod Known
pub mod Follow
pub mod Durations
pub mod EndList
pub mod Rebase
mod Examples
use pvr_dispatcharr_unoffici.Prelude.{
  ℕ, zero, suc, Bool, true, false, not, ◌&&◌, ◌||◌, Option, none, some, List, [], ◌∷◌, ◌++◌, map,
  Bytes, codes, bytes_eq, is_empty, drop, length, starts_with, from_char, before_char, leb, ◌==◌,
  if◌then◌else◌,
}
use pvr_dispatcharr_unoffici.Prelude.Int.{ℤ}
use pvr_dispatcharr_unoffici.Recording.Refresh.{Pending}

-- What the parser uses of `double`. `stod` is none where it throws.
pub record DoubleLib : Type 1 where
  pub Real : Type 0
  pub zero : Real
  -- 86400.0.
  pub day : Real
  pub stod : Bytes → Option Real
  pub is_finite : Real → Bool
  pub below : Real → Real → Bool
  -- `static_cast<int64_t>(x * 1000)`.
  pub to_ms : Real → ℤ

-- The rounds of the loop over '\n': the text's lines, the last one behind the last '\n'.
abbrev pub cons_line : ℕ → List Bytes → List Bytes
cons_line c [] = (c ∷ []) ∷ []
cons_line c (l ∷ ls) = (c ∷ l) ∷ ls

unfoldable pub lines : Bytes → List Bytes
lines [] = [] ∷ []
lines (c ∷ text) = if c == b'\n' then [] ∷ lines text else cons_line c (lines text)

-- `if (!line.empty() && line.back() == '\r') line.pop_back()`.
abbrev pub strip_cr : Bytes → Bytes
strip_cr [] = []
strip_cr (c ∷ []) = if c == b'\r' then [] else c ∷ []
strip_cr (c ∷ d ∷ line) = c ∷ strip_cr (d ∷ line)

abbrev pub is_uri : Bytes → Bool
is_uri [] = false
is_uri (c ∷ line) = not (c == b'#')

abbrev pub is_absolute : Bytes → Bool
is_absolute line = starts_with (codes "http://") line || starts_with (codes "https://") line

module _ (lib : DoubleLib) where
  open lib use {Real, stod, is_finite, below, day, to_ms}

  -- `M3u8SegmentEntry`.
  pub record SegmentEntry : Type 0 where
    pub url : Bytes
    pub duration_sec : Real

  abbrev pub parsed_duration : Bytes → Real
  parsed_duration text = elim (stod text) [ none ↦ lib.zero | some d ↦ d ]

  unfoldable pub clamp_duration : Real → Real
  clamp_duration d =
      if not (is_finite d) || below d (lib.zero) then lib.zero else if below day d then day else d

  -- The duration of an `#EXTINF:` line.
  abbrev pub extinf_duration : Bytes → Real
  extinf_duration line = clamp_duration (parsed_duration (before_char b',' (drop 8 line)))

  abbrev pub entry_of : Bytes → Bytes → Real → SegmentEntry
  entry_of base_dir line duration_sec = record {
    url = if is_absolute line then line else base_dir ++ line;
    duration_sec = duration_sec;
  }

  -- The rounds of the loop over the lines, from `segmentIndex` and `pendingDurationSec` on.
  unfoldable pub read_lines : Bytes → ℕ → ℕ → Real → List Bytes → List SegmentEntry
  read_lines base_dir known index pending [] = []
  read_lines base_dir known index pending (raw ∷ rest) =
      let line = strip_cr raw in
      let behind_extinf = read_lines base_dir known index (extinf_duration line) rest in
      let behind_uri = read_lines base_dir known (suc index) (lib.zero) rest in
      let behind_other = read_lines base_dir known index pending rest in
      if starts_with (codes "#EXTINF:") line
      then behind_extinf
      else if is_uri line
      then (if leb known index then entry_of base_dir line pending ∷ behind_uri else behind_uri)
      else behind_other

  unfoldable pub parse_new_m3u8_segment_entries : Bytes → Bytes → ℕ → List SegmentEntry
  parse_new_m3u8_segment_entries playlist_text base_dir already_known_count =
      read_lines base_dir already_known_count 0 (lib.zero) (lines playlist_text)

-- The loop over trailing '/'.
abbrev pub strip_slashes : Bytes → Bytes
strip_slashes [] = []
strip_slashes (c ∷ s) =
    let rest = strip_slashes s in if is_empty rest && (c == b'/') then [] else c ∷ rest

-- The length of the scheme, if the URL has one of the two.
abbrev pub scheme_end : Bytes → Option ℕ
scheme_end url =
    if starts_with (codes "http://") url
    then some 7
    else if starts_with (codes "https://") url
    then some 8
    else none

abbrev pub rebase_path : Bytes → Bytes → Bytes → Option Bytes → Bytes
rebase_path segment_url base_url required_path_prefix none = segment_url
rebase_path segment_url base_url required_path_prefix (some path) =
    if starts_with required_path_prefix path then strip_slashes base_url ++ path else segment_url

unfoldable pub rebase_recording_segment_url : Bytes → Bytes → Bytes → Bytes
rebase_recording_segment_url segment_url base_url required_path_prefix =
    elim (scheme_end segment_url) [
      | none ↦ segment_url
      | some n ↦
          if is_empty base_url
          then segment_url
          else rebase_path segment_url base_url required_path_prefix
              (from_char b'/' (drop n segment_url))
    ]

abbrev pub is_trailing_blank : ℕ → Bool
is_trailing_blank c = (c == b'\r') || ((c == b' ') || (c == b'\t'))

-- The line up to `lineEnd`.
abbrev pub strip_blanks : Bytes → Bytes
strip_blanks [] = []
strip_blanks (c ∷ s) =
    let rest = strip_blanks s in if is_empty rest && is_trailing_blank c then [] else c ∷ rest

abbrev pub end_list_tag : Bytes
end_list_tag = codes "#EXT-X-ENDLIST"

unfoldable pub has_end_list_line : List Bytes → Bool
has_end_list_line [] = false
has_end_list_line (line ∷ rest) =
    let later = has_end_list_line rest in
    if bytes_eq (strip_blanks line) end_list_tag then true else later

unfoldable pub m3u8_has_end_list : Bytes → Bool
m3u8_has_end_list playlist_text = has_end_list_line (lines playlist_text)

-- The pending entries of a refresh: what is new in the playlist, its URLs rebased.
module _ (lib : DoubleLib) where
  open lib use {to_ms}

  abbrev pub rebase_entries : Bytes → Bytes → List (SegmentEntry lib) → List Pending
  rebase_entries base prefix [] = []
  rebase_entries base prefix (e ∷ entries) =
      record {
        url = rebase_recording_segment_url (e.url) base prefix;
        duration_ms = to_ms (e.duration_sec);
      }
      ∷ rebase_entries base prefix entries

  unfoldable pub pending_entries : Bytes → Bytes → Bytes → Bytes → ℕ → List Pending
  pending_entries base prefix base_dir playlist_text already_known =
      rebase_entries base prefix
        (parse_new_m3u8_segment_entries lib playlist_text base_dir already_known)
