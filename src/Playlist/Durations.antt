-- ===== src/Playlist/Durations.antt =====
-- The durations of a playlist's entries (src/M3u8SegmentParser.cpp).
use pvr_dispatcharr_unoffici.Prelude.{
  ℕ, suc, ◌≡◌, Bool, true, false, not, ◌||◌, by_if, List, [], ◌∷◌, Bytes, codes, All, starts_with,
  leb, if◌then◌else◌, arith,
}
use pvr_dispatcharr_unoffici.Playlist.{
  DoubleLib, lines, strip_cr, is_uri, SegmentEntry, clamp_duration, read_lines,
  parse_new_m3u8_segment_entries,
}

module _ (lib : DoubleLib) where
  open lib use {Real, day, is_finite, below}

  -- Finite, and from 0 to a day.
  abbrev pub InRange : Real → Type 0
  InRange d = (is_finite d ≡ true) × (below d (lib.zero) ≡ false) × (below day d ≡ false)

  clamp_duration-InRange :
      (d : Real) → InRange (lib.zero) → InRange day → InRange (clamp_duration lib d)
  unfolding clamp_duration
  clamp_duration-InRange d z m =
      by_if InRange (not (is_finite d) || below d (lib.zero)) (lib.zero)
        (if below day d then day else d) (λ e. z)
        (λ e.
          by_if InRange (below day d) day d (λ f. m)
            (λ f. let (fin, nonneg) = usable _ _ e in (fin, nonneg, f)))
    where
      usable : (a b : Bool) → not a || b ≡ false → (a ≡ true) × (b ≡ false)
      usable a b h = (ground arith, ground arith)

  abbrev pub InRangeEntries : List (SegmentEntry lib) → Type 0
  InRangeEntries = All (λ e. InRange (e.duration_sec))

  read_lines-InRange :
      (base_dir : Bytes) (known index : ℕ) (pending : Real) (ls : List Bytes)
      → InRange (lib.zero)
      → InRange day
      → InRange pending
      → InRangeEntries (read_lines lib base_dir known index pending ls)
  unfolding read_lines
  read_lines-InRange base_dir known index pending [] z m p = tt
  read_lines-InRange base_dir known index pending (raw ∷ rest) z m p =
      let line = strip_cr raw in
      let behind_uri = read_lines-InRange base_dir known (suc index) (lib.zero) rest z m z in
      by_if InRangeEntries (starts_with (codes "#EXTINF:") line) _ _
        (λ e. read_lines-InRange base_dir known index _ rest z m (clamp_duration-InRange _ z m))
        (λ e.
          by_if InRangeEntries (is_uri line) _ _
            (λ f.
              by_if InRangeEntries (leb known index) _ _ (λ g. (p, behind_uri)) (λ g. behind_uri))
            (λ f. read_lines-InRange base_dir known index pending rest z m p))

  -- If 0 and a day are themselves finite and in order, every entry's duration is finite and from 0 to a
  -- day, whatever the playlist says and whatever `std::stod` makes of it.
  pub parse-InRange :
      (playlist_text base_dir : Bytes) (known : ℕ)
      → InRange (lib.zero)
      → InRange day
      → InRangeEntries (parse_new_m3u8_segment_entries lib playlist_text base_dir known)
  unfolding parse_new_m3u8_segment_entries
  parse-InRange playlist_text base_dir known z m =
      read_lines-InRange base_dir known 0 (lib.zero) (lines playlist_text) z m z
