-- ===== src/Live/Manifest.antt =====
-- What src/LiveManifestParser.cpp takes from a manifest.
use pvr_dispatcharr_unoffici.Prelude.{
  ◌≡◌, refl, ◌≢◌, inl, inr, Option-cases, none, some, List, [], ◌∷◌, All, length, ◌≤◌, arith,
}
use pvr_dispatcharr_unoffici.Prelude.Int.{ℤ, pos, ◌≤ℤ◌, ◌<ℤ◌}
use pvr_dispatcharr_unoffici.Json.{JsonLib}
use pvr_dispatcharr_unoffici.Live.{
  Entry, max_segment_duration_ms, max_segment_byte_size, read_entry,
  parse_new_live_manifest_segments,
}

-- The bounds on the fields of an entry that is kept.
pub record IsEntry (e : Entry) : Type 0 where
  pub numbered : pos 0 ≤ℤ e.sequence
  pub named : e.filename ≢ []
  pub not_empty : pos 1 ≤ℤ e.byte_size
  pub small : e.byte_size ≤ℤ max_segment_byte_size
  pub duration_pos : pos 0 ≤ℤ e.duration_ms
  pub duration_small : e.duration_ms ≤ℤ max_segment_duration_ms

-- Entries that are well formed, with sequences that rise, all behind `newest`.
abbrev pub Fresh : ℤ → List Entry → Type 0
Fresh newest [] = Unit
Fresh newest (e ∷ entries) = (newest <ℤ e.sequence) × IsEntry e × Fresh (e.sequence) entries

-- `newestKept` after entries have been taken.
abbrev pub newest_kept : ℤ → List Entry → ℤ
newest_kept newest [] = newest
newest_kept newest (e ∷ entries) = newest_kept (e.sequence) entries

module _ (lib : JsonLib) where
  open lib use {Json}

  read_entry-behind :
      (newest : ℤ) (seg : Json) (e : Entry)
      → read_entry lib newest seg ≡ some e
      → newest <ℤ e.sequence
  unfolding read_entry
  read_entry-behind newest seg e h = ground arith

  read_entry-IsEntry :
      (newest : ℤ) (seg : Json) (e : Entry) → read_entry lib newest seg ≡ some e → IsEntry e
  unfolding read_entry
  read_entry-IsEntry newest seg e h = ground arith

  skip :
      (newest : ℤ) (seg : Json) (segments : List Json)
      → read_entry lib newest seg ≡ none
      → parse_new_live_manifest_segments lib (seg ∷ segments) newest
        ≡ parse_new_live_manifest_segments lib segments newest
  unfolding parse_new_live_manifest_segments
  skip newest seg segments e = rw (e, parse_new_live_manifest_segments)

  take_entry :
      (newest : ℤ) (seg : Json) (segments : List Json) (entry : Entry)
      → read_entry lib newest seg ≡ some entry
      → parse_new_live_manifest_segments lib (seg ∷ segments) newest
        ≡ entry ∷ parse_new_live_manifest_segments lib segments (entry.sequence)
  unfolding parse_new_live_manifest_segments
  take_entry newest seg segments entry e = rw (e, parse_new_live_manifest_segments)

  -- Every entry that is returned is well formed and clamped, and the sequences rise strictly from
  -- behind the last known one, whatever the manifest holds.
  pub parse_new_live_manifest_segments-Fresh :
      (segments : List Json) (newest : ℤ)
      → Fresh newest (parse_new_live_manifest_segments lib segments newest)
  unfolding parse_new_live_manifest_segments
  parse_new_live_manifest_segments-Fresh [] newest = tt
  parse_new_live_manifest_segments-Fresh (seg ∷ segments) newest =
      elim (Option-cases (read_entry lib newest seg)) [
        | inl e ↦
            rw (skip newest seg segments e) (parse_new_live_manifest_segments-Fresh segments newest)
        | inr (entry, e) ↦ rw (take_entry newest seg segments entry e) (
          read_entry-behind newest seg entry e,
          read_entry-IsEntry newest seg entry e,
          parse_new_live_manifest_segments-Fresh segments (entry.sequence),
        )
      ]

  pub newest_kept-le :
      (newest : ℤ) (entries : List Entry)
      → Fresh newest entries
      → newest ≤ℤ newest_kept newest entries
  newest_kept-le newest [] f = omega arith
  newest_kept-le newest (e ∷ entries) f = omega (arith, newest_kept-le (e.sequence) entries f.2)

  -- A segment that was skipped once is skipped at every later sequence.
  skipped_later :
      (newest later : ℤ) (seg : Json)
      → newest ≤ℤ later
      → read_entry lib newest seg ≡ none
      → read_entry lib later seg ≡ none
  unfolding read_entry
  skipped_later newest later seg le h = ground arith

  -- A segment that was taken is skipped from its own sequence on.
  taken_once :
      (newest later : ℤ) (seg : Json) (e : Entry)
      → e.sequence ≤ℤ later
      → read_entry lib newest seg ≡ some e
      → read_entry lib later seg ≡ none
  unfolding read_entry
  taken_once newest later seg e le h = ground arith

  skipped_again :
      (segments : List Json) (newest later : ℤ)
      → newest_kept newest (parse_new_live_manifest_segments lib segments newest) ≤ℤ later
      → All (λ seg. read_entry lib later seg ≡ none) segments
  skipped_again [] newest later le = tt
  skipped_again (seg ∷ segments) newest later le = elim (Option-cases (read_entry lib newest seg)) [
    | inl e ↦
        let h = rw (skip newest seg segments e) at le in
        let ih = newest_kept-le newest _ (parse_new_live_manifest_segments-Fresh segments newest) in
        (skipped_later newest later seg (omega arith) e, skipped_again segments newest later h)
    | inr (entry, e) ↦
        let h = rw (take_entry newest seg segments entry e) at le in
        let rest = parse_new_live_manifest_segments-Fresh segments (entry.sequence) in
        let ih = newest_kept-le (entry.sequence) _ rest in
        (
          taken_once newest later seg entry (omega arith) e,
          skipped_again segments (entry.sequence) later h,
        )
  ]

  parse-nil_of_skipped :
      (segments : List Json) (newest : ℤ)
      → All (λ seg. read_entry lib newest seg ≡ none) segments
      → parse_new_live_manifest_segments lib segments newest ≡ []
  unfolding parse_new_live_manifest_segments
  parse-nil_of_skipped [] newest h = refl
  parse-nil_of_skipped (seg ∷ segments) newest (h, hs) =
      rw (skip newest seg segments h) (parse-nil_of_skipped segments newest hs)

  -- Nothing is taken twice: read again from the newest sequence that it gave, a manifest has no
  -- new entry.
  pub parse_twice :
      (segments : List Json) (newest : ℤ)
      → parse_new_live_manifest_segments lib segments
          (newest_kept newest (parse_new_live_manifest_segments lib segments newest))
        ≡ []
  parse_twice segments newest =
      parse-nil_of_skipped segments _ (skipped_again segments newest _ (omega arith))

  pub length-parse :
      (segments : List Json) (newest : ℤ)
      → length (parse_new_live_manifest_segments lib segments newest) ≤ length segments
  length-parse [] newest = unfold parse_new_live_manifest_segments in omega arith
  length-parse (seg ∷ segments) newest = elim (Option-cases (read_entry lib newest seg)) [
    | inl e ↦ rw (skip newest seg segments e) (omega (arith, length-parse segments newest))
    | inr (entry, e) ↦
        rw (take_entry newest seg segments entry e)
          (omega (arith, length-parse segments (entry.sequence)))
  ]
