-- ===== src/Live/Refresh.antt =====
-- A refresh of the live manifest (`RefreshLiveManifest` of src/DispatcharrClient.cpp): the
-- invariant, what a second merge of one manifest does, and how far the total can grow.
use pvr_dispatcharr_unoffici.Prelude.{
  ◌*◌, ◌≡◌, refl, ◌∙◌, ap, not, ◌||◌, Bool, true, false, ◌⊎◌, List, [], length, codes,
  if◌then◌else◌, arith,
}
use pvr_dispatcharr_unoffici.Prelude.Int.{ℤ, pos, ◌+ℤ◌, ◌≤ℤ◌, int_laws}
use pvr_dispatcharr_unoffici.Json.{JsonLib, field_or_bool}
use pvr_dispatcharr_unoffici.Live.{
  Entry, Stream, last_known_sequence, parse_new_live_manifest_segments,
  oldest_live_manifest_sequence,
}
use pvr_dispatcharr_unoffici.Live.Calls.{
  append_entries, prune, note_oldest, merge_manifest, finish_refresh,
}
use pvr_dispatcharr_unoffici.Live.Manifest.{
  newest_kept, parse_new_live_manifest_segments-Fresh, parse_twice, length-parse,
}
use pvr_dispatcharr_unoffici.Live.Invariant.{
  IsValid, append_entries-IsValid, append_entries-growth, append_entries-newest, prune-IsPruned,
  prune-IsValid, note_oldest-IsValid, keep-IsValid,
}

mark_ended-IsValid :
    (b : Bool) (s : Stream) → IsValid s → IsValid (if b then record s { ended = true } else s)
mark_ended-IsValid true s v = keep-IsValid s (s.oldest_available_sequence) true v
mark_ended-IsValid false s v = v

abbrev totals : Stream → ℤ × ℤ
totals s = (s.total_bytes, s.total_duration_ms)

totals-mark_ended :
    (b : Bool) (s : Stream) → totals (if b then record s { ended = true } else s) ≡ totals s
totals-mark_ended true s = refl
totals-mark_ended false s = refl

totals-note_oldest : (s : Stream) (oldest : ℤ) → totals (note_oldest s oldest) ≡ totals s
unfolding note_oldest
totals-note_oldest s oldest = ground arith

if-IsValid :
    (b : Bool) {s t : Stream}
    → IsValid s
    → IsValid t
    → IsValid (if◌then◌else◌ {A = Bool × Stream} b (false, s) (true, t)).1
if-IsValid true v w = v
if-IsValid false v w = w

segments-mark_ended :
    (b : Bool) (s : Stream) → (if b then record s { ended = true } else s).segments ≡ s.segments
segments-mark_ended true s = refl
segments-mark_ended false s = refl

segments-note_oldest : (s : Stream) (oldest : ℤ) → (note_oldest s oldest).segments ≡ s.segments
unfolding note_oldest
segments-note_oldest s oldest = ground arith

module _ (lib : JsonLib) where
  open lib use {Json}

  abbrev new_entries : Stream → List Json → List Entry
  new_entries s manifest =
      parse_new_live_manifest_segments lib manifest (last_known_sequence (s.segments))

  -- The state that the prune of a merge starts from.
  abbrev unpruned : Stream → Json → List Json → Stream
  unpruned s result manifest =
      let merged = append_entries s (new_entries s manifest) in
      let marked =
        if field_or_bool lib result (codes "ended") false
        then record merged { ended = true }
        else merged in
      note_oldest marked (oldest_live_manifest_sequence lib manifest)

  unpruned-IsValid :
      (s : Stream) (result : Json) (manifest : List Json)
      → IsValid s
      → IsValid (unpruned s result manifest)
  unpruned-IsValid s result manifest v = note_oldest-IsValid _ _ (
      mark_ended-IsValid (field_or_bool lib result (codes "ended") false) _ (
        append_entries-IsValid s (new_entries s manifest) v
          (parse_new_live_manifest_segments-Fresh lib manifest _)))

  pub merge_manifest-IsValid :
      (s : Stream) (result : Json) (manifest : List Json)
      → IsValid s
      → IsValid (merge_manifest lib s result manifest)
  unfolding merge_manifest
  merge_manifest-IsValid s result manifest v =
      prune-IsValid _ (unpruned-IsValid s result manifest v)

  -- A refresh keeps the invariant, whatever the server answers, and changes nothing where the
  -- stream was closed or replaced in the meantime.
  pub finish_refresh-IsValid :
      (s : Stream) (same_session : Bool) (result : Json) (manifest : List Json)
      → IsValid s
      → IsValid (finish_refresh lib s same_session result manifest).1
        × ((s.open_ ≡ false) ⊎ (same_session ≡ false)
            → finish_refresh lib s same_session result manifest ≡ (false, s))
  unfolding finish_refresh
  finish_refresh-IsValid s same_session result manifest v =
      let merged = merge_manifest-IsValid s result manifest v in
      (if-IsValid (not (s.open_) || not same_session) v merged, λ closed. ground arith)

  segments-unpruned :
      (s : Stream) (result : Json) (manifest : List Json)
      → (unpruned s result manifest).segments ≡ (append_entries s (new_entries s manifest)).segments
  segments-unpruned s result manifest =
      segments-note_oldest _ _
      ∙ segments-mark_ended (field_or_bool lib result (codes "ended") false) _

  merge_manifest-newest :
      (s : Stream) (result : Json) (manifest : List Json)
      → IsValid s
      → last_known_sequence ((merge_manifest lib s result manifest).segments)
        ≡ newest_kept (last_known_sequence (s.segments)) (new_entries s manifest)
  unfolding merge_manifest
  merge_manifest-newest s result manifest v =
      let p = prune-IsPruned (unpruned s result manifest) (unpruned-IsValid s result manifest v) in
      p.newest
      ∙ ap last_known_sequence (segments-unpruned s result manifest)
      ∙ append_entries-newest s (new_entries s manifest)

  -- A manifest that has been merged into a stream with the invariant, and the list pruned, has no
  -- new segment left: the next merge of it appends nothing.
  pub merge_manifest_once :
      (s : Stream) (result : Json) (manifest : List Json)
      → IsValid s
      → parse_new_live_manifest_segments lib manifest
          (last_known_sequence ((merge_manifest lib s result manifest).segments))
        ≡ []
  merge_manifest_once s result manifest v =
      rw (merge_manifest-newest s result manifest v)
        (parse_twice lib manifest (last_known_sequence (s.segments)))

  totals-merge_manifest :
      (s : Stream) (result : Json) (manifest : List Json)
      → totals (merge_manifest lib s result manifest)
        ≡ totals (append_entries s (new_entries s manifest))
  unfolding merge_manifest prune
  totals-merge_manifest s result manifest =
      totals-note_oldest _ _ ∙ totals-mark_ended (field_or_bool lib result (codes "ended") false) _

  -- The totals only grow, by at most 1 TiB and one day for each segment of the manifest.
  pub merge_manifest_growth :
      (s : Stream) (result : Json) (manifest : List Json)
      → let t = merge_manifest lib s result manifest in
        (s.total_bytes ≤ℤ t.total_bytes)
        × (t.total_bytes ≤ℤ s.total_bytes +ℤ pos (length manifest * 1099511627776))
        × (s.total_duration_ms ≤ℤ t.total_duration_ms)
        × (t.total_duration_ms ≤ℤ s.total_duration_ms +ℤ pos (length manifest * 86400000))
  merge_manifest_growth s result manifest =
      let g =
        append_entries-growth s (new_entries s manifest) _
          (parse_new_live_manifest_segments-Fresh lib manifest _) in
      let l = length-parse lib manifest (last_known_sequence (s.segments)) in
      let e = totals-merge_manifest s result manifest in
      rw (ap (λ p. p.0) e, ap (λ p. p.1) e) (omega (int_laws, g, l))
