-- ===== src/Live/Invariant.antt =====
-- The invariant of the live stream's segment list: the segments lie end to end up to
-- `totalBytes`, their times rise up to `totalDurationMs`, and their sequences rise.
use pvr_dispatcharr_unoffici.Prelude.{
  ℕ, zero, suc, ◌*◌, ◌≡◌, refl, sym, subst, ◌∙◌, Bool, true, Bool-cases, inl, inr, List, [], ◌∷◌,
  ◌++◌, length, length-append, drop, All, All-append, All-drop, ap, arith,
}
use pvr_dispatcharr_unoffici.Prelude.Int.{ℤ, pos, ◌+ℤ◌, ◌≤ℤ◌, ◌<ℤ◌, ltb_ℤ, int_laws}
use pvr_dispatcharr_unoffici.Segments.{append_segment_offsets}
use pvr_dispatcharr_unoffici.Segments.Chain.{
  start, Chain, start_ms, Times, Chain-append, Times-append, start-append, start_ms-append,
  Chain-drop, Times-drop, start-le-start-drop, start_ms-le-start_ms-drop,
}
use pvr_dispatcharr_unoffici.Live.{
  Entry, Segment, segment_t, Stream, last_known_sequence, prune_rolled_off_live_segments,
}
use pvr_dispatcharr_unoffici.Live.Calls.{append_entry, append_entries, prune, note_oldest}
use pvr_dispatcharr_unoffici.Live.Manifest.{IsEntry, Fresh, newest_kept}
use pvr_dispatcharr_unoffici.Live.Window.{
  Ascending, Numbered, IsPruned, prune_rolled_off_live_segments-IsPruned,
}

abbrev pub NotEmpty : List Segment → Type 0
NotEmpty = All (λ s. pos 1 ≤ℤ s.byte_size)

pub record IsValid (s : Stream) : Type 0 where
  pub chain : Chain (s.segments) (s.total_bytes)
  pub begins : pos 0 ≤ℤ start (s.segments) (s.total_bytes)
  pub times : Times (s.segments) (s.total_duration_ms)
  pub begins_ms : pos 0 ≤ℤ start_ms (s.segments) (s.total_duration_ms)
  pub ascending : Ascending (s.segments)
  pub numbered : Numbered (s.segments)
  pub not_empty : NotEmpty (s.segments)
  pub covered : length (s.segments) ≡ 0 → s.total_bytes ≡ pos 0
  pub placed : pos 0 ≤ℤ s.position
  pub within : s.position ≤ℤ s.total_bytes

-- The members that the invariant does not name may change.
pub keep-IsValid :
    (s : Stream) (oldest : ℤ) (ended : Bool)
    → IsValid s
    → IsValid (record s { oldest_available_sequence = oldest; ended = ended })
keep-IsValid s oldest ended v = record {
  chain = v.chain;
  begins = v.begins;
  times = v.times;
  begins_ms = v.begins_ms;
  ascending = v.ascending;
  numbered = v.numbered;
  not_empty = v.not_empty;
  covered = v.covered;
  placed = v.placed;
  within = v.within;
}

-- A stream that is marked as dead.
pub fatal-IsValid : (s : Stream) → IsValid s → IsValid (record s { fatal = true })
fatal-IsValid s v = record {
  chain = v.chain;
  begins = v.begins;
  times = v.times;
  begins_ms = v.begins_ms;
  ascending = v.ascending;
  numbered = v.numbered;
  not_empty = v.not_empty;
  covered = v.covered;
  placed = v.placed;
  within = v.within;
}

-- Every sequence of a rising list is at most the last one.
le-last_known_sequence :
    (segments : List Segment)
    → Ascending segments
    → All (λ s. s.sequence ≤ℤ last_known_sequence segments) segments
unfolding last_known_sequence
le-last_known_sequence [] a = tt
le-last_known_sequence (s ∷ []) a = omega arith
le-last_known_sequence (s ∷ t ∷ segments) (above, a) =
    let ih = le-last_known_sequence (t ∷ segments) a in (omega arith, ih)

All-below :
    (segments : List Segment) (last newer : ℤ)
    → last <ℤ newer
    → All (λ s. s.sequence ≤ℤ last) segments
    → All (λ s. s.sequence <ℤ newer) segments
All-below [] last newer lt h = tt
All-below (s ∷ segments) last newer lt (h, hs) = (omega arith, All-below segments last newer lt hs)

Ascending-append :
    (segments : List Segment) (s : Segment)
    → Ascending segments
    → All (λ t. t.sequence <ℤ s.sequence) segments
    → Ascending (segments ++ s ∷ [])
Ascending-append [] s a h = (tt, tt)
Ascending-append (t ∷ segments) s (above, a) (h, hs) = (
  All-append (λ u. t.sequence <ℤ u.sequence) segments (s ∷ []) above (h, tt),
  Ascending-append segments s a hs,
)

last_known_sequence-append :
    (segments : List Segment) (s : Segment) → last_known_sequence (segments ++ s ∷ []) ≡ s.sequence
unfolding last_known_sequence
last_known_sequence-append [] s = refl
last_known_sequence-append (t ∷ []) s = refl
last_known_sequence-append (t ∷ u ∷ segments) s = last_known_sequence-append (u ∷ segments) s

abbrev new_segment : Stream → Entry → Segment
new_segment s e = record {
  filename = e.filename;
  sequence = e.sequence;
  byte_offset = s.total_bytes;
  byte_size = e.byte_size;
  time_offset_ms = s.total_duration_ms;
}

-- A new entry behind the last known sequence keeps the invariant, and becomes the last known.
pub append_entry-IsValid :
    (s : Stream) (e : Entry)
    → IsValid s
    → IsEntry e
    → last_known_sequence (s.segments) <ℤ e.sequence
    → IsValid (append_entry s e)
unfolding append_entry append_segment_offsets
append_entry-IsValid s e v h lt = record {
  chain = Chain-append (s.segments) _ (s.total_bytes) (v.chain) refl (omega (arith, h.not_empty));
  begins =
      subst (λ z. pos 0 ≤ℤ z) (sym (start-append (s.segments) _ (s.total_bytes) _ refl)) (v.begins);
  times =
      Times-append (s.segments) _ (s.total_duration_ms) _ (v.times) refl
        (omega (int_laws, h.duration_pos));
  begins_ms =
      subst (λ z. pos 0 ≤ℤ z) (sym (start_ms-append (s.segments) _ (s.total_duration_ms) _ refl))
        (v.begins_ms);
  ascending =
      Ascending-append (s.segments) _ (v.ascending)
        (All-below (s.segments) _ _ lt (le-last_known_sequence (s.segments) (v.ascending)));
  numbered = All-append (λ t. pos 0 ≤ℤ t.sequence) (s.segments) _ (v.numbered) (h.numbered, tt);
  not_empty = All-append (λ t. pos 1 ≤ℤ t.byte_size) (s.segments) _ (v.not_empty) (h.not_empty, tt);
  covered = λ z. absurd (omega (arith, length-append (s.segments) (new_segment s e ∷ [])));
  placed = v.placed;
  within = omega (int_laws, v.within, h.not_empty);
}

append_entry-newest :
    (s : Stream) (e : Entry) → last_known_sequence ((append_entry s e).segments) ≡ e.sequence
unfolding append_entry append_segment_offsets
append_entry-newest s e = last_known_sequence-append (s.segments) _

-- So do entries whose sequences rise from behind the last known one.
pub append_entries-IsValid :
    (s : Stream) (entries : List Entry)
    → IsValid s
    → Fresh (last_known_sequence (s.segments)) entries
    → IsValid (append_entries s entries)
unfolding append_entries
append_entries-IsValid s [] v f = v
append_entries-IsValid s (e ∷ entries) v (lt, h, f) =
    append_entries-IsValid (append_entry s e) entries (append_entry-IsValid s e v h lt)
      (rw (append_entry-newest s e) f)

-- The last known sequence is then that of the last entry.
pub append_entries-newest :
    (s : Stream) (entries : List Entry)
    → last_known_sequence ((append_entries s entries).segments)
      ≡ newest_kept (last_known_sequence (s.segments)) entries
unfolding append_entries
append_entries-newest s [] = refl
append_entries-newest s (e ∷ entries) =
    append_entries-newest (append_entry s e) entries
    ∙ ap (λ n. newest_kept n entries) (append_entry-newest s e)

pub Ascending-drop :
    (n : ℕ) (segments : List Segment) → Ascending segments → Ascending (drop n segments)
Ascending-drop zero segments a = a
Ascending-drop (suc n) [] a = a
Ascending-drop (suc n) (s ∷ segments) a = Ascending-drop n segments a.1

-- Dropping segments off the front keeps the invariant: offsets are absolute.
drop-IsValid :
    (n : ℕ) (s : Stream)
    → (length (drop n (s.segments)) ≡ 0 → length (s.segments) ≡ 0)
    → IsValid s
    → IsValid (record s { segments = drop n (s.segments) })
drop-IsValid n s some_left v = record {
  chain = Chain-drop n (s.segments) _ (v.chain);
  begins = omega (arith, v.begins, start-le-start-drop n (s.segments) (s.total_bytes) (v.chain));
  times = Times-drop n (s.segments) _ (v.times);
  begins_ms = omega (
    arith,
    v.begins_ms,
    start_ms-le-start_ms-drop n (s.segments) (s.total_duration_ms) (v.times),
  );
  ascending = Ascending-drop n (s.segments) (v.ascending);
  numbered = All-drop (λ t. pos 0 ≤ℤ t.sequence) n (s.segments) (v.numbered);
  not_empty = All-drop (λ t. pos 1 ≤ℤ t.byte_size) n (s.segments) (v.not_empty);
  covered = λ z. v.covered (some_left z);
  placed = v.placed;
  within = v.within;
}

pub prune-IsPruned :
    (s : Stream)
    → IsValid s
    → IsPruned
        (s.segments)
        (s.oldest_available_sequence)
        ((prune s).segments)
        (prune_rolled_off_live_segments (s.segments) (s.oldest_available_sequence)).1
unfolding prune
prune-IsPruned s v =
    prune_rolled_off_live_segments-IsPruned (s.segments) (s.oldest_available_sequence) (v.ascending)
      (v.numbered)

pub prune-IsValid : (s : Stream) → IsValid s → IsValid (prune s)
unfolding prune
prune-IsValid s v =
    let p = prune-IsPruned s v in
    rw (prune, p.is_drop) (drop-IsValid _ s (λ z. p.not_emptied (rw (p.is_drop) z)) v)

pub note_oldest-IsValid : (s : Stream) (oldest : ℤ) → IsValid s → IsValid (note_oldest s oldest)
unfolding note_oldest
note_oldest-IsValid s oldest v = elim (Bool-cases (ltb_ℤ (s.oldest_available_sequence) oldest)) [
  | inl newer ↦ rw (newer, note_oldest) (keep-IsValid s oldest (s.ended) v)
  | inr older ↦ rw (older, note_oldest) v
]

-- The totals grow with each entry, by at most 1 TiB and one day.
pub append_entries-growth :
    (s : Stream) (entries : List Entry) (newest : ℤ)
    → Fresh newest entries
    → let t = append_entries s entries in
      (s.total_bytes ≤ℤ t.total_bytes)
      × (t.total_bytes ≤ℤ s.total_bytes +ℤ pos (length entries * 1099511627776))
      × (s.total_duration_ms ≤ℤ t.total_duration_ms)
      × (t.total_duration_ms ≤ℤ s.total_duration_ms +ℤ pos (length entries * 86400000))
unfolding append_entries append_entry append_segment_offsets
append_entries-growth s [] newest f = omega int_laws
append_entries-growth s (e ∷ entries) newest (lt, h, f) =
    omega (int_laws, append_entries-growth (append_entry s e) entries (e.sequence) f, h)
