-- ===== src/Live/Seek.antt =====
-- Seeks on the live stream (`SeekLiveTimeshiftStream` of src/DispatcharrClient.cpp).
use pvr_dispatcharr_unoffici.Prelude.{
  ℕ, zero, suc, ◌≡◌, refl, sym, subst, Bool, true, false, not, ◌||◌, Bool-cases, inl, inr, ◌⊎◌,
  List, [], ◌∷◌, get_elem?, if◌then◌else◌, arith,
}
use pvr_dispatcharr_unoffici.Prelude.Int.{ℤ, pos, negsuc, ◌≤ℤ◌, ltb_ℤ, min_ℤ, max_ℤ}
use pvr_dispatcharr_unoffici.Position.{Whence, end, wrapped, resolve_seek_position}
use pvr_dispatcharr_unoffici.Segments.{offset_or, compute_live_edge_start_position}
use pvr_dispatcharr_unoffici.Segments.Chain.{
  start, Chain, start-le, Chain-drop, start-le-start-drop,
}
use pvr_dispatcharr_unoffici.Segments.Tail.{
  resolve_live_seek_target_lem, tail_target-start_position, start_position-trailing, trailing,
}
use pvr_dispatcharr_unoffici.Live.{Segment, segment_t, Stream}
use pvr_dispatcharr_unoffici.Live.Calls.{
  first_available_live_byte_offset, seek_locked, before_seek, seek_live_timeshift_stream,
  live_edge_seek_backoff_segments,
}
use pvr_dispatcharr_unoffici.Live.Invariant.{IsValid}
use pvr_dispatcharr_unoffici.Live.Held.{IsGone, IsHeld, first_available-IsHeld}

-- A move of the position inside the stream keeps the invariant.
pub move-IsValid :
    (s : Stream) (position : ℤ)
    → IsValid s
    → pos 0 ≤ℤ position
    → position ≤ℤ s.total_bytes
    → IsValid (record s { position = position })
move-IsValid s position v lo hi = record {
  chain = v.chain;
  begins = v.begins;
  times = v.times;
  begins_ms = v.begins_ms;
  ascending = v.ascending;
  numbered = v.numbered;
  not_empty = v.not_empty;
  covered = v.covered;
  placed = lo;
  within = hi;
}

pub total_pos : (s : Stream) → IsValid s → pos 0 ≤ℤ s.total_bytes
total_pos s v = omega (arith, v.begins, start-le (s.segments) (s.total_bytes) (v.chain))

offset_or-range :
    (n : ℕ) (segments : List Segment) (total default : ℤ)
    → Chain segments total
    → default ≤ℤ start segments total
    → (default ≤ℤ offset_or (get_elem? segments n) default)
      × (offset_or (get_elem? segments n) default ≤ℤ total)
offset_or-range n [] total default c h = omega arith
offset_or-range zero (s ∷ segments) total default c h =
    let e = start-le (s ∷ segments) total c in omega arith
offset_or-range (suc n) (s ∷ segments) total default c h =
    let up = start-le-start-drop 1 (s ∷ segments) total c in
    offset_or-range n segments total default c.2 (omega arith)

-- The first byte that is still held lies in the stream.
pub first_available_range :
    (s : Stream)
    → IsValid s
    → (pos 0 ≤ℤ first_available_live_byte_offset s)
      × (first_available_live_byte_offset s ≤ℤ s.total_bytes)
unfolding first_available_live_byte_offset
first_available_range s v =
    offset_or-range _ (s.segments) (s.total_bytes) (pos 0) (v.chain) (v.begins)

-- Where a seek goes: behind the margin at the live edge or the reader, whichever is later, and not
-- before the first byte that is held.
abbrev pub landing : Stream → ℤ → ℤ
landing s requested =
    max_ℤ
      (min_ℤ requested (
        max_ℤ
          (compute_live_edge_start_position (s.segments) (s.total_bytes)
            live_edge_seek_backoff_segments)
          (s.position)))
      (first_available_live_byte_offset s)

start_position_range :
    (s : Stream) (margin : ℕ)
    → IsValid s
    → compute_live_edge_start_position (s.segments) (s.total_bytes) margin ≤ℤ s.total_bytes
start_position_range s margin v = rw (start_position-trailing (s.segments) (s.total_bytes) margin) (
    start-le (trailing margin (s.segments)) (s.total_bytes)
      (Chain-drop _ (s.segments) (s.total_bytes) (v.chain)))

pub landing_range :
    (s : Stream) (requested : ℤ)
    → IsValid s
    → (first_available_live_byte_offset s ≤ℤ landing s requested)
      × (landing s requested ≤ℤ s.total_bytes)
landing_range s requested v =
    let f = first_available_range s v in
    let t = start_position_range s live_edge_seek_backoff_segments v in
    let w = v.within in ground arith

-- Under the lock, on a stream with the invariant: a seek of a closed or dead stream, and a
-- refused request, answer -1 and change nothing; any other moves the position to its landing and
-- answers that.
pub seek_locked_lem :
    (s : Stream) (position : ℤ) (whence : Whence)
    → IsValid s
    → let requested = resolve_seek_position wrapped position whence (s.position) (s.total_bytes) in
      seek_locked s position whence ≡ (
        if not (s.open_) || s.fatal
        then (negsuc 0, s)
        else if ltb_ℤ requested (pos 0)
        then (negsuc 0, s)
        else (landing s requested, record s { position = landing s requested }))
unfolding seek_locked
seek_locked_lem s position whence v = rw (
  seek_locked,
  resolve_live_seek_target_lem,
  tail_target-start_position (s.segments) (s.total_bytes) live_edge_seek_backoff_segments (v.chain)
      (v.begins),
)

-- What a seek may answer: a refusal, -1, that leaves the state; or the new position, not before
-- `FirstAvailableLiveByteOffset` and not behind the tail, in a state that keeps the invariant and all
-- else; and unless every segment that is left has rolled off, that position is held.
abbrev pub Lands : Stream → ℤ × Stream → Type 0
Lands s r =
    (r ≡ (negsuc 0, s))
    ⊎ ((r.1 ≡ record s { position = r.0 })
        × (first_available_live_byte_offset s ≤ℤ r.0)
        × (r.0 ≤ℤ s.total_bytes)
        × IsValid (r.1)
        × (IsGone s ⊎ IsHeld s (r.0)))

Lands-landing :
    (s : Stream) (requested : ℤ)
    → IsValid s
    → Lands s (landing s requested, record s { position = landing s requested })
Lands-landing s requested v =
    let (lo, hi) = landing_range s requested v in
    let f = (first_available_range s v).0 in
    inr (
      refl,
      lo,
      hi,
      move-IsValid s (landing s requested) v (omega arith) hi,
      first_available-IsHeld s (landing s requested) v lo hi,
    )

Lands-if :
    (refused bad : Bool) (s : Stream) (r : ℤ × Stream)
    → Lands s r
    → Lands s (if refused then (negsuc 0, s) else if bad then (negsuc 0, s) else r)
Lands-if true bad s r h = inl refl
Lands-if false true s r h = inl refl
Lands-if false false s r h = h

pub seek_locked-Lands :
    (s : Stream) (position : ℤ) (whence : Whence)
    → IsValid s
    → Lands s (seek_locked s position whence)
seek_locked-Lands s position whence v =
    subst (Lands s) (sym (seek_locked_lem s position whence v))
      (Lands-if (not (s.open_) || s.fatal) _ s _ (Lands-landing s _ v))

before_seek-IsValid :
    (refresh : Stream → Stream) (s : Stream) (whence : Whence)
    → ((t : Stream) → IsValid t → IsValid (refresh t))
    → IsValid s
    → IsValid (before_seek refresh s whence)
before_seek-IsValid refresh s end keeps v = keeps s v
before_seek-IsValid refresh s _ keeps v = v

-- In a stream with the invariant, if the refresh that a seek to the end makes keeps it: a seek
-- refuses, with -1, or lands, keeping the invariant, at the tail or on a byte in a segment that the
-- buffer has not dropped (after that refresh); where every segment that is left has rolled off it lands
-- no further than the tail, but the byte may be before the first of them.
pub seek_live_timeshift_stream-Lands :
    (refresh : Stream → Stream) (s : Stream) (position : ℤ) (whence : Whence)
    → ((t : Stream) → IsValid t → IsValid (refresh t))
    → IsValid s
    → (seek_live_timeshift_stream refresh s position whence ≡ (negsuc 0, s))
      ⊎ Lands (before_seek refresh s whence) (seek_live_timeshift_stream refresh s position whence)
unfolding seek_live_timeshift_stream
seek_live_timeshift_stream-Lands refresh s position whence keeps v =
    elim (Bool-cases (not (s.open_) || s.fatal)) [
      | inl refused ↦ inl (rw (refused, seek_live_timeshift_stream))
      | inr open_stream ↦ inr (
          rw (open_stream, seek_live_timeshift_stream)
            (seek_locked-Lands _ position whence (before_seek-IsValid refresh s whence keeps v)))
    ]
