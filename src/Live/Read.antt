-- ===== src/Live/Read.antt =====
-- Reads of the live stream (`ReadLiveTimeshiftStream` of src/DispatcharrClient.cpp): the position
-- that has rolled off, the choice of what to fetch, and the commit of what was read.
pub mod Gap
use mathlib.Core.Bool.{false≢true}
use native.Mathlib.Decide.{dec_lt}
use pvr_dispatcharr_unoffici.Prelude.{
  ℕ, zero, suc, ◌≤◌, sym, ◌∙◌, ap, ◌≡◌, refl, Bool, true, false, Bool-cases, Option-cases, inl, inr,
  Option, none, some, List, [], ◌∷◌, length, get_elem?, All, ◌<◌, ◌&&◌, arith,
}
use pvr_dispatcharr_unoffici.Prelude.Int.{
  ℤ, pos, negsuc, pos_part, ◌+ℤ◌, ◌-ℤ◌, ◌≤ℤ◌, ◌<ℤ◌, ltb_ℤ, eqb_ℤ, int_laws, +ℤ_parts, -ℤ_parts,
}
use pvr_dispatcharr_unoffici.Position.{compute_segment_read_size}
use pvr_dispatcharr_unoffici.Position.Bounds.{compute_segment_read_size_lem}
use pvr_dispatcharr_unoffici.Segments.{find_segment_containing_position}
use pvr_dispatcharr_unoffici.Segments.Chain.{start, Chain, Located, find_segment-Located}
use pvr_dispatcharr_unoffici.Live.{
  Segment, segment_t, Stream, last_known_sequence, first_available_live_segment_index,
}
use pvr_dispatcharr_unoffici.Live.Calls.{
  first_available_live_byte_offset, skip_rolled_off, Fetch, choose_fetch, commit_read,
}
use pvr_dispatcharr_unoffici.Live.Window.{
  first_available_live_segment_index-lt, first_available_live_segment_index_end,
}
use pvr_dispatcharr_unoffici.Live.Invariant.{IsValid}
use pvr_dispatcharr_unoffici.Live.Seek.{move-IsValid, first_available_range}
use pvr_dispatcharr_unoffici.Live.Held.{start-le-offset_or}

-- Moving up a position that has rolled off keeps the invariant, and leaves the position at or
-- behind the first byte that is still held.
pub skip_rolled_off-IsValid :
    (s : Stream)
    → IsValid s
    → IsValid (skip_rolled_off s)
      × (first_available_live_byte_offset s ≤ℤ (skip_rolled_off s).position)
unfolding skip_rolled_off
skip_rolled_off-IsValid s v =
    let f = first_available_range s v in
    elim (Bool-cases (ltb_ℤ (s.position) (first_available_live_byte_offset s))) [
      | inl behind ↦ rw (behind, skip_rolled_off) (move-IsValid s _ v f.0 f.1, omega arith)
      | inr held ↦ rw (held, skip_rolled_off) (v, ground arith)
    ]

-- What a right choice of a fetch is: bytes from the position on, inside one segment of the stream,
-- at least one and at most `size`.
pub record Serves (s : Stream) (size : ℤ) (f : Fetch) : Type 0 where
  pub at_position : f.segment.byte_offset +ℤ f.offset_in_segment ≡ s.position
  pub offset_pos : pos 0 ≤ℤ f.offset_in_segment
  pub some_bytes : pos 1 ≤ℤ f.want_size
  pub requested : f.want_size ≤ℤ size
  pub inside : f.offset_in_segment +ℤ f.want_size ≤ℤ f.segment.byte_size
  pub within : s.position +ℤ f.want_size ≤ℤ s.total_bytes

add_sub : (a b : ℤ) → a +ℤ (b -ℤ a) ≡ b
add_sub a b = omega int_laws

pub serve :
    (s : Stream) (size : ℤ) (seg : Segment)
    → pos 1 ≤ℤ size
    → seg.byte_offset ≤ℤ s.position
    → s.position <ℤ seg.byte_offset +ℤ seg.byte_size
    → seg.byte_offset +ℤ seg.byte_size ≤ℤ s.total_bytes
    → find_segment_containing_position (s.position) (s.segments) ≡ some seg
    → (f : Fetch) × (choose_fetch s size ≡ some f) × Serves s size f
unfolding choose_fetch
serve s size seg one lo hi end found =
    elim (Option-cases
      (compute_segment_read_size (s.position -ℤ seg.byte_offset) (seg.byte_size) size)) [
        | inl refusal ↦
            let refused =
              (compute_segment_read_size_lem _ (seg.byte_size) size (omega arith)).1 refusal in
            absurd (
              ground (
                arith,
                -ℤ_parts (s.position) (seg.byte_offset),
                +ℤ_parts (seg.byte_offset) (seg.byte_size),
              ))
        | inr (want, granted) ↦
            let (p, w, r, i) =
              (compute_segment_read_size_lem _ (seg.byte_size) size (omega arith)).0 want granted in
            (
              record {
                segment = seg;
                offset_in_segment = s.position -ℤ seg.byte_offset;
                want_size = want;
              },
              rw (choose_fetch, found, granted),
              record {
                at_position = add_sub (seg.byte_offset) (s.position);
                offset_pos = p;
                some_bytes = w;
                requested = r;
                inside = i;
                within = omega (int_laws, i, end);
              },
            )
      ]

-- A position at or behind the first segment and before the tail is in a segment.
choose_fetch-Serves :
    (s : Stream) (size : ℤ)
    → IsValid s
    → start (s.segments) (s.total_bytes) ≤ℤ s.position
    → s.position <ℤ s.total_bytes
    → pos 1 ≤ℤ size
    → (f : Fetch) × (choose_fetch s size ≡ some f) × Serves s size f
choose_fetch-Serves s size v held before one =
    answer (find_segment_containing_position (s.position) (s.segments)) refl
      (find_segment-Located (s.position) (s.segments) (s.total_bytes) (v.chain))
  where
    answer :
        (r : Option Segment)
        → find_segment_containing_position (s.position) (s.segments) ≡ r
        → Located (s.position) (s.segments) (s.total_bytes) r
        → (f : Fetch) × (choose_fetch s size ≡ some f) × Serves s size f
    answer none e (inl low) = absurd (omega arith)
    answer none e (inr high) = absurd (omega arith)
    answer (some seg) e (first, lo, hi, end) = serve s size seg one lo hi end e

start-le-first_available :
    (s : Stream)
    → IsValid s
    → 0 < length (s.segments)
    → s.oldest_available_sequence ≤ℤ last_known_sequence (s.segments)
    → start (s.segments) (s.total_bytes) ≤ℤ first_available_live_byte_offset s
unfolding first_available_live_byte_offset
start-le-first_available s v some_left le =
    start-le-offset_or _ (s.segments) (s.total_bytes) (pos 0) (v.chain) (
      first_available_live_segment_index-lt (s.segments) (s.oldest_available_sequence) (v.ascending)
        (v.numbered) some_left le)

-- A skip leaves all but the position.
segments-skip_rolled_off :
    (s : Stream)
    → (start ((skip_rolled_off s).segments) ((skip_rolled_off s).total_bytes)
        ≡ start (s.segments) (s.total_bytes))
      × ((skip_rolled_off s).total_bytes ≡ s.total_bytes)
unfolding skip_rolled_off
segments-skip_rolled_off s =
    elim (Bool-cases (ltb_ℤ (s.position) (first_available_live_byte_offset s))) [
      | inl behind ↦ rw (behind, skip_rolled_off) (refl, refl)
      | inr held ↦ rw (held, skip_rolled_off) (refl, refl)
    ]

some_segments :
    (s : Stream)
    → IsValid s
    → (skip_rolled_off s).position <ℤ s.total_bytes
    → 0 < length (s.segments)
some_segments s v before =
    let w = (skip_rolled_off-IsValid s v).0.placed in
    elim (dec_lt 0 (length (s.segments))) [
      | yes some_left ↦ some_left
      | no empty ↦ let e = v.covered (omega arith) in absurd (omega (arith, ap pos_part e))
    ]

held_after_skip :
    (s : Stream)
    → IsValid s
    → s.oldest_available_sequence ≤ℤ last_known_sequence (s.segments)
    → (skip_rolled_off s).position <ℤ (skip_rolled_off s).total_bytes
    → start ((skip_rolled_off s).segments) ((skip_rolled_off s).total_bytes)
      ≤ℤ (skip_rolled_off s).position
held_after_skip s v le before =
    let (e, t) = segments-skip_rolled_off s in
    let low = (skip_rolled_off-IsValid s v).1 in
    let some_left = some_segments s v (ground arith) in
    rw e (omega (arith, low, start-le-first_available s v some_left le))

-- In a stream with the invariant, where not every segment that is left has rolled off, a read of
-- at least one byte whose position, once moved up, is before the tail finds bytes to fetch: they
-- lie at that position, in one segment, and end before the tail.
pub read-Serves :
    (s : Stream) (size : ℤ)
    → IsValid s
    → s.oldest_available_sequence ≤ℤ last_known_sequence (s.segments)
    → (skip_rolled_off s).position <ℤ (skip_rolled_off s).total_bytes
    → pos 1 ≤ℤ size
    → (f : Fetch) × (choose_fetch (skip_rolled_off s) size ≡ some f)
      × Serves (skip_rolled_off s) size f
read-Serves s size v le before one =
    let w = skip_rolled_off-IsValid s v in
    choose_fetch-Serves (skip_rolled_off s) size w.0 (held_after_skip s v le before) before one

pub commits :
    (s : Stream) (same_stream : Bool) (position_at_fetch written : ℤ)
    → same_stream && eqb_ℤ (s.position) position_at_fetch ≡ true
    → commit_read s same_stream position_at_fetch written
      ≡ (written, record s { position = s.position +ℤ written })
unfolding commit_read
commits s same_stream position_at_fetch written e = ground arith

pub refuses :
    (s : Stream) (same_stream : Bool) (position_at_fetch written : ℤ)
    → same_stream && eqb_ℤ (s.position) position_at_fetch ≡ false
    → commit_read s same_stream position_at_fetch written ≡ (negsuc 0, s)
unfolding commit_read
refuses s same_stream position_at_fetch written e = ground arith

-- The commit of a transfer that wrote no more than was wanted, of a fetch that the state serves,
-- keeps the invariant, answers the bytes written, and moves the position by them; where the
-- stream was closed or the position moved meanwhile it answers -1 and changes nothing.
pub commit_read-IsValid :
    (s : Stream) (size written : ℤ) (f : Fetch) (same_stream : Bool) (position_at_fetch : ℤ)
    → IsValid s
    → Serves s size f
    → pos 0 ≤ℤ written
    → written ≤ℤ f.want_size
    → IsValid (commit_read s same_stream position_at_fetch written).1
      × (same_stream && eqb_ℤ (s.position) position_at_fetch ≡ true
          → commit_read s same_stream position_at_fetch written
            ≡ (written, record s { position = s.position +ℤ written }))
      × (same_stream && eqb_ℤ (s.position) position_at_fetch ≡ false
          → commit_read s same_stream position_at_fetch written ≡ (negsuc 0, s))
commit_read-IsValid s size written f same_stream position_at_fetch v serves lo hi =
    let t = serves.within in
    let p = v.placed in
    elim (Bool-cases (same_stream && eqb_ℤ (s.position) position_at_fetch)) [
      | inl same ↦ (
        rw (commits s same_stream position_at_fetch written same)
            (move-IsValid s _ v (omega int_laws) (omega int_laws)),
        λ e. commits s same_stream position_at_fetch written e,
        λ e. absurd (false≢true (sym e ∙ same)),
      )
      | inr other ↦ (
        rw (refuses s same_stream position_at_fetch written other) v,
        λ e. absurd (false≢true (sym other ∙ e)),
        λ e. refuses s same_stream position_at_fetch written e,
      )
    ]
