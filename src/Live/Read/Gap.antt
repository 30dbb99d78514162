-- ===== src/Live/Read/Gap.antt =====
-- A read where every segment that is left has rolled off (`ReadLiveTimeshiftStream` of
-- src/DispatcharrClient.cpp).
use pvr_dispatcharr_unoffici.Prelude.{
  ℕ, zero, suc, ◌≤◌, ◌≡◌, refl, Option, none, some, List, [], ◌∷◌, length, get_elem?, All, arith,
}
use pvr_dispatcharr_unoffici.Prelude.Int.{ℤ, ◌<ℤ◌}
use pvr_dispatcharr_unoffici.Segments.{find_segment_containing_position}
use pvr_dispatcharr_unoffici.Segments.Chain.{start, Chain, Located, find_segment-Located}
use pvr_dispatcharr_unoffici.Live.{Segment, segment_t, Stream, first_available_live_segment_index}
use pvr_dispatcharr_unoffici.Live.Calls.{
  first_available_live_byte_offset, skip_rolled_off, choose_fetch,
}
use pvr_dispatcharr_unoffici.Live.Window.{first_available_live_segment_index_end}
use pvr_dispatcharr_unoffici.Live.Invariant.{IsValid}

get_elem?-past :
    (n : ℕ) (segments : List Segment) → length segments ≤ n → get_elem? segments n ≡ none
get_elem?-past n [] le = refl
get_elem?-past zero (s ∷ segments) le = absurd (omega arith)
get_elem?-past (suc n) (s ∷ segments) le = get_elem?-past n segments (omega arith)

no_skip :
    (s : Stream)
    → IsValid s
    → length (s.segments)
      ≤ first_available_live_segment_index (s.segments) (s.oldest_available_sequence)
    → skip_rolled_off s ≡ s
unfolding skip_rolled_off first_available_live_byte_offset
no_skip s v past = let placed = v.placed in ground (arith, get_elem?-past _ (s.segments) past)

no_segment :
    (position : ℤ) (segments : List Segment) (end : ℤ)
    → Chain segments end
    → position <ℤ start segments end
    → find_segment_containing_position position segments ≡ none
no_segment position segments end c before =
    answer (find_segment_containing_position position segments)
      (find_segment-Located position segments end c)
  where
    answer : (r : Option Segment) → Located position segments end r → r ≡ none
    answer none l = refl
    answer (some seg) l = absurd (omega (arith, l, before))

no_fetch :
    (s : Stream) (size : ℤ)
    → find_segment_containing_position (s.position) (s.segments) ≡ none
    → choose_fetch s size ≡ none
unfolding choose_fetch
no_fetch s size e = rw (choose_fetch, e)

-- In a stream with the invariant, where every segment that is left has rolled off and the
-- position is before the first of them, the position does not move up and a read finds a gap.
pub read_gap :
    (s : Stream) (size : ℤ)
    → IsValid s
    → All (λ t. t.sequence <ℤ s.oldest_available_sequence) (s.segments)
    → s.position <ℤ start (s.segments) (s.total_bytes)
    → (skip_rolled_off s ≡ s) × (choose_fetch (skip_rolled_off s) size ≡ none)
read_gap s size v h before =
    let past =
      first_available_live_segment_index_end (s.segments) (s.oldest_available_sequence)
        (v.ascending) (v.numbered) h in
    let stay = no_skip s v past in
    rw stay (
      refl,
      no_fetch s size (no_segment (s.position) (s.segments) (s.total_bytes) (v.chain) before),
    )
