-- ===== src/Live/Reader/FetchKeeps.antt =====
-- The fetch of a read of the live stream keeps the stream's invariant
-- (`ReadLiveTimeshiftStreamOnce` of src/DispatcharrClient.cpp).
use pvr_dispatcharr_unoffici.Prelude.{
  ℕ, ◌≡◌, refl, Bool, true, false, ◌||◌, not, Option, none, some, by_if, arith,
}
use pvr_dispatcharr_unoffici.Prelude.Int.{
  ℤ, pos, ◌+ℤ◌, ◌-ℤ◌, ◌≤ℤ◌, eqb_ℤ, min_ℤ, int_laws, eq_of_parts,
}
use pvr_dispatcharr_unoffici.Position.Bounds.{compute_segment_read_size_lem}
use pvr_dispatcharr_unoffici.Segments.{find_segment_containing_position}
use pvr_dispatcharr_unoffici.Segments.Chain.{Located, find_segment-Located}
use pvr_dispatcharr_unoffici.Retry.{
  LiveSegmentOutcome, transport_failure, segment_gone, range_ignored, unexpected_status,
  size_mismatch, ok,
}
use pvr_dispatcharr_unoffici.Live.{Segment, segment_t, Stream}
use pvr_dispatcharr_unoffici.Live.Invariant.{IsValid, fatal-IsValid}
use pvr_dispatcharr_unoffici.Live.Seek.{move-IsValid}
use pvr_dispatcharr_unoffici.Live.Reader.{
  Reader, Away, unlocked, Failing, Env, retry_segment_fetch, at_tail, count_failure, gives_up,
  handle_failure,
}
use pvr_dispatcharr_unoffici.Live.Reader.Pass.{
  as_int, settle, transfer_segment, read_size, read_segment, fetch,
}

-- While the lock is released the stream keeps its invariant, and, if it is still the same stream then,
-- it has lost none of its bytes.
abbrev pub Keeps : Away → Type 0
Keeps a =
    (s : Stream)
    → IsValid s
    → IsValid (a.stream s) × (a.same ≡ true → s.total_bytes ≤ℤ (a.stream s).total_bytes)

pub record KeepsAll (env : Env) : Type 0 where
  pub heartbeat : Keeps (env.heartbeat)
  pub refresh : (i : ℕ) → Keeps ((env.rounds i).refresh)
  pub sleep : (i : ℕ) → Keeps ((env.rounds i).sleep)
  pub curl_wait : Keeps (env.curl_wait)
  pub away : Keeps (env.away)
  pub failing : Keeps ((env.failing).refresh)

-- The invariant behind an answer, and the range of the answer.
abbrev pub Sound : ℤ → ℤ × Reader → Type 0
Sound size x = IsValid ((x.1).stream) × (retry_segment_fetch ≤ℤ x.0) × (x.0 ≤ℤ size)

pub handle_failure-Sound :
    (f : Failing) (size : ℤ) (r : Reader)
    → Keeps (f.refresh)
    → pos 0 ≤ℤ size
    → IsValid (r.stream)
    → Sound size (handle_failure f r)
unfolding handle_failure
handle_failure-Sound f size r keeps some_size v =
    let refreshed = unlocked (f.refresh) (count_failure f r) in
    let w = (keeps (r.stream) v).0 in
    by_if (Sound size) (not (gives_up f (count_failure f r))) _ _
      (λ e. (w, omega arith, omega arith))
      (λ e.
        by_if (Sound size) ((f.refresh).same) _ _
          (λ g. (fatal-IsValid (refreshed.stream) w, omega arith, omega arith))
          (λ g. (w, omega arith, omega arith)))

same_place : (b : Bool) (x y : ℤ) → not b || not (eqb_ℤ x y) ≡ false → (b ≡ true) × (x ≡ y)
same_place b x y e = (ground arith, eq_of_parts x y (ground arith))

-- A number of bytes that an `int` holds stays what it is.
as_int_range : (n : ℤ) → pos 0 ≤ℤ n → n ≤ℤ pos 2147483647 → (pos 0 ≤ℤ as_int n) × (as_int n ≤ℤ n)
as_int_range n lo hi = ground arith

settle-Sound :
    (env : Env) (size position_at_fetch want_size : ℤ) (outcome : LiveSegmentOutcome) (r : Reader)
    → KeepsAll env
    → pos 0 ≤ℤ want_size
    → want_size ≤ℤ size
    → size ≤ℤ pos 2147483647
    → IsValid (r.stream)
    → ((env.away).same ≡ true → position_at_fetch +ℤ want_size ≤ℤ (r.stream).total_bytes)
    → Sound size (settle env position_at_fetch want_size outcome r)
unfolding settle
settle-Sound env size p w transport_failure r k lo hi fits v within =
    handle_failure-Sound (env.failing) size r (k.failing) (omega arith) v
settle-Sound env size p w segment_gone r k lo hi fits v within =
    handle_failure-Sound (env.failing) size r (k.failing) (omega arith) v
settle-Sound env size p w range_ignored r k lo hi fits v within =
    (fatal-IsValid (r.stream) v, omega arith, omega arith)
settle-Sound env size p w unexpected_status r k lo hi fits v within =
    handle_failure-Sound (env.failing) size r (k.failing) (omega arith) v
settle-Sound env size p w size_mismatch r k lo hi fits v within =
    (fatal-IsValid (r.stream) v, omega arith, omega arith)
settle-Sound env size p w ok r k lo hi fits v within =
    by_if (Sound size) (not ((env.away).same) || not (eqb_ℤ ((r.stream).position) p)) _ _
      (λ e. (v, omega arith, omega arith))
      (λ e.
        let n = min_ℤ (pos ((env.transfer).received)) w in
        let low : pos 0 ≤ℤ n = ground arith in
        let high : n ≤ℤ w = ground arith in
        let (low_int, high_int) = as_int_range n low (omega arith) in
        let (same, at) = same_place ((env.away).same) ((r.stream).position) p e in
        let inside = within same in
        let placed = v.placed in
        (
          move-IsValid (r.stream) _ v (omega int_laws) (rw at (omega int_laws)),
          omega arith,
          omega arith,
        ))

transfer-Sound :
    (env : Env) (size : ℤ) (seg : Segment) (offset want_size : ℤ) (r : Reader)
    → KeepsAll env
    → pos 0 ≤ℤ want_size
    → want_size ≤ℤ size
    → size ≤ℤ pos 2147483647
    → IsValid (r.stream)
    → (r.stream).position +ℤ want_size ≤ℤ (r.stream).total_bytes
    → Sound size (transfer_segment env seg offset want_size r)
unfolding transfer_segment
transfer-Sound env size seg offset w r k lo hi fits v within =
    let locked = unlocked (env.curl_wait) r in
    let (valid, grows) = k.curl_wait (r.stream) v in
    let (back, grows_again) = k.away (locked.stream) valid in
    by_if (Sound size)
      (not ((env.curl_wait).same) || not (eqb_ℤ ((locked.stream).position) ((r.stream).position))) _
      _ (λ e. (valid, omega arith, omega arith))
      (λ e.
        let (same, at) =
          same_place ((env.curl_wait).same) ((locked.stream).position) ((r.stream).position) e in
        let more = grows same in
        by_if (Sound size) (not (env.has_handle)) _ _ (λ f. (valid, omega arith, omega arith))
          (λ f.
            settle-Sound env size ((r.stream).position) w _ _ k lo hi fits back
              (λ still. let still_more = grows_again still in omega arith)))

read_segment-Sound :
    (env : Env) (size : ℤ) (r : Reader)
    → KeepsAll env
    → pos 0 ≤ℤ size
    → size ≤ℤ pos 2147483647
    → IsValid (r.stream)
    → Sound size (
        read_segment env size
          (find_segment_containing_position ((r.stream).position) ((r.stream).segments))
          r)
unfolding read_segment read_size
read_segment-Sound env size r k some_size fits v = of_search _ (
    find_segment-Located ((r.stream).position) ((r.stream).segments) ((r.stream).total_bytes)
      (v.chain))
  where
    of_size :
        (seg : Segment) (offset : ℤ) (o : Option ℤ)
        → ((want : ℤ)
            → o ≡ some want
            → (pos 0 ≤ℤ want)
              × (want ≤ℤ size)
              × ((r.stream).position +ℤ want ≤ℤ (r.stream).total_bytes))
        → Sound size (read_size env seg offset o r)
    of_size seg offset none h = (v, omega arith, omega arith)
    of_size seg offset (some want) h =
        let (lo, hi, within) = h want refl in
        transfer-Sound env size seg offset want r k lo hi fits v within

    of_search :
        (o : Option Segment)
        → Located ((r.stream).position) ((r.stream).segments) ((r.stream).total_bytes) o
        → Sound size (read_segment env size o r)
    of_search none h = handle_failure-Sound (env.failing) size r (k.failing) some_size v
    of_search (some seg) (first, lo, hi, end) =
        of_size seg ((r.stream).position -ℤ seg.byte_offset) _ (λ want e.
          let h =
            (compute_segment_read_size_lem ((r.stream).position -ℤ seg.byte_offset) (seg.byte_size)
                size some_size).0
              want e in
          (omega arith, omega arith, omega (int_laws, h.3, end)))

pub fetch-Sound :
    (env : Env) (size : ℤ) (r : Reader) (gave_up : Bool)
    → KeepsAll env
    → pos 0 ≤ℤ size
    → size ≤ℤ pos 2147483647
    → IsValid (r.stream)
    → Sound size (fetch env size r gave_up)
unfolding fetch
fetch-Sound env size r gave_up k some_size fits v =
    by_if (Sound size) (at_tail r) _ _ (λ e. (v, ground arith, ground arith))
      (λ e. read_segment-Sound env size r k some_size fits v)
