-- ===== src/Recording/Merge.antt =====
-- What a refresh merges (src/DispatcharrClient.cpp, src/UnprobeableSegment.cpp): the entries are
-- taken in the playlist's order, none skipped and none twice, and the offsets stay exact.
use pvr_dispatcharr_unoffici.Prelude.{
  ℕ, zero, suc, ◌+◌, ◌≡◌, refl, sym, ◌∙◌, ap, ap₂, Bool, true, false, Bool-cases, inl, inr, List,
  [], ◌∷◌, ◌++◌, append-nil, append_assoc, Bytes, length, take, drop, take-append-drop,
  take-append_length, arith,
}
use pvr_dispatcharr_unoffici.Prelude.Int.{ℤ, pos, ◌+ℤ◌, ◌≤ℤ◌, ltb_ℤ, +ℤ_parts}
use pvr_dispatcharr_unoffici.Segments.{append_segment_offsets}
use pvr_dispatcharr_unoffici.Segments.Chain.{Chain, Times, Chain-append, Times-append}
use pvr_dispatcharr_unoffici.Recording.{count_leading_probed_segments, count_mergeable_segments}
use pvr_dispatcharr_unoffici.Recording.Refresh.{
  Pending, Segment, segment_t, Stream, Round, probed_sizes, give_up_sizes, probe_pending,
  append_segment, merge, merge_probed, refresh,
}

-- The segments lie end to end up to `totalBytes`, and their times rise up to `totalDurationMs`.
abbrev pub IsValid : Stream → Type 0
IsValid s = Chain (s.segments) (s.total_bytes) × Times (s.segments) (s.total_duration_ms)

-- What the parser's clamp of `#EXTINF` gives.
abbrev pub NoneNegative : List Pending → Type 0
NoneNegative [] = Unit
NoneNegative (p ∷ pending) = (pos 0 ≤ℤ p.duration_ms) × NoneNegative pending

abbrev pub urls : List Segment → List Bytes
urls [] = []
urls (s ∷ segments) = s.url ∷ urls segments

abbrev pub pending_urls : List Pending → List Bytes
pending_urls [] = []
pending_urls (p ∷ pending) = p.url ∷ pending_urls pending

-- The first `n` sizes are not negative.
abbrev Sized : ℕ → List ℤ → Type 0
Sized zero sizes = Unit
Sized (suc n) [] = Unit
Sized (suc n) (size ∷ sizes) = (pos 0 ≤ℤ size) × Sized n sizes

count_leading-Sized : (sizes : List ℤ) → Sized (count_leading_probed_segments sizes) sizes
unfolding count_leading_probed_segments
count_leading-Sized [] = tt
count_leading-Sized (size ∷ sizes) = elim (Bool-cases (ltb_ℤ (pos 0) size)) [
  | inl f ↦ rw (f, count_leading_probed_segments) (ground arith, count_leading-Sized sizes)
  | inr f ↦ rw (f, count_leading_probed_segments) tt
]

count_mergeable-Sized :
    (given_up : Bool) (sizes : List ℤ)
    → Sized
        (count_mergeable_segments (give_up_sizes given_up sizes) given_up)
        (give_up_sizes given_up sizes)
unfolding count_mergeable_segments
count_mergeable-Sized false sizes = count_leading-Sized sizes
count_mergeable-Sized true [] = tt
count_mergeable-Sized true (size ∷ sizes) = (omega arith, count_leading-Sized sizes)

append_segment-IsValid :
    (s : Stream) (p : Pending) (size : ℤ)
    → IsValid s
    → pos 0 ≤ℤ p.duration_ms
    → pos 0 ≤ℤ size
    → IsValid (append_segment s p size)
unfolding append_segment append_segment_offsets
append_segment-IsValid s p size (chain, times) d h = (
  Chain-append (s.segments) _ (s.total_bytes) chain refl h,
  Times-append (s.segments) _ (s.total_duration_ms) (s.total_duration_ms +ℤ p.duration_ms) times
      refl (let parts = +ℤ_parts (s.total_duration_ms) (p.duration_ms) in ground arith),
)

merge-IsValid :
    (n : ℕ) (pending : List Pending) (sizes : List ℤ) (s : Stream)
    → IsValid s
    → NoneNegative pending
    → Sized n sizes
    → IsValid (merge n pending sizes s)
unfolding merge
merge-IsValid zero pending sizes s v d h = v
merge-IsValid (suc n) [] sizes s v d h = v
merge-IsValid (suc n) (p ∷ pending) [] s v d h = v
merge-IsValid (suc n) (p ∷ pending) (size ∷ sizes) s v (dp, d) (hs, h) =
    merge-IsValid n pending sizes (append_segment s p size)
      (append_segment-IsValid s p size v dp hs) d h

-- A refresh keeps the segments end to end with their running totals, also when it gives the
-- leading one up, if no duration is negative.
pub refresh-IsValid :
    (s : Stream) (r : Round) → IsValid s → NoneNegative (r.pending) → IsValid (refresh s r)
unfolding refresh merge_probed
refresh-IsValid s r v d =
    let (sizes, given_up, tracker) = probe_pending s r in
    merge-IsValid _ (r.pending) sizes _ v d (count_mergeable-Sized given_up _)

pub urls-append : (xs ys : List Segment) → urls (xs ++ ys) ≡ urls xs ++ urls ys
urls-append [] ys = refl
urls-append (x ∷ xs) ys = ap (λ l. x.url ∷ l) (urls-append xs ys)

pub length-urls : (xs : List Segment) → length (urls xs) ≡ length xs
length-urls [] = refl
length-urls (x ∷ xs) = ap suc (length-urls xs)

-- What `merge` appends: segments with the urls of the entries it takes.
merge_appends :
    (n : ℕ) (pending : List Pending) (sizes : List ℤ) (s : Stream)
    → length sizes ≡ length pending
    → (new : List Segment) × ((merge n pending sizes s).segments ≡ s.segments ++ new)
      × (urls new ≡ take n (pending_urls pending))
unfolding merge append_segment append_segment_offsets
merge_appends zero pending sizes s l = ([], sym (append-nil (s.segments)), refl)
merge_appends (suc n) [] sizes s l = ([], sym (append-nil (s.segments)), refl)
merge_appends (suc n) (p ∷ pending) [] s l = absurd (omega (arith, l))
merge_appends (suc n) (p ∷ pending) (size ∷ sizes) s l =
    let (new, e, u) = merge_appends n pending sizes (append_segment s p size) (omega (arith, l)) in
    (_ ∷ new, e ∙ append_assoc (s.segments) (_ ∷ []) new, ap (λ z. p.url ∷ z) u)

pub length-probed_sizes :
    (probe : ℕ → ℤ) (count i : ℕ) (pending : List Pending)
    → length (probed_sizes probe count i pending) ≡ length pending
length-probed_sizes probe count i [] = refl
length-probed_sizes probe count i (p ∷ pending) =
    ap suc (length-probed_sizes probe count (i + 1) pending)

length-give_up_sizes :
    (given_up : Bool) (sizes : List ℤ) → length (give_up_sizes given_up sizes) ≡ length sizes
length-give_up_sizes true [] = refl
length-give_up_sizes true (size ∷ sizes) = refl
length-give_up_sizes false sizes = refl

-- What a refresh appends, by the number of segments that it merges.
pub refresh_appends :
    (s : Stream) (r : Round)
    → (new : List Segment) × ((refresh s r).segments ≡ s.segments ++ new)
      × (urls new ≡ take ((merge_probed s r).1) (pending_urls (r.pending)))
unfolding refresh merge_probed
refresh_appends s r =
    let (sizes, given_up, tracker) = probe_pending s r in
    merge_appends (count_mergeable_segments sizes given_up) (r.pending) sizes _
      (length-give_up_sizes given_up _ ∙ length-probed_sizes (r.probe) _ 0 (r.pending))

-- The stream has the first entries of the playlist, each once and in order.
abbrev pub IsPrefix : List Bytes → Stream → Type 0
IsPrefix playlist s = urls (s.segments) ≡ take (length (s.segments)) playlist

-- Where the pending entries are the playlist's from the number of known segments on, as the parser
-- is asked for them, a refresh keeps the stream's segments the first entries of the playlist, each
-- once and in order, whichever probes fail.
pub refresh-IsPrefix :
    (playlist : List Bytes) (s : Stream) (r : Round)
    → IsPrefix playlist s
    → pending_urls (r.pending) ≡ drop (length (s.segments)) playlist
    → IsPrefix playlist (refresh s r)
refresh-IsPrefix playlist s r known rest =
    let n = (merge_probed s r).1 in
    let (new, e, u) = refresh_appends s r in
    let all =
      ap (λ z. z ++ drop n (pending_urls (r.pending)))
        (ap urls e ∙ urls-append (s.segments) new ∙ ap (λ z. urls (s.segments) ++ z) u)
      ∙ append_assoc (urls (s.segments)) (take n (pending_urls (r.pending)))
          (drop n (pending_urls (r.pending)))
      ∙ ap (λ z. urls (s.segments) ++ z) (take-append-drop n (pending_urls (r.pending)))
      ∙ ap₂ (λ x y. x ++ y) known rest
      ∙ take-append-drop (length (s.segments)) playlist in
    sym (take-append_length (urls ((refresh s r).segments)) (drop n (pending_urls (r.pending))))
    ∙ ap₂ take (length-urls ((refresh s r).segments)) all
