-- ===== src/Recording/Finish.antt =====
-- The end of an in-progress recording, and the cache of its segments
-- (src/RecordingVisibility.cpp, src/InProgressSegmentCache.h, src/DispatcharrClient.cpp).
use pvr_dispatcharr_unoffici.Prelude.{
  ℕ, zero, suc, ◌+◌, ◌-◌, ◌≤◌, ◌≡◌, refl, sym, ◌∙◌, ap, ap₂, Bool, true, false, ◌||◌, Bool-cases,
  inl, inr, ◌⊎◌, Option, none, some, List, [], ◌∷◌, ◌++◌, append-nil, Bytes, length, length-append,
  take, drop, drop-append_length, take-append-drop, take-append_length, ltb, ◌==◌, arith,
}
use pvr_dispatcharr_unoffici.Prelude.Int.{ℤ, pos, ltb_ℤ}
use pvr_dispatcharr_unoffici.Recording.{
  count_leading_probed_segments, count_mergeable_segments, resolve_in_progress_finished, since_or,
  gate_finished_on_end_list, should_reseed_in_progress_segment_cache,
}
use pvr_dispatcharr_unoffici.Recording.Refresh.{
  Pending, Segment, Stream, Round, append_segment, merge, end_list_grace, give_up_sizes,
  count_failed, merge_probed, entry_segments, update_cache, refresh,
}
use pvr_dispatcharr_unoffici.Recording.Merge.{
  urls, pending_urls, IsPrefix, urls-append, length-probed_sizes, refresh_appends,
}

-- What allows the stream to be called finished, on the state before the refresh.
pub record MayFinish (s : Stream) (r : Round) : Type 0 where
  pub status :
      (r.lookup_ok ≡ false) × (s.finished ≡ true)
      ⊎ (r.lookup_ok ≡ true) × (r.is_in_progress ≡ false) × ((merge_probed s r).2 ≡ 0)
  pub end_list :
      (r.has_end_list ≡ true)
      ⊎ (since_or (s.end_list_waiting_since) (r.now) + end_list_grace ≤ r.now)

-- A refresh calls the stream finished only if the lookup failed and it was finished before, or the
-- lookup says that the recording is over and no pending segment is left unsized; and only if the
-- playlist has its end tag, or that has been waited for 15 seconds.
pub finished-MayFinish : (s : Stream) (r : Round) → (refresh s r).finished ≡ true → MayFinish s r
unfolding refresh resolve_in_progress_finished gate_finished_on_end_list
finished-MayFinish s r f = record { status = ground arith; end_list = ground arith }

-- The segments that the cache has are the stream's.
abbrev pub InStep : Stream → Type 0
InStep s = (s.cached ≡ none) ⊎ (s.cached ≡ some (s.segments))

-- What is appended to the entry makes it whole, when it is not to be reseeded.
append_whole :
    (cached old new all : List Segment) (n : ℕ)
    → all ≡ old ++ new
    → (cached ≡ []) ⊎ (cached ≡ old)
    → length cached + n ≡ length all
    → cached ++ drop (length all - n) all ≡ all
append_whole cached old new all n e (inl none_there) l =
    let no_length = ap length none_there in
    let from : length all - n ≡ 0 = omega arith in ap₂ (λ c k. c ++ drop k all) none_there from
append_whole cached old new all n e (inr before) l =
    let m = ap length before in
    let k = ap length e in
    let from : length all - n ≡ length old = omega (arith, length-append old new) in
    ap₂ (λ c k. c ++ drop k all) before from
    ∙ ap (λ z. old ++ drop (length old) z) e
    ∙ ap (λ z. old ++ z) (drop-append_length old new)
    ∙ sym e

entry_of :
    (c : Option (List Segment)) (old : List Segment)
    → (c ≡ none) ⊎ (c ≡ some old)
    → (entry_segments c ≡ []) ⊎ (entry_segments c ≡ old)
entry_of c old (inl e) = inl (ap entry_segments e)
entry_of c old (inr e) = inr (ap entry_segments e)

update_cache-whole :
    (s : Stream) (old new : List Segment) (n : ℕ)
    → s.segments ≡ old ++ new
    → (s.cached ≡ none) ⊎ (s.cached ≡ some old)
    → (n ≡ 0 → new ≡ [])
    → (update_cache s n ≡ none) ⊎ (update_cache s n ≡ some (s.segments))
unfolding update_cache should_reseed_in_progress_segment_cache
update_cache-whole s old new n e i z = elim (Bool-cases (ltb 0 n || s.finished)) [
  | inr idle ↦
      let same : s.segments ≡ old = e ∙ ap (λ l. old ++ l) (z (ground arith)) ∙ append-nil old in
      rw (idle, update_cache, same) i
  | inl busy ↦ elim (Bool-cases (s.finished)) [
    | inl over ↦ rw (busy, over, update_cache) (inl refl)
    | inr on ↦ elim (Bool-cases (length (entry_segments (s.cached)) + n == length (s.segments))) [
      | inl step ↦
          rw (busy, on, step, update_cache)
            (inr (
              ap some (
                append_whole (entry_segments (s.cached)) old new (s.segments) n e
                  (entry_of (s.cached) old i) (ground arith))))
      | inr out ↦ rw (busy, on, out, update_cache) (inr refl)
    ]
  ]
]

merge-cached :
    (n : ℕ) (pending : List Pending) (sizes : List ℤ) (s : Stream)
    → (merge n pending sizes s).cached ≡ s.cached
unfolding merge append_segment
merge-cached zero pending sizes s = refl
merge-cached (suc n) [] sizes s = refl
merge-cached (suc n) (p ∷ pending) [] s = refl
merge-cached (suc n) (p ∷ pending) (size ∷ sizes) s =
    merge-cached n pending sizes (append_segment s p size)

no_urls : (new : List Segment) → urls new ≡ [] → new ≡ []
no_urls [] e = refl
no_urls (x ∷ new) e = let l = ap length e in absurd (omega (arith, l))

-- A refresh keeps the cache's entry in step with the stream: there is none, or it has all of the
-- stream's segments.
pub refresh-InStep : (s : Stream) (r : Round) → InStep s → InStep (refresh s r)
unfolding refresh merge_probed
refresh-InStep s r i =
    let (new, e, u) = refresh_appends s r in
    let kept = merge-cached _ (r.pending) _ _ in
    update_cache-whole _ (s.segments) new ((merge_probed s r).1) e
      (elim i [ inl x ↦ inl (kept ∙ x) | inr x ↦ inr (kept ∙ x) ])
      (λ z. no_urls new (u ∙ ap (λ k. take k (pending_urls (r.pending))) z))

count_more :
    (size : ℤ) (sizes : List ℤ)
    → ltb_ℤ (pos 0) size ≡ true
    → count_leading_probed_segments (size ∷ sizes) ≡ suc (count_leading_probed_segments sizes)
unfolding count_leading_probed_segments
count_more size sizes f = rw f refl

count_no_more :
    (size : ℤ) (sizes : List ℤ)
    → ltb_ℤ (pos 0) size ≡ false
    → count_leading_probed_segments (size ∷ sizes) ≡ 0
unfolding count_leading_probed_segments
count_no_more size sizes f = rw f refl

-- Nothing left unsized means that everything is merged.
all_leading :
    (sizes : List ℤ)
    → count_failed (drop (count_leading_probed_segments sizes) sizes) ≡ 0
    → count_leading_probed_segments sizes ≡ length sizes
unfolding count_leading_probed_segments
all_leading [] h = refl
all_leading (size ∷ sizes) h = elim (Bool-cases (ltb_ℤ (pos 0) size)) [
  | inl f ↦
      let e = count_more size sizes f in
      e ∙ ap suc (all_leading sizes (sym (ap (λ k. count_failed (drop k (size ∷ sizes))) e) ∙ h))
  | inr f ↦
      let stopped : count_failed (size ∷ sizes) ≡ 0 =
        sym (ap (λ k. count_failed (drop k (size ∷ sizes))) (count_no_more size sizes f)) ∙ h in
      ground arith
]

all_mergeable :
    (given_up : Bool) (sizes : List ℤ)
    → count_failed (
        drop
          (count_mergeable_segments (give_up_sizes given_up sizes) given_up)
          (give_up_sizes given_up sizes))
      ≡ 0
    → count_mergeable_segments (give_up_sizes given_up sizes) given_up ≡ length sizes
unfolding count_mergeable_segments
all_mergeable false sizes h = all_leading sizes h
all_mergeable true [] h = refl
all_mergeable true (size ∷ sizes) h = ap suc (all_leading sizes h)

take-length : {A : Type 0} (xs : List A) → take (length xs) xs ≡ xs
take-length xs = ap (λ z. take (length xs) z) (sym (append-nil xs)) ∙ take-append_length xs []

length-pending_urls : (pending : List Pending) → length (pending_urls pending) ≡ length pending
length-pending_urls [] = refl
length-pending_urls (p ∷ pending) = ap suc (length-pending_urls pending)

merges_all :
    (s : Stream) (r : Round)
    → (merge_probed s r).2 ≡ 0
    → (merge_probed s r).1 ≡ length (pending_urls (r.pending))
unfolding merge_probed
merges_all s r h =
    all_mergeable _ _ h
    ∙ length-probed_sizes (r.probe) _ 0 (r.pending)
    ∙ sym (length-pending_urls (r.pending))

-- Where the stream has the first entries of the playlist and the pending entries are the others,
-- a refresh whose lookup was answered calls the stream finished only when the stream has every
-- entry of the playlist: no segment at the end is left behind, also not one that could not be
-- sized in that refresh.
pub finished_whole :
    (playlist : List Bytes) (s : Stream) (r : Round)
    → IsPrefix playlist s
    → pending_urls (r.pending) ≡ drop (length (s.segments)) playlist
    → r.lookup_ok ≡ true
    → (refresh s r).finished ≡ true
    → urls ((refresh s r).segments) ≡ playlist
finished_whole playlist s r known rest l f =
    let (new, e, u) = refresh_appends s r in
    elim ((finished-MayFinish s r f).status) [
      | inl (failed, before) ↦ ground arith
      | inr (answered, over, sized) ↦
          let all =
            u
            ∙ ap (λ k. take k (pending_urls (r.pending))) (merges_all s r sized)
            ∙ take-length (pending_urls (r.pending)) in
          ap urls e
          ∙ urls-append (s.segments) new
          ∙ ap₂ (λ x y. x ++ y) known (all ∙ rest)
          ∙ take-append-drop (length (s.segments)) playlist
    ]
