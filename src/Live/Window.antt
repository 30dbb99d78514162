-- ===== src/Live/Window.antt =====
-- Which segments the rolling buffer still holds: the index and the prune of
-- src/LiveEdgeMargin.h on a list whose sequences rise.
use native.Mathlib.Decide.{dec_le}
use pvr_dispatcharr_unoffici.Prelude.{
  ℕ, zero, suc, ◌-◌, ◌≤◌, ◌<◌, min, ◌≡◌, refl, ◌⊎◌, inl, inr, true, false, Bool-cases, List, [],
  ◌∷◌, ◌++◌, length, take, drop, All, length-drop, take-append-drop, ltb, ltb→lt, arith,
}
use pvr_dispatcharr_unoffici.Prelude.Int.{ℤ, pos, ltb_ℤ, ◌≤ℤ◌, ◌<ℤ◌}
use pvr_dispatcharr_unoffici.Prelude.Search.{lower_bound-IsPartitionPoint}
use pvr_dispatcharr_unoffici.Live.{
  Segment, last_known_sequence, older, first_available_live_segment_index,
  prune_rolled_off_live_segments,
}

abbrev pub Ascending : List Segment → Type 0
Ascending [] = Unit
Ascending (s ∷ segments) = All (λ t. s.sequence <ℤ t.sequence) segments × Ascending segments

abbrev pub Numbered : List Segment → Type 0
Numbered = All (λ s. pos 0 ≤ℤ s.sequence)

older-above :
    (s : Segment) (segments : List Segment) (oldest : ℤ) (j : ℕ)
    → All (λ t. s.sequence <ℤ t.sequence) segments
    → older segments oldest j ≡ true
    → s.sequence <ℤ oldest
older-above s [] oldest j h e = ground arith
older-above s (t ∷ segments) oldest zero h e = ground arith
older-above s (t ∷ segments) oldest (suc j) h e = older-above s segments oldest j h.1 e

older_falls :
    (segments : List Segment) (oldest : ℤ)
    → Ascending segments
    → (i j : ℕ) → i ≤ j
    → older segments oldest j ≡ true
    → older segments oldest i ≡ true
older_falls [] oldest a i j le e = e
older_falls (s ∷ segments) oldest a zero zero le e = e
older_falls (s ∷ segments) oldest a zero (suc j) le e =
    let h = older-above s segments oldest j a.0 e in ground arith
older_falls (s ∷ segments) oldest a (suc i) zero le e = absurd (omega arith)
older_falls (s ∷ segments) oldest a (suc i) (suc j) le e =
    older_falls segments oldest a.1 i j (omega arith) e

older_past :
    (segments : List Segment) (oldest : ℤ) (i : ℕ)
    → length segments ≤ i
    → older segments oldest i ≡ false
older_past [] oldest i h = refl
older_past (s ∷ segments) oldest zero h = absurd (omega arith)
older_past (s ∷ segments) oldest (suc i) h = older_past segments oldest i (omega arith)

All-take-older :
    (r : ℕ) (segments : List Segment) (oldest : ℤ)
    → ((i : ℕ) → i < r → older segments oldest i ≡ true)
    → All (λ s. s.sequence <ℤ oldest) (take r segments)
All-take-older zero segments oldest h = tt
All-take-older (suc r) [] oldest h = tt
All-take-older (suc r) (s ∷ segments) oldest h =
    let first = h 0 (omega arith) in
    (ground arith, All-take-older r segments oldest (λ i lt. h (suc i) (omega arith)))

All-drop-older :
    (r : ℕ) (segments : List Segment) (oldest : ℤ)
    → ((i : ℕ) → r ≤ i → older segments oldest i ≡ false)
    → All (λ s. oldest ≤ℤ s.sequence) (drop r segments)
All-drop-older zero [] oldest h = tt
All-drop-older zero (s ∷ segments) oldest h =
    let first = h 0 (omega arith) in
    (ground arith, All-drop-older zero segments oldest (λ i le. h (suc i) (omega arith)))
All-drop-older (suc r) [] oldest h = tt
All-drop-older (suc r) (s ∷ segments) oldest h =
    All-drop-older r segments oldest (λ i le. h (suc i) (omega arith))

All-Numbered :
    (segments : List Segment) (oldest : ℤ)
    → oldest <ℤ pos 0
    → Numbered segments
    → All (λ s. oldest ≤ℤ s.sequence) segments
All-Numbered [] oldest h n = tt
All-Numbered (s ∷ segments) oldest h (n, ns) = (omega arith, All-Numbered segments oldest h ns)

-- On a list whose sequences rise from 0 or more the index splits the list by the oldest sequence
-- that the server still has: every segment before it is older, and none from it on is.
pub first_available_live_segment_index_lem :
    (segments : List Segment) (oldest : ℤ)
    → Ascending segments
    → Numbered segments
    → let r = first_available_live_segment_index segments oldest in
      All (λ s. s.sequence <ℤ oldest) (take r segments)
      × All (λ s. oldest ≤ℤ s.sequence) (drop r segments)
unfolding first_available_live_segment_index
first_available_live_segment_index_lem segments oldest a n =
    elim (Bool-cases (ltb_ℤ oldest (pos 0))) [
      | inl unknown ↦
          rw (unknown, first_available_live_segment_index)
            (tt, All-Numbered segments oldest (ground arith) n)
      | inr known ↦
          let point =
            lower_bound-IsPartitionPoint (older segments oldest) (older_falls segments oldest a)
              (length segments) 0 (length segments) (omega arith) (λ i lt. absurd (omega arith))
              (λ i le. older_past segments oldest i (omega arith)) in
          rw (known, first_available_live_segment_index)
            (
              All-take-older _ segments oldest (point.below),
              All-drop-older _ segments oldest (point.above),
            )
    ]

All-take_le :
    (m r : ℕ) (segments : List Segment) (oldest : ℤ)
    → m ≤ r
    → All (λ s. s.sequence <ℤ oldest) (take r segments)
    → All (λ s. s.sequence <ℤ oldest) (take m segments)
All-take_le zero r segments oldest le h = tt
All-take_le (suc m) zero segments oldest le h = absurd (omega arith)
All-take_le (suc m) (suc r) [] oldest le h = tt
All-take_le (suc m) (suc r) (s ∷ segments) oldest le h =
    (h.0, All-take_le m r segments oldest (omega arith) h.1)

last_known_sequence-drop :
    (m : ℕ) (segments : List Segment)
    → m < length segments
    → last_known_sequence (drop m segments) ≡ last_known_sequence segments
unfolding last_known_sequence
last_known_sequence-drop zero segments lt = refl
last_known_sequence-drop (suc m) [] lt = absurd (omega arith)
last_known_sequence-drop (suc m) (s ∷ []) lt = absurd (omega arith)
last_known_sequence-drop (suc m) (s ∷ t ∷ segments) lt =
    last_known_sequence-drop m (t ∷ segments) (omega arith)

module _ (segments : List Segment) (oldest : ℤ) where
  -- What a prune may do to the list: it takes `count` segments off the front, all of them older
  -- than the oldest sequence that the server has, keeps the newest one, and leaves no older
  -- segment behind but perhaps that one.
  pub record IsPruned (kept : List Segment) (count : ℕ) : Type 0 where
    pub splits : take count segments ++ kept ≡ segments
    pub is_drop : kept ≡ drop count segments
    pub rolled_off : All (λ s. s.sequence <ℤ oldest) (take count segments)
    pub newest : last_known_sequence kept ≡ last_known_sequence segments
    pub not_emptied : length kept ≡ 0 → length segments ≡ 0
    pub held : All (λ s. oldest ≤ℤ s.sequence) kept ⊎ (length kept ≡ 1)

short_held :
    (segments : List Segment) (oldest : ℤ)
    → length segments < 2
    → All (λ s. oldest ≤ℤ s.sequence) segments ⊎ (length segments ≡ 1)
short_held [] oldest h = inl tt
short_held (s ∷ segments) oldest h = inr (omega arith)

dropped_held :
    (r : ℕ) (segments : List Segment) (oldest : ℤ)
    → 2 ≤ length segments
    → All (λ s. oldest ≤ℤ s.sequence) (drop r segments)
    → let kept = drop (min r (length segments - 1)) segments in
      All (λ s. oldest ≤ℤ s.sequence) kept ⊎ (length kept ≡ 1)
dropped_held r segments oldest le h = elim (dec_le r (length segments - 1)) [
  | yes p ↦ let e : min r (length segments - 1) ≡ r = omega arith in rw e (inl h)
  | no p ↦ inr (omega (arith, length-drop (min r (length segments - 1)) segments))
]

-- On a list whose sequences rise from 0 or more the prune takes segments off the front, all of
-- them older than the oldest sequence that the server has, keeps the newest one, and leaves no
-- older segment behind but perhaps that one.
pub prune_rolled_off_live_segments-IsPruned :
    (segments : List Segment) (oldest : ℤ)
    → Ascending segments
    → Numbered segments
    → let (kept, count) = prune_rolled_off_live_segments segments oldest in
      IsPruned segments oldest kept count
unfolding prune_rolled_off_live_segments
prune_rolled_off_live_segments-IsPruned segments oldest a n =
    elim (Bool-cases (ltb (length segments) 2)) [
      | inl short ↦
          rw (short, prune_rolled_off_live_segments)
            (record {
              splits = refl;
              is_drop = refl;
              rolled_off = tt;
              newest = refl;
              not_emptied = λ e. e;
              held = short_held segments oldest (ltb→lt _ _ short);
            })
      | inr long ↦
          let (lo, hi) = first_available_live_segment_index_lem segments oldest a n in
          let r = first_available_live_segment_index segments oldest in
          let many : 2 ≤ length segments = ground arith in
          rw (long, prune_rolled_off_live_segments)
            (record {
              splits = take-append-drop _ segments;
              is_drop = refl;
              rolled_off = All-take_le _ _ segments oldest (omega arith) lo;
              newest = last_known_sequence-drop _ segments (omega arith);
              not_emptied =
                  λ e. absurd (omega (arith, length-drop (min r (length segments - 1)) segments));
              held = dropped_held _ segments oldest many hi;
            })
    ]

last_known_sequence-lt :
    (s : Segment) (segments : List Segment) (oldest : ℤ) (r : ℕ)
    → length (s ∷ segments) ≤ r
    → All (λ t. t.sequence <ℤ oldest) (take r (s ∷ segments))
    → last_known_sequence (s ∷ segments) <ℤ oldest
unfolding last_known_sequence
last_known_sequence-lt s segments oldest zero le h = absurd (omega arith)
last_known_sequence-lt s [] oldest (suc r) le h = h.0
last_known_sequence-lt s (t ∷ segments) oldest (suc r) le h =
    last_known_sequence-lt t segments oldest r (omega arith) h.1

-- Where the newest segment has not rolled off, the index is one of the list.
pub first_available_live_segment_index-lt :
    (segments : List Segment) (oldest : ℤ)
    → Ascending segments
    → Numbered segments
    → 0 < length segments
    → oldest ≤ℤ last_known_sequence segments
    → first_available_live_segment_index segments oldest < length segments
first_available_live_segment_index-lt [] oldest a n some_left le = absurd (omega arith)
first_available_live_segment_index-lt (s ∷ segments) oldest a n some_left le =
    let r = first_available_live_segment_index (s ∷ segments) oldest in
    elim (dec_le (length (s ∷ segments)) r) [
      | yes past ↦
          let lo = (first_available_live_segment_index_lem (s ∷ segments) oldest a n).0 in
          absurd (omega (arith, last_known_sequence-lt s segments oldest r past lo))
      | no inside ↦ omega arith
    ]

length-le_of_clash :
    (r : ℕ) (segments : List Segment) (oldest : ℤ)
    → All (λ s. s.sequence <ℤ oldest) segments
    → All (λ s. oldest ≤ℤ s.sequence) (drop r segments)
    → length segments ≤ r
length-le_of_clash r [] oldest lo hi = omega arith
length-le_of_clash zero (s ∷ segments) oldest lo hi = absurd (omega (arith, lo.0, hi.0))
length-le_of_clash (suc r) (s ∷ segments) oldest lo hi =
    omega (arith, length-le_of_clash r segments oldest lo.1 hi)

-- Where every segment has rolled off, the index is the end of the list.
pub first_available_live_segment_index_end :
    (segments : List Segment) (oldest : ℤ)
    → Ascending segments
    → Numbered segments
    → All (λ s. s.sequence <ℤ oldest) segments
    → length segments ≤ first_available_live_segment_index segments oldest
first_available_live_segment_index_end segments oldest a n h =
    length-le_of_clash _ segments oldest h
      (first_available_live_segment_index_lem segments oldest a n).1
