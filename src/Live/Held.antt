-- ===== src/Live/Held.antt =====
-- Which positions of the live stream the timeshift buffer still holds
-- (`FirstAvailableLiveByteOffset` of src/DispatcharrClient.cpp).
use native.Mathlib.Decide.{dec_lt}
use pvr_dispatcharr_unoffici.Prelude.{
  ℕ, zero, suc, ◌+◌, ◌≤◌, ◌<◌, ◌≡◌, refl, subst, ◌⊎◌, false, Bool-cases, inl, inr, Option, none,
  some, List, [], ◌∷◌, length, get_elem?, take, drop, All, arith,
}
use pvr_dispatcharr_unoffici.Prelude.Int.{
  ℤ, pos, pos_part, neg_part, ◌≤ℤ◌, ◌<ℤ◌, eq_of_parts, +ℤ_parts,
}
use pvr_dispatcharr_unoffici.Segments.{holds, offset_or, find_segment_containing_position}
use pvr_dispatcharr_unoffici.Segments.Chain.{
  start, Chain, start-le-start-drop, Located, find_segment-Located,
}
use pvr_dispatcharr_unoffici.Live.{Segment, segment_t, Stream, first_available_live_segment_index}
use pvr_dispatcharr_unoffici.Live.Calls.{first_available_live_byte_offset}
use pvr_dispatcharr_unoffici.Live.Invariant.{IsValid}
use pvr_dispatcharr_unoffici.Live.Window.{first_available_live_segment_index_lem}

-- Every segment that is left has rolled off.
abbrev pub IsGone : Stream → Type 0
IsGone s = All (λ t. t.sequence <ℤ s.oldest_available_sequence) (s.segments)

-- The position is the tail, or its byte is in a segment that the buffer has not dropped.
abbrev pub IsHeld : Stream → ℤ → Type 0
IsHeld s position =
    (position ≡ s.total_bytes)
    ⊎ ((t : Segment) × (find_segment_containing_position position (s.segments) ≡ some t)
        × (s.oldest_available_sequence ≤ℤ t.sequence))

-- An index in the list names a segment at or behind the start.
pub start-le-offset_or :
    (n : ℕ) (segments : List Segment) (total default : ℤ)
    → Chain segments total
    → n < length segments
    → start segments total ≤ℤ offset_or (get_elem? segments n) default
start-le-offset_or n [] total default c h = absurd (omega arith)
start-le-offset_or zero (s ∷ segments) total default c h = omega arith
start-le-offset_or (suc n) (s ∷ segments) total default c h =
    let up = start-le-start-drop 1 (s ∷ segments) total c in
    let ih = start-le-offset_or n segments total default c.2 (omega arith) in omega arith

some_injective {ℓ} : {A : Type ℓ} {a b : A} → some a ≡ some b → a ≡ b
some_injective e = cc

All-found :
    (P : Segment → Type 0) (position : ℤ) (segments : List Segment) (t : Segment)
    → All P segments
    → find_segment_containing_position position segments ≡ some t
    → P t
unfolding find_segment_containing_position
All-found P position [] t h e = cc
All-found P position (s ∷ segments) t (p, h) e = elim (Bool-cases (holds position s)) [
  | inl here ↦ subst P (some_injective (rw here at e)) p
  | inr past ↦ All-found P position segments t h (rw past at e)
]

-- A position at or behind the nth segment is found behind the first n.
found_behind :
    (n : ℕ) (segments : List Segment) (total position default : ℤ)
    → Chain segments total
    → n < length segments
    → offset_or (get_elem? segments n) default ≤ℤ position
    → position <ℤ total
    → (t : Segment) × (find_segment_containing_position position segments ≡ some t)
      × (find_segment_containing_position position (drop n segments) ≡ some t)
unfolding find_segment_containing_position
found_behind n [] total position default c lt le before = absurd (omega arith)
found_behind zero (s ∷ segments) total position default c lt le before =
    found _ (find_segment-Located position (s ∷ segments) total c)
  where
    found :
        (r : Option Segment)
        → Located position (s ∷ segments) total r
        → (t : Segment) × (r ≡ some t) × (r ≡ some t)
    found none (inl low) = absurd (omega arith)
    found none (inr high) = absurd (omega arith)
    found (some t) h = (t, refl, refl)
found_behind (suc n) (s ∷ segments) total position default c lt le before =
    let (t, e, f) = found_behind n segments total position default c.2 (omega arith) le before in
    let up = start-le-offset_or n segments total default c.2 (omega arith) in
    let parts = +ℤ_parts (s.byte_offset) (s.byte_size) in
    let next = c.1 in let past : holds position s ≡ false = ground arith in (t, rw past e, f)

take-All :
    (n : ℕ) (segments : List Segment) (oldest : ℤ)
    → length segments ≤ n
    → All (λ t. t.sequence <ℤ oldest) (take n segments)
    → All (λ t. t.sequence <ℤ oldest) segments
take-All n [] oldest le h = tt
take-All zero (s ∷ segments) oldest le h = absurd (omega arith)
take-All (suc n) (s ∷ segments) oldest le (h, rest) =
    (h, take-All n segments oldest (omega arith) rest)

-- At or behind `FirstAvailableLiveByteOffset` a position of the stream is held, unless every segment
-- that is left has rolled off.
pub first_available-IsHeld :
    (s : Stream) (position : ℤ)
    → IsValid s
    → first_available_live_byte_offset s ≤ℤ position
    → position ≤ℤ s.total_bytes
    → IsGone s ⊎ IsHeld s position
unfolding first_available_live_byte_offset
first_available-IsHeld s position v le end =
    let r = first_available_live_segment_index (s.segments) (s.oldest_available_sequence) in
    let (older, held) =
      first_available_live_segment_index_lem (s.segments) (s.oldest_available_sequence)
        (v.ascending) (v.numbered) in
    elim (dec_lt r (length (s.segments))) [
      | no past ↦ inl (take-All r (s.segments) _ (omega arith) older)
      | yes inside ↦
          elim (dec_lt (pos_part position + neg_part (s.total_bytes))
            (pos_part (s.total_bytes) + neg_part position)) [
              | no at_end ↦ inr (inl (eq_of_parts position (s.total_bytes) (omega arith)))
              | yes before ↦
                  let (t, found, behind) =
                    found_behind r (s.segments) (s.total_bytes) position (pos 0) (v.chain) inside le
                      (omega arith) in
                  inr (inr (t, found, All-found _ position (drop r (s.segments)) t held behind))
            ]
    ]
