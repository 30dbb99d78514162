-- ===== src/Segments/Chain.antt =====
-- Segments that lie end to end, and the lookup of a byte position in them
-- (src/SegmentLookup.h).
use pvr_dispatcharr_unoffici.Prelude.{
  ℕ, zero, suc, ◌≡◌, refl, ◌⊎◌, inl, inr, Bool-cases, Option, none, some, List, [], ◌∷◌, ◌++◌, drop,
  arith,
}
use pvr_dispatcharr_unoffici.Prelude.Int.{ℤ, pos, ◌+ℤ◌, ◌≤ℤ◌, ◌<ℤ◌, +ℤ_parts}
use pvr_dispatcharr_unoffici.Segments.{SegmentT, holds, find_segment_containing_position}

module _ {S : Type 0} ⦃seg : SegmentT S⦄ where
  open seg use {byte_offset, byte_size, time_offset_ms}

  -- Where the segments begin, if they end at `end`.
  abbrev pub start : List S → ℤ → ℤ
  start [] end = end
  start (s ∷ segments) end = byte_offset s

  -- Each segment ends where the next begins, and the last one at `end`.
  abbrev pub Chain : List S → ℤ → Type 0
  Chain [] end = Unit
  Chain (s ∷ segments) end =
      (pos 0 ≤ℤ byte_size s)
      × (byte_offset s +ℤ byte_size s ≡ start segments end)
      × Chain segments end

  abbrev pub start_ms : List S → ℤ → ℤ
  start_ms [] end = end
  start_ms (s ∷ segments) end = time_offset_ms s

  -- The time offsets never fall, and stay within the total.
  abbrev pub Times : List S → ℤ → Type 0
  Times [] end = Unit
  Times (s ∷ segments) end = (time_offset_ms s ≤ℤ start_ms segments end) × Times segments end

  pub start-le : (segments : List S) (end : ℤ) → Chain segments end → start segments end ≤ℤ end
  start-le [] end c = omega arith
  start-le (s ∷ segments) end (size, next, rest) =
      let ih = start-le segments end rest in
      let parts = +ℤ_parts (byte_offset s) (byte_size s) in ground arith

  pub Chain-drop :
      (n : ℕ) (segments : List S) (end : ℤ) → Chain segments end → Chain (drop n segments) end
  Chain-drop zero segments end c = c
  Chain-drop (suc n) [] end c = c
  Chain-drop (suc n) (s ∷ segments) end c = Chain-drop n segments end c.2

  pub Times-drop :
      (n : ℕ) (segments : List S) (end : ℤ) → Times segments end → Times (drop n segments) end
  Times-drop zero segments end c = c
  Times-drop (suc n) [] end c = c
  Times-drop (suc n) (s ∷ segments) end c = Times-drop n segments end c.1

  -- Dropping segments off the front moves the start up.
  pub start-le-start-drop :
      (n : ℕ) (segments : List S) (end : ℤ)
      → Chain segments end
      → start segments end ≤ℤ start (drop n segments) end
  start-le-start-drop zero segments end c = omega arith
  start-le-start-drop (suc n) [] end c = omega arith
  start-le-start-drop (suc n) (s ∷ segments) end (size, next, rest) =
      let ih = start-le-start-drop n segments end rest in
      let parts = +ℤ_parts (byte_offset s) (byte_size s) in ground arith

  pub start_ms-le-start_ms-drop :
      (n : ℕ) (segments : List S) (end : ℤ)
      → Times segments end
      → start_ms segments end ≤ℤ start_ms (drop n segments) end
  start_ms-le-start_ms-drop zero segments end c = omega arith
  start_ms-le-start_ms-drop (suc n) [] end c = omega arith
  start_ms-le-start_ms-drop (suc n) (s ∷ segments) end (next, rest) =
      let ih = start_ms-le-start_ms-drop n segments end rest in omega arith

  pub start-append :
      (segments : List S) (s : S) (end end' : ℤ)
      → byte_offset s ≡ end
      → start (segments ++ s ∷ []) end' ≡ start segments end
  start-append [] s end end' e = e
  start-append (x ∷ segments) s end end' e = refl

  pub Chain-append :
      (segments : List S) (s : S) (end : ℤ)
      → Chain segments end
      → byte_offset s ≡ end
      → pos 0 ≤ℤ byte_size s
      → Chain (segments ++ s ∷ []) (end +ℤ byte_size s)
  Chain-append [] s end c e size = (size, rw e, tt)
  Chain-append (x ∷ segments) s end (sx, next, rest) e size = (
    sx,
    rw (start-append segments s end (end +ℤ byte_size s) e) next,
    Chain-append segments s end rest e size,
  )

  pub start_ms-append :
      (segments : List S) (s : S) (end end' : ℤ)
      → time_offset_ms s ≡ end
      → start_ms (segments ++ s ∷ []) end' ≡ start_ms segments end
  start_ms-append [] s end end' e = e
  start_ms-append (x ∷ segments) s end end' e = refl

  pub Times-append :
      (segments : List S) (s : S) (end end' : ℤ)
      → Times segments end
      → time_offset_ms s ≡ end
      → end ≤ℤ end'
      → Times (segments ++ s ∷ []) end'
  Times-append [] s end end' c e le = (rw e le, tt)
  Times-append (x ∷ segments) s end end' (next, rest) e le =
      (rw (start_ms-append segments s end end' e) next, Times-append segments s end end' rest e le)

  -- What it means to answer a lookup of a position rightly: a segment of the stream that holds
  -- the position, or nothing for a position before or behind the stream.
  abbrev pub Located : ℤ → List S → ℤ → Option S → Type 0
  Located position segments end (some s) =
      (start segments end ≤ℤ byte_offset s)
      × (byte_offset s ≤ℤ position)
      × (position <ℤ byte_offset s +ℤ byte_size s)
      × (byte_offset s +ℤ byte_size s ≤ℤ end)
  Located position segments end none = (position <ℤ start segments end) ⊎ (end ≤ℤ position)

  -- An answer about the rest is one about the whole, for a position behind the first segment.
  Located-cons :
      (position : ℤ) (s : S) (segments : List S) (end : ℤ) (r : Option S)
      → Chain (s ∷ segments) end
      → (position <ℤ byte_offset s) ⊎ (byte_offset s +ℤ byte_size s ≤ℤ position)
      → Located position segments end r
      → Located position (s ∷ segments) end r
  Located-cons position s segments end none (size, next, rest) h l = ground arith
  Located-cons position s segments end (some t) (size, next, rest) h l =
      let parts = +ℤ_parts (byte_offset s) (byte_size s) in ground arith

  -- Where segments lie end to end, the lookup of a byte position returns a segment that holds it,
  -- which lies within the stream, and it returns nothing only for a position before the first
  -- segment or at or behind the end.
  pub find_segment-Located :
      (position : ℤ) (segments : List S) (end : ℤ)
      → Chain segments end
      → Located position segments end (find_segment_containing_position position segments)
  unfolding find_segment_containing_position
  find_segment-Located position [] end c = omega arith
  find_segment-Located position (s ∷ segments) end c = elim (Bool-cases (holds position s)) [
    | inl found ↦
        rw found (ground (arith, start-le segments end c.2, +ℤ_parts (byte_offset s) (byte_size s)))
    | inr past ↦ rw past (
        Located-cons position s segments end _ c (ground arith)
          (find_segment-Located position segments end c.2))
  ]
