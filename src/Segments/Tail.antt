-- ===== src/Segments/Tail.antt =====
-- The positions near the live edge (src/LiveEdgeMargin.h): where a seek may land, and the two ways
-- in which the code finds the start of the trailing margin.
use pvr_dispatcharr_unoffici.Prelude.{
  ℕ, zero, suc, ◌-◌, min, ◌≡◌, refl, sym, ◌∙◌, List, [], ◌∷◌, length, get_elem?, drop, ltb,
  if◌then◌else◌, arith,
}
use pvr_dispatcharr_unoffici.Prelude.Int.{
  ℤ, pos, ◌+ℤ◌, ◌≤ℤ◌, min_ℤ, max_ℤ, int_laws, eq_of_parts, +ℤ_assoc, sub_of_add, max_ℤ-eq_right,
}
use pvr_dispatcharr_unoffici.Segments.{
  SegmentT, offset_or, resolve_live_seek_target, clamp_seek_to_tail, sum_bytes,
  compute_live_edge_tail_target, compute_live_edge_start_position,
}
use pvr_dispatcharr_unoffici.Segments.Chain.{start, Chain, Chain-drop, start-le-start-drop}

-- A seek lands on the requested position, cut to the later of the live edge's margin and the
-- reader, and then raised to the first position that is still held.
pub resolve_live_seek_target_lem :
    (requested current tail_target first : ℤ)
    → (resolve_live_seek_target requested current tail_target first).position
      ≡ max_ℤ (min_ℤ requested (max_ℤ tail_target current)) first
unfolding resolve_live_seek_target clamp_seek_to_tail
resolve_live_seek_target_lem requested current tail_target first = ground (
  arith,
  eq_of_parts (max_ℤ tail_target (min_ℤ current requested))
      (min_ℤ requested (max_ℤ tail_target current)),
)

margin_index-eq :
    (margin count : ℕ) → (if ltb margin count then count - margin else 0) ≡ count - min margin count
margin_index-eq margin count = ground arith

module _ {S : Type 0} ⦃seg : SegmentT S⦄ where
  open seg use {byte_offset, byte_size}

  -- The sizes of segments that lie end to end add up to the bytes from their start to the end.
  pub start-add-sum_bytes :
      (segments : List S) (end : ℤ)
      → Chain segments end
      → start segments end +ℤ sum_bytes segments ≡ end
  unfolding sum_bytes
  start-add-sum_bytes [] end c = omega int_laws
  start-add-sum_bytes (s ∷ segments) end (size, next, rest) =
      sym (+ℤ_assoc (byte_offset s) (byte_size s) (sum_bytes segments))
      ∙ rw next (start-add-sum_bytes segments end rest)

  abbrev pub trailing : ℕ → List S → List S
  trailing margin segments = drop (length segments - min margin (length segments)) segments

  start_position_step :
      (n : ℕ) (segments : List S) (end : ℤ)
      → offset_or (get_elem? segments n) end ≡ start (drop n segments) end
  start_position_step zero [] end = refl
  start_position_step zero (s ∷ segments) end = refl
  start_position_step (suc n) [] end = refl
  start_position_step (suc n) (s ∷ segments) end = start_position_step n segments end

  pub start_position-trailing :
      (segments : List S) (end : ℤ) (margin : ℕ)
      → compute_live_edge_start_position segments end margin ≡ start (trailing margin segments) end
  unfolding compute_live_edge_start_position
  start_position-trailing segments end margin =
      rw (compute_live_edge_start_position, margin_index-eq margin (length segments))
        (start_position_step _ segments end)

  -- For segments that lie end to end in a stream that begins at or behind byte 0, the backed-off
  -- tail of a seek is the start of the trailing segments, the position at which a stream is opened
  -- with the same margin.
  pub tail_target-start_position :
      (segments : List S) (end : ℤ) (margin : ℕ)
      → Chain segments end
      → pos 0 ≤ℤ start segments end
      → compute_live_edge_tail_target segments end margin
        ≡ compute_live_edge_start_position segments end margin
  unfolding compute_live_edge_tail_target
  tail_target-start_position segments end margin c h =
      let tail = trailing margin segments in
      let e = sub_of_add _ _ end (start-add-sum_bytes tail end (Chain-drop _ segments end c)) in
      let le : pos 0 ≤ℤ start tail end = omega (arith, start-le-start-drop _ segments end c) in
      rw (compute_live_edge_tail_target, e)
        (max_ℤ-eq_right (pos 0) (start tail end) le
          ∙ sym (start_position-trailing segments end margin))
