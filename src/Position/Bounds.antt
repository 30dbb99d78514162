-- ===== src/Position/Bounds.antt =====
-- What src/StreamSeek.cpp computes, without a sum that leaves `int64_t`.
use pvr_dispatcharr_unoffici.Prelude.{◌≡◌, refl, ◌⊎◌, ◌&&◌, none, some, if◌then◌else◌, arith}
use pvr_dispatcharr_unoffici.Prelude.Int.{
  ℤ, pos, negsuc, ◌+ℤ◌, ◌-ℤ◌, ◌≤ℤ◌, ◌<ℤ◌, leb_ℤ, ltb_ℤ, +ℤ_parts, -ℤ_parts, eq_of_parts,
}
use pvr_dispatcharr_unoffici.Position.{
  int64_max, int64_min, set, cur, end, other, seek_from, resolve_seek_position,
  compute_read_range_end, compute_segment_read_size,
}

abbrev pub IsInt64 : ℤ → Type 0
IsInt64 z = (int64_min ≤ℤ z) × (z ≤ℤ int64_max)

-- The exact sum where it is a position, and -1 where it is not.
abbrev pub exact_or_minus_one : ℤ → ℤ → ℤ
exact_or_minus_one base position =
    if leb_ℤ (pos 0) (base +ℤ position) && leb_ℤ (base +ℤ position) int64_max
    then base +ℤ position
    else negsuc 0

seek_from_lem :
    (overflowed : ℤ → ℤ) (base position : ℤ)
    → IsInt64 base
    → IsInt64 position
    → seek_from overflowed base position ≡ exact_or_minus_one base position
unfolding seek_from
seek_from_lem overflowed base position b p =
    ground (arith, +ℤ_parts base position, -ℤ_parts int64_max position, -ℤ_parts int64_min position)

-- Whatever a sum or a difference that leaves `int64_t` would give: of `int64_t` arguments the seek gives the exact sum of the base that `whence` names and the
-- offset, if that sum lies from 0 to the largest `int64_t`, and -1 if not; and -1 for an unknown
-- length, and for any other `whence`.
pub resolve_seek_position_lem :
    (overflowed : ℤ → ℤ) (position current_position reference_length : ℤ)
    → IsInt64 position
    → IsInt64 current_position
    → IsInt64 reference_length
    → (resolve_seek_position overflowed position set current_position reference_length
        ≡ exact_or_minus_one (pos 0) position)
      × (resolve_seek_position overflowed position cur current_position reference_length
          ≡ exact_or_minus_one current_position position)
      × (resolve_seek_position overflowed position end current_position reference_length ≡ (
          if leb_ℤ (pos 0) reference_length
          then exact_or_minus_one reference_length position
          else negsuc 0))
      × (resolve_seek_position overflowed position other current_position reference_length
          ≡ negsuc 0)
unfolding resolve_seek_position
resolve_seek_position_lem overflowed position current_position reference_length p c r = (
  seek_from_lem overflowed (pos 0) position (omega arith) p,
  seek_from_lem overflowed current_position position c p,
  ground (arith, seek_from_lem overflowed reference_length position r p),
  refl,
)

-- Of an `int64_t` position and a 32-bit size: a read's range ends at its last byte, and is
-- refused exactly for a negative position, for no byte, and where the position and the size add
-- up beyond `int64_t`.
pub compute_read_range_end_lem :
    (position size : ℤ)
    → IsInt64 position
    → pos 0 ≤ℤ size
    → size ≤ℤ pos 4294967295
    → compute_read_range_end position size ≡ (
        if leb_ℤ (pos 0) position && ltb_ℤ (pos 0) size && leb_ℤ (position +ℤ size) int64_max
        then some (position +ℤ size -ℤ pos 1)
        else none)
unfolding compute_read_range_end
compute_read_range_end_lem position size p lo hi =
    ground (arith, +ℤ_parts position size, -ℤ_parts int64_max size)

-- For a request that is not negative: what a read asks of a segment lies in the segment, is at
-- least one byte and at most what was requested; it is refused only outside the segment or for
-- no byte.
pub compute_segment_read_size_lem :
    (offset size requested : ℤ)
    → pos 0 ≤ℤ requested
    → ((want : ℤ)
        → compute_segment_read_size offset size requested ≡ some want
        → (pos 0 ≤ℤ offset) × (pos 1 ≤ℤ want) × (want ≤ℤ requested) × (offset +ℤ want ≤ℤ size))
      × (compute_segment_read_size offset size requested ≡ none
          → (offset <ℤ pos 0) ⊎ ((size ≤ℤ offset) ⊎ (requested ≡ pos 0)))
unfolding compute_segment_read_size
compute_segment_read_size_lem offset size requested r = (
  λ want e. ground (arith, +ℤ_parts offset want, -ℤ_parts size offset),
  λ e. ground (arith, eq_of_parts requested (pos 0)),
)
