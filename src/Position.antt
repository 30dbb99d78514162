-- ===== src/Position.antt =====
-- src/StreamSeek.cpp. An `int64_t` is an integer. A sum or a difference that leaves the type is
-- undefined in C++; here it has the value that the argument `overflowed` gives it, so that what holds
-- for any `overflowed` does not rest on such a value.
pub mod Bounds
mod Examples
use pvr_dispatcharr_unoffici.Prelude.{
  ℕ, ◌^◌, ◌-◌, Bool, ◌&&◌, ◌||◌, Option, none, some, if◌then◌else◌,
}
use pvr_dispatcharr_unoffici.Prelude.Int.{ℤ, pos, negsuc, ◌+ℤ◌, ◌-ℤ◌, ltb_ℤ, leb_ℤ, eqb_ℤ, min_ℤ}

abbrev pub int64_max : ℤ
int64_max = pos 9223372036854775807

abbrev pub int64_min : ℤ
int64_min = negsuc 9223372036854775807

-- `SEEK_SET`, `SEEK_CUR`, `SEEK_END`, and any other value.
pub data Whence : Type 0 where
  set cur end other : Whence

-- A value of the arithmetic on `int64_t`, whose exact value is `exact`.
abbrev pub as_int64 : (ℤ → ℤ) → ℤ → ℤ
as_int64 overflowed exact =
    if leb_ℤ int64_min exact && leb_ℤ exact int64_max then exact else overflowed exact

-- What two's complement makes of the exact value of a sum or a difference of two `int64_t`.
abbrev pub wrapped : ℤ → ℤ
wrapped exact =
    if ltb_ℤ int64_max exact
    then exact -ℤ pos 18446744073709551616
    else exact +ℤ pos 18446744073709551616

-- `base`, or nothing where the switch returns -1.
seek_base : Whence → ℤ → ℤ → Option ℤ
seek_base set current_position reference_length = some (pos 0)
seek_base cur current_position reference_length = some current_position
seek_base end current_position reference_length =
    if ltb_ℤ reference_length (pos 0) then none else some reference_length
seek_base other current_position reference_length = none

-- The part behind the switch.
seek_from : (ℤ → ℤ) → ℤ → ℤ → ℤ
seek_from overflowed base position =
    let new_pos = as_int64 overflowed (base +ℤ position) in
    if (ltb_ℤ (pos 0) position && ltb_ℤ (as_int64 overflowed (int64_max -ℤ position)) base)
      || (ltb_ℤ position (pos 0) && ltb_ℤ base (as_int64 overflowed (int64_min -ℤ position)))
    then negsuc 0
    else if ltb_ℤ new_pos (pos 0)
    then negsuc 0
    else new_pos

unfoldable pub resolve_seek_position : (ℤ → ℤ) → ℤ → Whence → ℤ → ℤ → ℤ
unfolding seek_base seek_from
resolve_seek_position overflowed position whence current_position reference_length =
    elim (seek_base whence current_position reference_length) [
      | none ↦ negsuc 0
      | some base ↦ seek_from overflowed base position
    ]

-- `none` is `false`.
unfoldable pub compute_read_range_end : ℤ → ℤ → Option ℤ
compute_read_range_end position size =
    if ltb_ℤ position (pos 0) || eqb_ℤ size (pos 0)
    then none
    else if ltb_ℤ (int64_max -ℤ size) position
    then none
    else some (position +ℤ size -ℤ pos 1)

unfoldable pub compute_segment_read_size : ℤ → ℤ → ℤ → Option ℤ
compute_segment_read_size offset_in_segment segment_size requested =
    let available = segment_size -ℤ offset_in_segment in
    if ltb_ℤ offset_in_segment (pos 0)
      || leb_ℤ segment_size offset_in_segment
      || eqb_ℤ requested (pos 0)
    then none
    else some (min_ℤ requested available)
