-- ===== src/Position/Examples.antt =====
-- The theorems on src/StreamSeek.cpp at concrete arguments.
use pvr_dispatcharr_unoffici.Prelude.{◌≡◌, arith, if◌then◌else◌}
use pvr_dispatcharr_unoffici.Prelude.Int.{pos, negsuc, leb_ℤ}
use pvr_dispatcharr_unoffici.Position.{set, cur, end, other, wrapped, resolve_seek_position}
use pvr_dispatcharr_unoffici.Position.Bounds.{exact_or_minus_one, resolve_seek_position_lem}

resolve_seek_position_example :
    (resolve_seek_position wrapped (negsuc 9) set (pos 300) (pos 1000)
      ≡ exact_or_minus_one (pos 0) (negsuc 9))
    × (resolve_seek_position wrapped (negsuc 9) cur (pos 300) (pos 1000)
        ≡ exact_or_minus_one (pos 300) (negsuc 9))
    × (resolve_seek_position wrapped (negsuc 9) end (pos 300) (pos 1000)
        ≡ (if leb_ℤ (pos 0) (pos 1000) then exact_or_minus_one (pos 1000) (negsuc 9) else negsuc 0))
    × (resolve_seek_position wrapped (negsuc 9) other (pos 300) (pos 1000) ≡ negsuc 0)
resolve_seek_position_example =
    resolve_seek_position_lem wrapped (negsuc 9) (pos 300) (pos 1000) (omega arith, omega arith)
      (omega arith, omega arith) (omega arith, omega arith)
