-- ===== src/Json/Field.antt =====
-- `FieldOr` at a signed integer type: an integer is read exactly or not at all.
use pvr_dispatcharr_unoffici.Prelude.{ℕ, Bool, Option, some, Bytes, ◌≡◌, arith, if◌then◌else◌, ◌&&◌}
use pvr_dispatcharr_unoffici.Prelude.Int.{ℤ, pos, ◌≤ℤ◌, leb_ℤ}
use pvr_dispatcharr_unoffici.Json.{
  number_integer, number_unsigned, JsonLib, lowest, highest, field_or_int,
}

module _ (lib : JsonLib) where
  open lib use {Json, Real, find, kind}

  -- What the library documents of `get<T>()` at a signed type of `bits` bits: an integer is
  -- converted by a `static_cast`, `cast`, which keeps the values that the type holds.
  pub record GetsIntegers (bits : ℕ) (cast : ℤ → ℤ) (get : Json → Option ℤ) : Type 0 where
    pub keeps : (z : ℤ) → lowest bits ≤ℤ z → z ≤ℤ highest bits → cast z ≡ z
    pub signed : (v : Json) (z : ℤ) → kind v ≡ number_integer z → get v ≡ some (cast z)
    pub unsigned : (v : Json) (n : ℕ) → kind v ≡ number_unsigned n → get v ≡ some (cast (pos n))

  abbrev pub fits : ℕ → ℤ → Bool
  fits bits z = leb_ℤ (lowest bits) z && leb_ℤ z (highest bits)

  -- A field that holds a signed or an unsigned integer is read as that integer if the type holds
  -- it, and as the default if not; it is never read as a converted, other number.
  pub field_or_int-exact :
      (bits : ℕ) (cast : ℤ → ℤ) (get : Json → Option ℤ)
      → GetsIntegers bits cast get
      → (item value : Json) (key : Bytes) (default : ℤ) → find item key ≡ some value
      → ((z : ℤ)
          → kind value ≡ number_integer z
          → field_or_int lib bits get item key default ≡ (if fits bits z then z else default))
        × ((n : ℕ)
            → kind value ≡ number_unsigned n
            → field_or_int lib bits get item key default
              ≡ (if fits bits (pos n) then pos n else default))
  unfolding field_or_int
  field_or_int-exact bits cast get g item value key default e = (
    λ z k. rw (field_or_int, e, k, g.signed value z k) (ground (arith, g.keeps z)),
    λ n k. rw (field_or_int, e, k, g.unsigned value n k) (ground (arith, g.keeps (pos n))),
  )
