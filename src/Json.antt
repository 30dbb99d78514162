-- ===== src/Json.antt =====
-- src/JsonFieldUtil.h over the JSON library, which is not part of the repository: its values and
-- what the code asks of them are the interface `JsonLib`.
pub mod Examples
pub mod Field
use pvr_dispatcharr_unoffici.Prelude.{
  ℕ, ◌^◌, ◌-◌, Bool, true, false, not, ◌&&◌, Option, none, some, List, Bytes, ltb, if◌then◌else◌,
}
use pvr_dispatcharr_unoffici.Prelude.Int.{ℤ, pos, negsuc, ◌+ℤ◌, ltb_ℤ}

-- What the `is_…` tests of a value tell. A number is unsigned, signed or a floating one.
pub data Kind {ℓ} (Real : Type ℓ) : Type ℓ where
  null other : Kind Real
  number_float : Real → Kind Real
  number_unsigned : ℕ → Kind Real
  number_integer : ℤ → Kind Real

-- A value of `nlohmann::json` with the calls that the code makes of it. `find` is `contains` and
-- `[]`: nothing, for what is no object or lacks the key. A `get` is nothing where it throws.
-- `below d z` is `d < z` for a floating number.
pub record JsonLib : Type 1 where
  pub Json : Type 0
  pub Real : Type 0
  pub find : Json → Bytes → Option Json
  pub kind : Json → Kind Real
  pub items : Json → List Json
  pub is_finite : Real → Bool
  pub below : Real → ℤ → Bool
  pub get_int64 : Json → Option ℤ
  pub get_int : Json → Option ℤ
  pub get_bool : Json → Option Bool
  pub get_string : Json → Option Bytes

-- `std::numeric_limits<T>::lowest()` and `max()` of a signed type of `bits` bits.
abbrev pub lowest : ℕ → ℤ
lowest bits = negsuc (2 ^ (bits - 1) - 1)

abbrev pub highest : ℕ → ℤ
highest bits = pos (2 ^ (bits - 1) - 1)

-- `value.get<T>()` under the `catch`.
abbrev pub or_default {ℓ} : {T : Type ℓ} → Option T → T → T
or_default none default = default
or_default (some v) default = v

module _ (lib : JsonLib) where
  open lib use {Json, Real, find, kind, is_finite, below}

  -- The tests of `FieldOr` at a signed integer type, before the `get`.
  in_range : ℕ → Kind Real → Bool
  in_range bits null = false
  in_range bits other = true
  in_range bits (number_float d) =
      is_finite d && not (below d (lowest bits)) && below d (highest bits +ℤ pos 1)
  in_range bits (number_unsigned n) = not (ltb_ℤ (highest bits) (pos n))
  in_range bits (number_integer v) =
      if ltb_ℤ v (pos 0) then not (ltb_ℤ v (lowest bits)) else not (ltb_ℤ (highest bits) v)

  unfoldable pub field_or_int : ℕ → (Json → Option ℤ) → Json → Bytes → ℤ → ℤ
  unfolding in_range
  field_or_int bits get item key default = elim (find item key) [
    | none ↦ default
    | some value ↦ if in_range bits (kind value) then or_default (get value) default else default
  ]

  unfoldable pub field_or_int64 : Json → Bytes → ℤ → ℤ
  unfolding field_or_int
  field_or_int64 = field_or_int 64 (lib.get_int64)

  unfoldable pub field_or_int32 : Json → Bytes → ℤ → ℤ
  unfolding field_or_int
  field_or_int32 = field_or_int 32 (lib.get_int)

  -- The tests of `FieldOr` at `bool`, which is an integral type from 0 to 1.
  in_range_bool : Kind Real → Bool
  in_range_bool null = false
  in_range_bool (number_float d) = is_finite d && not (below d (pos 0)) && below d (pos 1 +ℤ pos 1)
  in_range_bool _ = true

  unfoldable pub field_or_bool : Json → Bytes → Bool → Bool
  unfolding in_range_bool
  field_or_bool item key default = elim (find item key) [
    | none ↦ default
    | some value ↦
        if in_range_bool (kind value) then or_default (lib.get_bool value) default else default
  ]

  abbrev is_null : Kind Real → Bool
  is_null null = true
  is_null _ = false

  unfoldable pub field_or_string : Json → Bytes → Bytes → Bytes
  field_or_string item key default = elim (find item key) [
    | none ↦ default
    | some value ↦
        if is_null (kind value) then default else or_default (lib.get_string value) default
  ]
