-- ===== src/Json/Examples.antt =====
-- A small JSON library that the interface fits, and the theorem on `FieldOr` over it.
use pvr_dispatcharr_unoffici.Prelude.{
  ℕ, Bool, true, false, Option, none, some, [], Bytes, codes, bytes_eq, ◌≡◌, refl, ◌∙◌, ap,
  if◌then◌else◌,
}
use pvr_dispatcharr_unoffici.Prelude.Int.{ℤ, pos, negsuc}
use pvr_dispatcharr_unoffici.Json.{
  Kind, null, other, number_integer, number_unsigned, JsonLib, field_or_int,
}
use pvr_dispatcharr_unoffici.Json.Field.{GetsIntegers, fits, field_or_int-exact}

pub data Value : Type 0 where
  missing : Value
  number : ℤ → Value
  natural : ℕ → Value
  text : Bytes → Value
  flag : Bool → Value
  -- An entry of a manifest: sequence, filename, byte_size and duration_ms.
  manifest_entry : ℤ → Bytes → ℤ → ℤ → Value

abbrev value_kind : Value → Kind (Unit {0})
value_kind missing = null
value_kind (number z) = number_integer z
value_kind (natural n) = number_unsigned n
value_kind _ = other

abbrev find_value : Value → Bytes → Option Value
find_value (manifest_entry sequence filename byte_size duration_ms) key =
    if bytes_eq key (codes "sequence")
    then some (number sequence)
    else if bytes_eq key (codes "filename")
    then some (text filename)
    else if bytes_eq key (codes "byte_size")
    then some (number byte_size)
    else if bytes_eq key (codes "duration_ms")
    then some (number duration_ms)
    else none
find_value _ key = none

abbrev number_of : Value → Option ℤ
number_of (number z) = some z
number_of (natural n) = some (pos n)
number_of _ = none

abbrev flag_of : Value → Option Bool
flag_of (flag b) = some b
flag_of _ = none

abbrev text_of : Value → Option Bytes
text_of (text t) = some t
text_of _ = none

abbrev pub sample_lib : JsonLib
sample_lib = record {
  Json = Value;
  Real = Unit;
  find = find_value;
  kind = value_kind;
  items = λ v. [];
  is_finite = λ r. true;
  below = λ r z. false;
  get_int64 = number_of;
  get_int = number_of;
  get_bool = flag_of;
  get_string = text_of;
}

abbrev integer_of : Kind (Unit {0}) → Option ℤ
integer_of (number_integer z) = some z
integer_of (number_unsigned n) = some (pos n)
integer_of _ = none

number_of-integer_of : (v : Value) → number_of v ≡ integer_of (value_kind v)
number_of-integer_of missing = refl
number_of-integer_of (number z) = refl
number_of-integer_of (natural n) = refl
number_of-integer_of (text t) = refl
number_of-integer_of (flag b) = refl
number_of-integer_of (manifest_entry sequence filename byte_size duration_ms) = refl

sample-GetsIntegers : GetsIntegers sample_lib 64 (λ z. z) number_of
sample-GetsIntegers = record {
  keeps = λ z lo hi. refl;
  signed = λ v z k. number_of-integer_of v ∙ ap integer_of k;
  unsigned = λ v n k. number_of-integer_of v ∙ ap integer_of k;
}

abbrev first_entry : Value
first_entry = manifest_entry (pos 5) (codes "a.ts") (pos 100) (pos 2000)

field_or_int-exact_example :
    ((z : ℤ)
      → value_kind (number (pos 5)) ≡ number_integer z
      → field_or_int sample_lib 64 number_of first_entry (codes "sequence") (negsuc 0)
        ≡ (if fits sample_lib 64 z then z else negsuc 0))
    × ((n : ℕ)
        → value_kind (number (pos 5)) ≡ number_unsigned n
        → field_or_int sample_lib 64 number_of first_entry (codes "sequence") (negsuc 0)
          ≡ (if fits sample_lib 64 (pos n) then pos n else negsuc 0))
field_or_int-exact_example =
    field_or_int-exact sample_lib 64 (λ z. z) number_of sample-GetsIntegers first_entry
      (number (pos 5)) (codes "sequence") (negsuc 0) refl
