-- ===== src/Prelude/Bits.antt =====
-- Laws of the bit operations that the source uses on bytes: joining a high part with a byte,
-- masking, and masking twice by exclusive or.
use Prim.Native.Nat.{
  ℕ, zero, suc, ◌+◌, ◌*◌, ◌/◌, ◌%◌, ◌≤◌, ◌<◌, max, bit_and, bit_or, bit_xor, digits, bit_or-bitwise,
}
use mathlib.Core.Path.{◌≡◌, refl, ap, ◌∙◌}
use mathlib.Core.Logic.{inl, inr}
use mathlib.Core.Bool.{Bool, true, ◌&&◌}
use native.Mathlib.Omega.{arith}
use pvr_dispatcharr_unoffici.Prelude.Tests.{◌==◌, ==_iff, Bool-cases}

-- The digits of a disjunction, from any counts that reach past the first number.
or_digits :
    (left right a b : ℕ)
    → a ≤ left
    → a ≤ right
    → digits (λ y. y) max left a b ≡ digits (λ y. y) max right a b
or_digits zero zero a b _ _ = refl
or_digits zero (suc right) (suc a) b low _ = absurd (omega arith)
or_digits zero (suc right) zero b _ _ = refl
or_digits (suc left) zero (suc a) b _ low = absurd (omega arith)
or_digits (suc left) zero zero b _ _ = refl
or_digits (suc left) (suc right) zero b _ _ = refl
or_digits (suc left) (suc right) (suc a) b p q =
    let halves = or_digits left right (suc a / 2) (b / 2) (omega arith) (omega arith) in
    omega (arith, halves)

or_half : (a b : ℕ) → bit_or a b ≡ bit_or (a / 2) (b / 2) * 2 + max (a % 2) (b % 2)
or_half zero b = omega (arith, bit_or-bitwise 0 b, bit_or-bitwise 0 (b / 2))
or_half (suc a) b =
    let fuel = or_digits a (suc a / 2) (suc a / 2) (b / 2) (omega arith) (omega arith) in
    omega (arith, bit_or-bitwise (suc a) b, bit_or-bitwise (suc a / 2) (b / 2), fuel)

or_zero_below : (n a : ℕ) → a ≤ n → bit_or a 0 ≡ a
or_zero_below zero zero h = refl
or_zero_below zero (suc a) h = absurd (omega arith)
or_zero_below (suc n) a h = omega (arith, or_half a 0, or_zero_below n (a / 2))

-- A doubled number has 0 for its lowest digit.
or_double : (a b : ℕ) → bit_or (2 * a) b ≡ 2 * bit_or a (b / 2) + b % 2
or_double a b =
    let e : 2 * a / 2 ≡ a = omega arith in
    omega (arith, or_half (2 * a) b, ap (λ (t : ℕ). bit_or t (b / 2)) e)

-- Four digits at a time.
or_shift_four : (a b : ℕ) → bit_or (16 * a) b ≡ 16 * bit_or a (b / 16) + b % 16
or_shift_four a b =
    let e : 16 * a ≡ 2 * (2 * (2 * (2 * a))) = omega arith in
    let f : b / 2 / 2 / 2 / 2 ≡ b / 16 = omega arith in
    omega (
      arith,
      ap (λ (t : ℕ). bit_or t b) e,
      ap (λ (t : ℕ). bit_or a t) f,
      or_double (2 * (2 * (2 * a))) b,
      or_double (2 * (2 * a)) (b / 2),
      or_double (2 * a) (b / 2 / 2),
      or_double a (b / 2 / 2 / 2),
    )

-- `(high << 8) | low` for a byte `low`.
pub bit_or_byte : (high low : ℕ) → low < 256 → bit_or (high * 256) low ≡ high * 256 + low
bit_or_byte high low h =
    let e : high * 256 ≡ 16 * (16 * high) = omega arith in
    let f : low / 16 / 16 ≡ 0 = omega arith in
    omega (
      arith,
      ap (λ (t : ℕ). bit_or t low) e,
      ap (λ (t : ℕ). bit_or high t) f,
      or_shift_four (16 * high) low,
      or_shift_four high (low / 16),
      or_zero_below high high,
    )

-- A test that the first `count` numbers pass, tried on each.
unfoldable pub every_passes : (ℕ → Bool) → ℕ → Bool
every_passes test zero = true
every_passes test (suc largest) = every_passes test largest && test largest

pub passes_each :
    (test : ℕ → Bool) (count : ℕ)
    → every_passes test count ≡ true
    → (number : ℕ) → number < count
    → test number ≡ true
unfolding every_passes
passes_each test zero tried number below = absurd (omega arith)
passes_each test (suc largest) tried number below =
    let earlier : every_passes test largest ≡ true = ground arith in
    let last : test largest ≡ true = ground arith in
    elim (Bool-cases (number == largest)) [
      | inl same ↦ ap test ((==_iff number largest).0 same) ∙ last
      | inr other ↦ passes_each test largest earlier number (ground arith)
    ]

-- Exclusive or with a byte, twice.
abbrev same_after_two : ℕ → ℕ → Bool
same_after_two mask byte = bit_xor (bit_xor byte mask) mask == byte

xor_table : every_passes (λ mask. every_passes (same_after_two mask) 256) 256 ≡ true
unfolding every_passes
xor_table = refl

-- Masking a byte twice by one byte gives it back.
pub bit_xor_twice : (x k : ℕ) → x < 256 → k < 256 → bit_xor (bit_xor x k) k ≡ x
bit_xor_twice x k hx hk =
    let row = passes_each (λ mask. every_passes (same_after_two mask) 256) 256 xor_table k hk in
    (==_iff _ x).0 (passes_each (same_after_two k) 256 row x hx)

abbrev masks_right : ℕ → Bool
masks_right byte =
    (bit_and byte 0x80 == byte / 128 * 128)
    && (bit_and byte 0x7f == byte % 128)
    && (bit_and byte 0x0f == byte % 16)

masks_table : every_passes masks_right 256 ≡ true
unfolding every_passes
masks_table = refl

-- The three masks of a frame header, on a byte.
pub bit_and_masks :
    (x : ℕ)
    → x < 256
    → (bit_and x 0x80 ≡ x / 128 * 128) × (bit_and x 0x7f ≡ x % 128) × (bit_and x 0x0f ≡ x % 16)
bit_and_masks x h = let e = passes_each masks_right 256 masks_table x h in ground arith

abbrev sets_high : ℕ → Bool
sets_high byte = bit_or 0x80 byte == 128 + byte

or_table : every_passes sets_high 128 ≡ true
unfolding every_passes
or_table = refl

-- Setting the high bit of a number below it.
pub bit_or_high : (x : ℕ) → x < 128 → bit_or 0x80 x ≡ 128 + x
bit_or_high x h = (==_iff _ (128 + x)).0 (passes_each sets_high 128 or_table x h)
