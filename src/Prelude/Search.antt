-- ===== src/Prelude/Search.antt =====
-- `std::lower_bound` over the indexes `first ..< first + len`, for the test "element i is before
-- the value": the bisection, and what it returns on a partitioned range.
use pvr_dispatcharr_unoffici.Prelude.Tests.{◌==◌, if◌then◌else◌, Bool-cases}
use Prim.Native.Nat.{ℕ, zero, suc, ◌+◌, ◌-◌, ◌/◌, ◌≤◌, ◌<◌}
use mathlib.Core.Path.{◌≡◌}
use mathlib.Core.Logic.{inl, inr}
use mathlib.Core.Bool.{Bool, true, false, false≢true}
use native.Mathlib.Omega.{arith}

suc_ne_zero : (n : ℕ) → (suc n == 0) ≡ false
suc_ne_zero n = ground arith

module _ (before : ℕ → Bool) where
  -- The fuel bounds the rounds; `len` of it is enough, as every round shortens the range.
  unfoldable pub lower_bound : ℕ → ℕ → ℕ → ℕ
  lower_bound zero first len = first
  lower_bound (suc fuel) first len =
      let half = len / 2 in
      let right = lower_bound fuel (first + half + 1) (len - half - 1) in
      let left = lower_bound fuel first half in
      if len == 0 then first else if before (first + half) then right else left

  -- Everything below `r` is before the value, and nothing from `r` on is.
  pub record IsPartitionPoint (r : ℕ) : Type 0 where
    pub below : (i : ℕ) → i < r → before i ≡ true
    pub above : (i : ℕ) → r ≤ i → before i ≡ false

  module _ (falls : (i j : ℕ) → i ≤ j → before j ≡ true → before i ≡ true) where
    not_before : (i j : ℕ) → i ≤ j → before i ≡ false → before j ≡ false
    not_before i j le h = elim (Bool-cases (before j)) [
      | inl t ↦ absurd (false≢true (rw h at (falls i j le t)))
      | inr f ↦ f
    ]

    pub lower_bound-IsPartitionPoint :
        (fuel first len : ℕ)
        → len ≤ fuel
        → ((i : ℕ) → i < first → before i ≡ true)
        → ((i : ℕ) → first + len ≤ i → before i ≡ false)
        → IsPartitionPoint (lower_bound fuel first len)
    unfolding lower_bound
    lower_bound-IsPartitionPoint zero first len h lo hi = record {
      below = lo;
      above = λ i le. hi i (omega arith);
    }
    lower_bound-IsPartitionPoint (suc fuel) first zero h lo hi = record {
      below = lo;
      above = λ i le. hi i (omega arith);
    }
    lower_bound-IsPartitionPoint (suc fuel) first (suc n) h lo hi =
        elim (Bool-cases (before (first + suc n / 2))) [
          | inl t ↦
              rw (suc_ne_zero n, t)
                (lower_bound-IsPartitionPoint fuel (first + suc n / 2 + 1) (suc n - suc n / 2 - 1)
                  (omega arith) (λ i lt. falls i (first + suc n / 2) (omega arith) t)
                  (λ i le. hi i (omega arith)))
          | inr f ↦
              rw (suc_ne_zero n, f)
                (lower_bound-IsPartitionPoint fuel first (suc n / 2) (omega arith) lo
                  (λ i le. not_before (first + suc n / 2) i le f))
        ]
