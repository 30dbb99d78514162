-- ===== src/Auth/Backoff.antt =====
-- The growth of the login's backoff (src/AuthBackoff.cpp).
use native.Mathlib.Nat.{pow-suc}
use pvr_dispatcharr_unoffici.Prelude.{
  ℕ, suc, ◌*◌, ◌^◌, min, ◌≡◌, refl, true, Bool-cases, inl, inr, ltb, arith,
}
use pvr_dispatcharr_unoffici.Prelude.Int.{pos}
use pvr_dispatcharr_unoffici.Auth.{compute_login_backoff_seconds}

capped_doubles :
    (n : ℕ)
    → ltb n 10 ≡ true
    → 2 ^ suc n ≡ 2 ^ n * 2
    → min (30 * 2 ^ min (suc n) 10) 1800 ≡ min (2 * min (30 * 2 ^ min n 10) 1800) 1800
capped_doubles n f e =
    let a : min (suc n) 10 ≡ suc n = ground arith in
    let b : min n 10 ≡ n = ground arith in rw (a, b, e) (omega arith)

-- The backoff is 30 seconds after the first failure and doubles with each further one up to 30
-- minutes, for any number of failures: the cap on the shift never shows.
pub compute_login_backoff_seconds_doubles :
    (n : ℕ)
    → (compute_login_backoff_seconds (pos 1) ≡ 30)
      × (compute_login_backoff_seconds (pos (suc (suc n)))
          ≡ min (2 * compute_login_backoff_seconds (pos (suc n))) 1800)
unfolding compute_login_backoff_seconds
compute_login_backoff_seconds_doubles n = (
  refl,
  elim (Bool-cases (ltb n 10)) [
    | inl f ↦ capped_doubles n f (pow-suc 2 n)
    | inr f ↦
        let a : min (suc n) 10 ≡ 10 = ground arith in
        let b : min n 10 ≡ 10 = ground arith in rw (a, b) refl
  ],
)
