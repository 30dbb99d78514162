-- ===== src/Auth.antt =====
-- src/AuthBackoff.cpp and src/AuthBackoff.h: when a failed login may be tried again, and what a
-- failure means. An HTTP status and an `int` are integers.
pub mod Backoff
pub mod Session
use pvr_dispatcharr_unoffici.Prelude.{
  ℕ, zero, suc, ◌*◌, ◌^◌, min, Bool, true, false, not, ◌&&◌, ◌||◌, if◌then◌else◌,
}
use pvr_dispatcharr_unoffici.Prelude.Int.{ℤ, pos, negsuc, ◌*ℤ◌, ltb_ℤ, leb_ℤ, eqb_ℤ, min_ℤ}

-- The shift is a product by a power of two; `consecutiveFailures - 1` is the `n` of the last clause.
unfoldable pub compute_login_backoff_seconds : ℤ → ℕ
compute_login_backoff_seconds (negsuc n) = 0
compute_login_backoff_seconds (pos zero) = 0
compute_login_backoff_seconds (pos (suc n)) = min (30 * 2 ^ min n 10) 1800

abbrev initial_reconnect_backoff_seconds : ℤ
initial_reconnect_backoff_seconds = pos 2

abbrev max_reconnect_backoff_seconds : ℤ
max_reconnect_backoff_seconds = pos 60

unfoldable pub compute_next_reconnect_backoff_seconds : ℤ → Bool → ℤ
compute_next_reconnect_backoff_seconds current_seconds woken_by_nudge =
    if woken_by_nudge
    then initial_reconnect_backoff_seconds
    else min_ℤ (current_seconds *ℤ pos 2) max_reconnect_backoff_seconds

-- The duration is in milliseconds.
unfoldable pub was_session_healthy : ℤ → Bool
was_session_healthy session_duration = leb_ℤ (pos 30000) session_duration

unfoldable pub should_count_toward_login_backoff : ℤ → Bool
should_count_toward_login_backoff http_code =
    eqb_ℤ http_code (pos 400)
    || eqb_ℤ http_code (pos 401)
    || eqb_ℤ http_code (pos 403)
    || eqb_ℤ http_code (pos 429)

pub data RefreshTokenFailure : Type 0 where
  rejected transient other : RefreshTokenFailure

unfoldable pub classify_refresh_token_failure : ℤ → RefreshTokenFailure
classify_refresh_token_failure http_code =
    if eqb_ℤ http_code (pos 401) || eqb_ℤ http_code (pos 403)
    then rejected
    else if eqb_ℤ http_code (pos 0) || leb_ℤ (pos 500) http_code && ltb_ℤ http_code (pos 600)
    then transient
    else other

unfoldable pub is_transient_cooldown_blocking : Bool → Bool → Bool → Bool
is_transient_cooldown_blocking cooldown_active armed_by_short_attempt caller_has_short_bound =
    cooldown_active && (not armed_by_short_attempt || caller_has_short_bound)

pub data AuthGate : Type 0 where
  have_token login_backoff transient_cooldown proceed : AuthGate

unfoldable pub decide_auth_gate : Bool → Bool → Bool → AuthGate
decide_auth_gate token_still_valid login_backoff_active transient_cooldown_is_blocking =
    if token_still_valid
    then have_token
    else if login_backoff_active
    then login_backoff
    else if transient_cooldown_is_blocking
    then transient_cooldown
    else proceed
