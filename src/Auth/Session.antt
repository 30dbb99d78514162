-- ===== src/Auth/Session.antt =====
-- The client's tokens and when it asks for new ones: `EnsureAuthenticated`, `Login`,
-- `RefreshAccessToken` and `InvalidateAccessToken` of src/DispatcharrClient.cpp, with `IsRetryDue` of
-- src/Staleness.h. A point or a span of the steady clock is a number of nanoseconds; what the server
-- answers comes in as an argument.
mod Examples
pub mod Laws
use pvr_dispatcharr_unoffici.Prelude.{
  ℕ, zero, suc, ◌*◌, Bool, true, false, not, ◌&&◌, Option, none, some, [], ◌∷◌, Bytes, is_empty,
  ltb, if◌then◌else◌,
}
use pvr_dispatcharr_unoffici.Prelude.Int.{ℤ, pos, negsuc, ◌+ℤ◌, ◌-ℤ◌, ltb_ℤ, leb_ℤ, eqb_ℤ}
use pvr_dispatcharr_unoffici.Auth.{
  compute_login_backoff_seconds, should_count_toward_login_backoff, RefreshTokenFailure, rejected,
  transient, other, classify_refresh_token_failure, is_transient_cooldown_blocking, AuthGate,
  have_token, login_backoff, transient_cooldown, proceed, decide_auth_gate,
}

abbrev pub seconds : ℕ → ℤ
seconds n = pos (n * 1000000000)

abbrev pub is_retry_due : ℤ → ℤ → ℤ → Bool
is_retry_due last_failed_attempt now retry_interval =
    if eqb_ℤ last_failed_attempt (pos 0)
    then true
    else leb_ℤ retry_interval (now -ℤ last_failed_attempt)

-- The members that `m_authStateMutex` guards; the text of the last error is left out.
pub record Auth : Type 0 where
  pub access_token : Bytes
  pub refresh_token : Bytes
  pub access_token_expiry : ℤ
  pub consecutive_login_failures : ℕ
  pub login_backoff_until : ℤ
  pub transient_login_failed_at : ℤ
  pub transient_login_armed_by_short_attempt : Bool
  pub transient_login_failed_status : ℤ

abbrev pub transient_login_retry_seconds : ℕ
transient_login_retry_seconds = 30

-- A response of a token endpoint: whether the request succeeded, its HTTP status, the access token
-- (empty where there is none), and the refresh token, if the response has one.
pub record Reply : Type 0 where
  pub succeeded : Bool
  pub http_status : ℤ
  pub access : Bytes
  pub refresh : Option Bytes

-- A call: the clock at its looks and behind its requests, whether its caller has a short bound, and
-- what the two endpoints would answer.
pub record Call : Type 0 where
  pub looked_at : ℤ
  pub now : ℤ
  pub has_short_bound : Bool
  pub refresh_reply : Reply
  pub refreshed_at : ℤ
  pub login_reply : Reply
  pub logged_in_at : ℤ
  pub failed_at : ℤ

-- What a call comes to: its answer, the HTTP status that it reports, the requests that it made, and
-- the state that it leaves.
pub record Outcome : Type 0 where
  pub authenticated : Bool
  pub http_status : ℤ
  pub refresh_sent : Bool
  pub login_sent : Bool
  pub auth : Auth

abbrev pub has_token : Auth → ℤ → Bool
has_token a now = not (is_empty (a.access_token)) && ltb_ℤ now (a.access_token_expiry)

abbrev pub gives_token : Reply → Bool
gives_token r = r.succeeded && not (is_empty (r.access))

abbrev pub token_lifetime : ℤ
token_lifetime = seconds 240

abbrev pub or_kept : Option Bytes → Bytes → Bytes
or_kept none kept = kept
or_kept (some r) kept = r

abbrev pub rotated_or_kept : Option Bytes → Bytes → Bytes
rotated_or_kept none kept = kept
rotated_or_kept (some r) kept = if is_empty r then kept else r

-- `Login`, where it succeeds, and what `EnsureAuthenticated` then resets.
abbrev pub logged_in : Call → Auth → Auth
logged_in c a = record {
  access_token = (c.login_reply).access;
  refresh_token = or_kept ((c.login_reply).refresh) (a.refresh_token);
  access_token_expiry = c.logged_in_at +ℤ token_lifetime;
  consecutive_login_failures = 0;
  login_backoff_until = a.login_backoff_until;
  transient_login_failed_at = pos 0;
  transient_login_armed_by_short_attempt = false;
  transient_login_failed_status = negsuc 0;
}

-- `RefreshAccessToken`, where it succeeds, and what `EnsureAuthenticated` then resets.
abbrev pub token_refreshed : Call → Auth → Auth
token_refreshed c a = record a {
  access_token = (c.refresh_reply).access;
  refresh_token = rotated_or_kept ((c.refresh_reply).refresh) (a.refresh_token);
  access_token_expiry = c.refreshed_at +ℤ token_lifetime;
  consecutive_login_failures = 0;
  transient_login_failed_status = negsuc 0;
}

abbrev pub arm_cooldown : Call → ℤ → Auth → Auth
arm_cooldown c http_status a = record a {
  transient_login_failed_at = c.failed_at;
  transient_login_armed_by_short_attempt = c.has_short_bound;
  transient_login_failed_status = http_status;
}

abbrev pub count_login_failure : Call → Auth → Auth
count_login_failure c a = record a {
  consecutive_login_failures = suc (a.consecutive_login_failures);
  login_backoff_until =
      c.failed_at
      +ℤ seconds (compute_login_backoff_seconds (pos (suc (a.consecutive_login_failures))));
}

-- The login, behind a refresh or without one.
unfoldable pub log_in : Call → Bool → Auth → Outcome
log_in c refresh_sent a =
    let http_status = (c.login_reply).http_status in
    let counted = should_count_toward_login_backoff http_status in
    let succeeds = gives_token (c.login_reply) in
    record {
      authenticated = succeeds;
      http_status = if succeeds then negsuc 0 else http_status;
      refresh_sent = refresh_sent;
      login_sent = true;
      auth =
          if succeeds
          then logged_in c a
          else if counted
          then count_login_failure c a
          else arm_cooldown c http_status a;
    }

-- What follows a refresh that failed.
unfoldable pub after_failed_refresh : Call → RefreshTokenFailure → Auth → Outcome
after_failed_refresh c rejected a = log_in c true (record a { refresh_token = [] })
after_failed_refresh c transient a = record {
  authenticated = false;
  http_status = (c.refresh_reply).http_status;
  refresh_sent = true;
  login_sent = false;
  auth = arm_cooldown c ((c.refresh_reply).http_status) a;
}
after_failed_refresh c other a = log_in c true a

unfoldable pub refresh_or_log_in : Call → Auth → Outcome
refresh_or_log_in c a =
    if is_empty (a.refresh_token)
    then log_in c false a
    else if gives_token (c.refresh_reply)
    then record {
      authenticated = true;
      http_status = negsuc 0;
      refresh_sent = true;
      login_sent = false;
      auth = token_refreshed c a;
    }
    else after_failed_refresh c (classify_refresh_token_failure ((c.refresh_reply).http_status)) a

-- A call that makes no request.
abbrev pub silent : Bool → ℤ → Auth → Outcome
silent authenticated http_status a = record {
  authenticated = authenticated;
  http_status = http_status;
  refresh_sent = false;
  login_sent = false;
  auth = a;
}

unfoldable pub pass_gate : Call → AuthGate → Auth → Outcome
pass_gate c have_token a = silent true (negsuc 0) a
pass_gate c login_backoff a = silent false (negsuc 0) a
pass_gate c transient_cooldown a = silent false (a.transient_login_failed_status) a
pass_gate c proceed a = refresh_or_log_in c a

abbrev pub is_backed_off : Auth → ℤ → Bool
is_backed_off a now = ltb 0 (a.consecutive_login_failures) && ltb_ℤ now (a.login_backoff_until)

abbrev pub is_cooling_down : Auth → Call → Bool
is_cooling_down a c =
    is_transient_cooldown_blocking
      (not (
        is_retry_due (a.transient_login_failed_at) (c.now) (seconds transient_login_retry_seconds)))
      (a.transient_login_armed_by_short_attempt) (c.has_short_bound)

-- `EnsureAuthenticated`.
unfoldable pub ensure_authenticated : Call → Auth → Outcome
ensure_authenticated c a =
    if has_token a (c.looked_at)
    then silent true (negsuc 0) a
    else pass_gate c
        (decide_auth_gate (has_token a (c.now)) (is_backed_off a (c.now)) (is_cooling_down a c)) a

abbrev pub invalidate_access_token : Auth → Auth
invalidate_access_token a = record a { access_token_expiry = pos 0 }
