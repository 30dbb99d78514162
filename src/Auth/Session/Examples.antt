-- ===== src/Auth/Session/Examples.antt =====
-- The theorem on calls behind a failed login at concrete values.
use pvr_dispatcharr_unoffici.Prelude.{
  refl, ℕ, ◌+◌, false, none, List, [], ◌∷◌, codes, All, inl, arith,
}
use pvr_dispatcharr_unoffici.Prelude.Int.{pos, negsuc, ◌+ℤ◌}
use pvr_dispatcharr_unoffici.Auth.{
  should_count_toward_login_backoff, compute_login_backoff_seconds, decide_auth_gate,
  classify_refresh_token_failure, is_transient_cooldown_blocking,
}
use pvr_dispatcharr_unoffici.Auth.Session.{
  pass_gate, refresh_or_log_in, after_failed_refresh, log_in, seconds, Auth, Reply, Call,
  ensure_authenticated,
}
use pvr_dispatcharr_unoffici.Auth.Session.Laws.{TooEarly, Quiet, failed_login-Quiet}

abbrev refused : Reply
refused = record { succeeded = false; http_status = pos 401; access = []; refresh = none }

-- A call at a second of the clock, whose login the server refuses 1 second later.
abbrev call_at : ℕ → Call
call_at n = record {
  looked_at = seconds n;
  now = seconds n;
  has_short_bound = false;
  refresh_reply = refused;
  refreshed_at = seconds (1 + n);
  login_reply = refused;
  logged_in_at = seconds (1 + n);
  failed_at = seconds (1 + n);
}

abbrev without_token : Auth
without_token = record {
  access_token = [];
  refresh_token = codes "r";
  access_token_expiry = pos 0;
  consecutive_login_failures = 2;
  login_backoff_until = pos 0;
  transient_login_failed_at = pos 0;
  transient_login_armed_by_short_attempt = false;
  transient_login_failed_status = negsuc 0;
}

abbrev early_calls : List Call
early_calls = call_at 12 ∷ call_at 13 ∷ []

early_calls-TooEarly : All (TooEarly (call_at 10) without_token) early_calls
unfolding should_count_toward_login_backoff compute_login_backoff_seconds ◌+ℤ◌
early_calls-TooEarly = (inl (refl, omega arith), (inl (refl, omega arith), tt))

failed_login-Quiet_example :
    Quiet ((ensure_authenticated (call_at 10) without_token).auth) early_calls
unfolding ensure_authenticated pass_gate refresh_or_log_in after_failed_refresh log_in
    decide_auth_gate classify_refresh_token_failure is_transient_cooldown_blocking
failed_login-Quiet_example =
    failed_login-Quiet (call_at 10) without_token early_calls refl refl early_calls-TooEarly
