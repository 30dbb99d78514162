-- ===== src/Auth/Session/Laws.antt =====
-- When the client asks for tokens, and what it has when it says that it is authenticated
-- (`EnsureAuthenticated` of src/DispatcharrClient.cpp).
use mathlib.Core.Bool.{false≢true}
use pvr_dispatcharr_unoffici.Prelude.{
  suc, ◌≡◌, ◌≢◌, refl, sym, subst, Bool, true, false, by_if, inl, inr, ◌⊎◌, List, [], ◌∷◌, All,
  is_empty, if◌then◌else◌, arith,
}
use pvr_dispatcharr_unoffici.Prelude.Int.{ℤ, pos, ◌+ℤ◌, ◌<ℤ◌, -ℤ_parts, +ℤ_parts}
use pvr_dispatcharr_unoffici.Auth.{
  compute_login_backoff_seconds, should_count_toward_login_backoff, RefreshTokenFailure, rejected,
  transient, other, is_transient_cooldown_blocking, AuthGate, have_token, login_backoff,
  transient_cooldown, proceed, decide_auth_gate,
}
use pvr_dispatcharr_unoffici.Auth.Session.{
  seconds, Auth, transient_login_retry_seconds, Call, Outcome, has_token, gives_token, logged_in,
  arm_cooldown, count_login_failure, log_in, after_failed_refresh, refresh_or_log_in, pass_gate,
  is_backed_off, is_cooling_down, ensure_authenticated,
}

-- A call that comes too early behind the failed login of `c`: within the backoff, if the server turned
-- the login down; and if it failed otherwise, within 30 seconds, unless the call may take its full time
-- where the failed one could not.
abbrev pub TooEarly : Call → Auth → Call → Type 0
TooEarly c a later =
    ((should_count_toward_login_backoff ((c.login_reply).http_status) ≡ true)
      × (later.now
          <ℤ c.failed_at
            +ℤ seconds (compute_login_backoff_seconds (pos (suc (a.consecutive_login_failures))))))
    ⊎ ((should_count_toward_login_backoff ((c.login_reply).http_status) ≡ false)
        × (pos 0 <ℤ c.failed_at)
        × (later.now <ℤ c.failed_at +ℤ seconds transient_login_retry_seconds)
        × ((c.has_short_bound ≡ false) ⊎ (later.has_short_bound ≡ true)))

-- No call makes a request, each from the state that the one before it leaves.
abbrev pub Quiet : Auth → List Call → Type 0
Quiet a [] = Unit
Quiet a (c ∷ later) =
    let o = ensure_authenticated c a in
    (o.refresh_sent ≡ false) × (o.login_sent ≡ false) × Quiet (o.auth) later

abbrev Blocked : Auth → Call → Type 0
Blocked a c = (is_backed_off a (c.now) ≡ true) ⊎ (is_cooling_down a c ≡ true)

abbrev Silent : Auth → Outcome → Type 0
Silent a o = (o.refresh_sent ≡ false) × (o.login_sent ≡ false) × (o.auth ≡ a)

gate_shut :
    (valid backed_off cooling : Bool)
    → (backed_off ≡ true) ⊎ (cooling ≡ true)
    → decide_auth_gate valid backed_off cooling ≢ proceed
unfolding decide_auth_gate
gate_shut valid backed_off cooling h = λ e. ground arith

pass_gate-Silent : (c : Call) (g : AuthGate) (a : Auth) → g ≢ proceed → Silent a (pass_gate c g a)
unfolding pass_gate
pass_gate-Silent c have_token a h = (refl, refl, refl)
pass_gate-Silent c login_backoff a h = (refl, refl, refl)
pass_gate-Silent c transient_cooldown a h = (refl, refl, refl)
pass_gate-Silent c proceed a h = absurd (h refl)

Blocked-Silent : (c : Call) (a : Auth) → Blocked a c → Silent a (ensure_authenticated c a)
unfolding ensure_authenticated
Blocked-Silent c a h =
    by_if (Silent a) (has_token a (c.looked_at)) _ _ (λ e. (refl, refl, refl))
      (λ e. pass_gate-Silent c _ a (gate_shut _ _ _ h))

Blocked-Quiet : (a : Auth) (later : List Call) → All (Blocked a) later → Quiet a later
Blocked-Quiet a [] h = tt
Blocked-Quiet a (c ∷ later) (h, all) =
    let (r, l, same) = Blocked-Silent c a h in
    (r, l, subst (λ b. Quiet b later) (sym same) (Blocked-Quiet a later all))

-- A login that fails blocks what comes too early behind it.
abbrev Blocks : Call → Auth → Outcome → Type 0
Blocks c a o =
    o.login_sent ≡ true
    → o.authenticated ≡ false
    → (later : Call) → TooEarly c a later
    → Blocked (o.auth) later

counted-blocks :
    (c : Call) (a : Auth) (later : Call)
    → later.now
      <ℤ c.failed_at
        +ℤ seconds (compute_login_backoff_seconds (pos (suc (a.consecutive_login_failures))))
    → is_backed_off (count_login_failure c a) (later.now) ≡ true
counted-blocks c a later h = ground arith

armed-blocks :
    (c : Call) (status : ℤ) (a : Auth) (later : Call)
    → pos 0 <ℤ c.failed_at
    → later.now <ℤ c.failed_at +ℤ seconds 30
    → (c.has_short_bound ≡ false) ⊎ (later.has_short_bound ≡ true)
    → is_cooling_down (arm_cooldown c status a) later ≡ true
unfolding is_transient_cooldown_blocking
armed-blocks c status a later began soon bound =
    ground (arith, +ℤ_parts (c.failed_at) (seconds 30), -ℤ_parts (later.now) (c.failed_at))

abbrev after_failure : Call → Auth → Bool → Auth
after_failure c a counted =
    if counted then count_login_failure c a else arm_cooldown c ((c.login_reply).http_status) a

after_failure-Blocked :
    (c : Call) (a : Auth) (later : Call)
    → TooEarly c a later
    → Blocked
        (after_failure c a (should_count_toward_login_backoff ((c.login_reply).http_status)))
        later
after_failure-Blocked c a later (inl (counted, soon)) =
    subst (λ t. Blocked (after_failure c a t) later) (sym counted)
      (inl (counted-blocks c a later soon))
after_failure-Blocked c a later (inr (not_counted, began, soon, bound)) =
    subst (λ t. Blocked (after_failure c a t) later) (sym not_counted)
      (inr (armed-blocks c ((c.login_reply).http_status) a later began soon bound))

log_in-Blocks : (c : Call) (sent : Bool) (a : Auth) → Blocks c a (log_in c sent a)
unfolding log_in
log_in-Blocks c sent a = λ was_sent failed later early.
    subst
      (λ t.
        Blocked
          (if t
            then logged_in c a
            else after_failure c a
                (should_count_toward_login_backoff ((c.login_reply).http_status)))
          later)
      (sym failed) (after_failure-Blocked c a later early)

after_failed_refresh-Blocks :
    (c : Call) (f : RefreshTokenFailure) (a : Auth) → Blocks c a (after_failed_refresh c f a)
unfolding after_failed_refresh
after_failed_refresh-Blocks c rejected a = log_in-Blocks c true (record a { refresh_token = [] })
after_failed_refresh-Blocks c transient a = λ was_sent. absurd (false≢true was_sent)
after_failed_refresh-Blocks c other a = log_in-Blocks c true a

refresh_or_log_in-Blocks : (c : Call) (a : Auth) → Blocks c a (refresh_or_log_in c a)
unfolding refresh_or_log_in
refresh_or_log_in-Blocks c a =
    by_if (Blocks c a) (is_empty (a.refresh_token)) _ _ (λ e. log_in-Blocks c false a)
      (λ e.
        by_if (Blocks c a) (gives_token (c.refresh_reply)) _ _
          (λ f was_sent. absurd (false≢true was_sent)) (λ f. after_failed_refresh-Blocks c _ a))

pass_gate-Blocks : (c : Call) (g : AuthGate) (a : Auth) → Blocks c a (pass_gate c g a)
unfolding pass_gate
pass_gate-Blocks c have_token a = λ was_sent. absurd (false≢true was_sent)
pass_gate-Blocks c login_backoff a = λ was_sent. absurd (false≢true was_sent)
pass_gate-Blocks c transient_cooldown a = λ was_sent. absurd (false≢true was_sent)
pass_gate-Blocks c proceed a = refresh_or_log_in-Blocks c a

ensure-Blocks : (c : Call) (a : Auth) → Blocks c a (ensure_authenticated c a)
unfolding ensure_authenticated
ensure-Blocks c a =
    by_if (Blocks c a) (has_token a (c.looked_at)) _ _ (λ e was_sent. absurd (false≢true was_sent))
      (λ e. pass_gate-Blocks c _ a)

-- Behind a login that failed, no call that comes too early makes any request, neither a login nor a
-- refresh, however many calls there are.
pub failed_login-Quiet :
    (c : Call) (a : Auth) (later : List Call)
    → (ensure_authenticated c a).login_sent ≡ true
    → (ensure_authenticated c a).authenticated ≡ false
    → All (TooEarly c a) later
    → Quiet ((ensure_authenticated c a).auth) later
failed_login-Quiet c a later was_sent failed early = Blocked-Quiet _ later (blocked later early)
  where
    blocked :
        (calls : List Call)
        → All (TooEarly c a) calls
        → All (Blocked ((ensure_authenticated c a).auth)) calls
    blocked [] h = tt
    blocked (d ∷ calls) (h, all) = (ensure-Blocks c a was_sent failed d h, blocked calls all)
