-- ===== src/Pacing.antt =====
-- src/HlsViewerKeepAlive.h and src/RequestTimeout.h: when a keep-alive request is due, and how long
-- a request that a viewer waits for may take. Times of the steady clock are milliseconds; a
-- `long`, an `int` and an HTTP status are integers.
pub mod Timeout
use pvr_dispatcharr_unoffici.Prelude.{
  ℕ, suc, ◌+◌, ◌/◌, Bool, true, false, not, ◌&&◌, ◌||◌, leb, if◌then◌else◌,
}
use pvr_dispatcharr_unoffici.Prelude.Int.{ℤ, pos, negsuc, ◌+ℤ◌, ◌-ℤ◌, ◌*ℤ◌, ltb_ℤ, leb_ℤ, eqb_ℤ}

abbrev hls_keep_alive_interval : ℕ
hls_keep_alive_interval = 10000

abbrev hls_keep_alive_retry_delay : ℕ
hls_keep_alive_retry_delay = 2000

unfoldable pub should_send_hls_viewer_keep_alive : Bool → ℤ → ℤ → ℕ → ℕ → Bool
should_send_hls_viewer_keep_alive content_gone position total_bytes next_due_at now =
    if content_gone
    then false
    else if leb_ℤ total_bytes position
    then false
    else leb next_due_at now

pub data HlsKeepAliveOutcome : Type 0 where
  refreshed gone retry_later : HlsKeepAliveOutcome

unfoldable pub classify_hls_keep_alive_response : Bool → ℤ → HlsKeepAliveOutcome
classify_hls_keep_alive_response transport_ok http_status =
    if not transport_ok
    then retry_later
    else if leb_ℤ (pos 200) http_status && ltb_ℤ http_status (pos 300)
    then refreshed
    else if eqb_ℤ http_status (pos 404)
        || leb_ℤ (pos 300) http_status && ltb_ℤ http_status (pos 400)
    then gone
    else retry_later

unfoldable pub next_hls_keep_alive_due_at : ℕ → HlsKeepAliveOutcome → ℕ
next_hls_keep_alive_due_at now retry_later = now + hls_keep_alive_retry_delay
next_hls_keep_alive_due_at now refreshed = now + hls_keep_alive_interval
next_hls_keep_alive_due_at now gone = now + hls_keep_alive_interval

-- The division of C++, which rounds towards 0.
abbrev pub truncated_div : ℤ → ℕ → ℤ
truncated_div (pos n) d = pos (n / d)
truncated_div (negsuc n) d = pos 0 -ℤ pos (suc n / d)

-- The `if`s after `fullMs / 6`, in their order.
abbrev pub at_least : ℤ → ℤ → ℤ
at_least low ms = if ltb_ℤ ms low then low else ms

abbrev pub at_most : ℤ → ℤ → ℤ
at_most high ms = if ltb_ℤ high ms then high else ms

unfoldable pub short_request_timeout_ms : ℤ → ℤ
short_request_timeout_ms timeout_seconds =
    let full_ms = timeout_seconds *ℤ pos 1000 in
    let ms = at_most (pos 30000) (at_least (pos 5000) (truncated_div full_ms 6)) in
    if ltb_ℤ (pos 0) full_ms && ltb_ℤ full_ms ms then full_ms else ms

unfoldable pub cold_start_wall_clock_budget_ms : ℤ → ℤ → ℤ → ℤ
unfolding short_request_timeout_ms
cold_start_wall_clock_budget_ms max_tries sleep_ms timeout_seconds =
    max_tries *ℤ sleep_ms +ℤ short_request_timeout_ms timeout_seconds

unfoldable pub cold_start_try_limit : Bool → ℤ → ℤ → ℤ
cold_start_try_limit plugin_answered_not_ready base_tries extended_tries =
    if plugin_answered_not_ready && ltb_ℤ base_tries extended_tries
    then extended_tries
    else base_tries

unfoldable pub is_in_progress_steady_state : Bool → Bool → Bool
is_in_progress_steady_state cold_start have_segments = not cold_start && have_segments

unfoldable pub should_skip_playlist_after_unanswered_lookup : Bool → Bool → ℤ → Bool → Bool
should_skip_playlist_after_unanswered_lookup steady_state lookup_ok lookup_http_status
      authentication_not_completed =
    steady_state
    && not lookup_ok
    && eqb_ℤ lookup_http_status (pos 0)
    && not authentication_not_completed
