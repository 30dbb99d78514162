-- ===== src/Live/Reader/Pass/Once.antt =====
-- A whole pass of a read of the live stream, with its heartbeat, and the loop over the passes
-- (`ReadLiveTimeshiftStreamOnce` and `ReadLiveTimeshiftStream` of src/DispatcharrClient.cpp).
use pvr_dispatcharr_unoffici.Prelude.{
  ℕ, ◌+◌, ◌-◌, ◌*◌, zero, suc, Bool, false, ◌&&◌, ◌||◌, not, Option, none, some, if◌then◌else◌,
}
use pvr_dispatcharr_unoffici.Prelude.Int.{ℤ, pos, negsuc, ◌-ℤ◌, leb_ℤ, eqb_ℤ}
use pvr_dispatcharr_unoffici.Segments.{is_at_ended_tail}
use pvr_dispatcharr_unoffici.CatchUp.{to_ms, is_unset, live_tail_wait_slice_ms}
use pvr_dispatcharr_unoffici.Retry.{
  LiveSegmentRetryStep, decide_live_segment_retry_step, try_again, hand_back, stop,
}
use pvr_dispatcharr_unoffici.Live.{segment_t}
use pvr_dispatcharr_unoffici.Live.Calls.{skip_rolled_off}
use pvr_dispatcharr_unoffici.Live.Reader.{
  Env, Reader, heartbeat_interval, retry_segment_fetch, unlocked,
}
use pvr_dispatcharr_unoffici.Live.Reader.Pass.{Next, continue_read, goes_on, says, wait_at_tail}

abbrev pub is_heartbeat_due : Env → Reader → Bool
is_heartbeat_due env r =
    r.has_viewer
    && (is_unset (r.last_heartbeat_sent)
        || leb_ℤ heartbeat_interval (env.heartbeat_at -ℤ r.last_heartbeat_sent))

abbrev pub heartbeat_sent : Env → Reader → Reader
heartbeat_sent env r =
    unlocked (env.heartbeat) (record r { last_heartbeat_sent = env.heartbeat_at })

-- The heartbeat, where one is due.
unfoldable pub send_heartbeat : Env → Reader → Next
send_heartbeat env r =
    if is_heartbeat_due env r
    then (if not ((env.heartbeat).same)
        then says (negsuc 0) (heartbeat_sent env r)
        else goes_on (heartbeat_sent env r) false)
    else goes_on r false

-- The read behind the heartbeat.
unfoldable pub read_on : Env → ℤ → Next → ℤ × Reader
read_on env size (says answer r) = (answer, r)
read_on env size (goes_on r _) =
    if is_at_ended_tail ((r.stream).ended) ((r.stream).position) ((r.stream).total_bytes)
    then (pos 0, r)
    else continue_read env size (wait_at_tail env r)

-- The read of a stream that is open and alive.
abbrev pub read_alive : Env → ℤ → Reader → ℤ × Reader
read_alive env size r =
    read_on env size (send_heartbeat env (record r { stream = skip_rolled_off (r.stream) }))

-- `ReadLiveTimeshiftStreamOnce`.
unfoldable pub read_once : Env → ℤ → Reader → ℤ × Reader
read_once env size r =
    if not ((r.stream).open_) || eqb_ℤ size (pos 0)
    then (pos 0, r)
    else if (r.stream).fatal
    then (pos 0, r)
    else read_alive env size r

-- `NotifyLiveStreamFatalOnce`.
abbrev pub notify_fatal_once : Reader → Reader
notify_fatal_once r = record r {
  fatal_notified =
      (r.stream).open_ && ((r.stream).fatal && not (r.fatal_notified)) || r.fatal_notified;
}

-- The passes of a read, each with its environment, whether the add-on is being torn down behind it,
-- and how much time has gone by then, since the read began, besides the sleeps behind failed fetches.
-- `std::this_thread::sleep_for` is documented to block for its duration at least; what it blocks longer
-- is part of that time.
pub record Pass : Type 0 where
  pub env : Env
  pub aborted : Bool
  pub busy_ns : ℕ

-- What follows a pass that asks for another try.
unfoldable pub after_failed_pass :
    LiveSegmentRetryStep → Reader → Option (ℤ × Reader) → Option (ℤ × Reader)
after_failed_pass try_again r rest = rest
after_failed_pass hand_back r rest = some (negsuc 0, r)
after_failed_pass stop r rest = some (pos 0, r)

-- The clock behind a pass, since the read began.
abbrev pub since_start : Pass → ℕ → Reader → ℤ
since_start pass slept_before after = pos ((after.slept_ms - slept_before) * 1000000 + pass.busy_ns)

-- `ReadLiveTimeshiftStream`, from the pass `i` on; `none` where the fuel runs out. `slept_before` is what
-- the reads before this one slept.
unfoldable pub read_passes : ℕ → (ℕ → Pass) → ℕ → ℤ → ℕ → Reader → Option (ℤ × Reader)
read_passes zero passes slept_before size i r = none
read_passes (suc fuel) passes slept_before size i r =
    let pass = passes i in
    let (answer, after) = read_once (pass.env) size r in
    let rest = read_passes fuel passes slept_before size (suc i) after in
    if not (eqb_ℤ answer retry_segment_fetch)
    then some (answer, if eqb_ℤ answer (pos 0) then notify_fatal_once after else after)
    else after_failed_pass
        (decide_live_segment_retry_step (pass.aborted) (to_ms (since_start pass slept_before after))
          live_tail_wait_slice_ms)
        after rest
