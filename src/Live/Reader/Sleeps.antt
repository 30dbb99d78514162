-- ===== src/Live/Reader/Sleeps.antt =====
-- A pass of a read of the live stream that asks for another one has slept
-- (`HandleLiveTimeshiftSegmentFetchFailure` and `ReadLiveTimeshiftStreamOnce` of
-- src/DispatcharrClient.cpp).
use native.Mathlib.Nat.{one-le-pow}
use pvr_dispatcharr_unoffici.Prelude.{
  ℕ, zero, suc, ◌+◌, ◌-◌, ◌≤◌, ◌≡◌, refl, Bool, true, false, ◌||◌, not, Option, none, some, by_if,
  ◌==◌, if◌then◌else◌, arith,
}
use pvr_dispatcharr_unoffici.Prelude.Int.{ℤ, pos, negsuc, ◌≤ℤ◌, ◌-ℤ◌, eqb_ℤ, min_ℤ}
use pvr_dispatcharr_unoffici.Position.Bounds.{compute_segment_read_size_lem}
use pvr_dispatcharr_unoffici.Segments.{is_at_ended_tail}
use pvr_dispatcharr_unoffici.CatchUp.{TailWaitOutcome, retry, give_up}
use pvr_dispatcharr_unoffici.Retry.{
  segment_fetch_retry_delay_ms, LiveSegmentOutcome, transport_failure, segment_gone, range_ignored,
  unexpected_status, size_mismatch, ok,
}
use pvr_dispatcharr_unoffici.Retry.Delay.{segment_fetch_retry_delay_ms_doubles}
use pvr_dispatcharr_unoffici.Live.{Segment, segment_t}
use pvr_dispatcharr_unoffici.Live.Calls.{skip_rolled_off}
use pvr_dispatcharr_unoffici.Live.Reader.{
  Reader, unlocked, Failing, Env, retry_segment_fetch, at_tail, mark_fatal, count_failure, gives_up,
  handle_failure,
}
use pvr_dispatcharr_unoffici.Live.Reader.Pass.{
  WaitEnd, gone, waited, stops_waiting, wait_rounds, Next, says, goes_on, leave_wait,
  hand_back_or_leave, after_wait, enter_tail, wait_at_tail, as_int, settle, transfer_segment,
  read_size, read_segment, fetch, continue_read,
}
use pvr_dispatcharr_unoffici.Live.Reader.Pass.Once.{
  is_heartbeat_due, heartbeat_sent, send_heartbeat, read_on, read_alive, read_once,
}

-- Where the answer asks for another pass, the sleeps are 250 ms at least above `before`.
abbrev pub Slept : ℕ → ℤ × Reader → Type 0
Slept before x = x.0 ≡ retry_segment_fetch → before + 250 ≤ (x.1).slept_ms

-- The same of a part of a read: an answer asks for no pass, and what goes on has not slept less.
abbrev Goes : ℕ → Next → Type 0
Goes before (says answer r) = ¬ (answer ≡ retry_segment_fetch)
Goes before (goes_on r gave_up) = before ≤ r.slept_ms

abbrev Waited : ℕ → WaitEnd → Type 0
Waited before (gone r) = Unit
Waited before (waited r answered) = before ≤ r.slept_ms

delay-ge : (failures : ℕ) → 250 ≤ segment_fetch_retry_delay_ms failures
delay-ge failures =
    let h = one-le-pow (failures - 1) 2 (omega arith) in
    rw (segment_fetch_retry_delay_ms_doubles failures) (omega arith)

handle_failure-Slept :
    (f : Failing) (before : ℕ) (r : Reader)
    → before ≤ r.slept_ms
    → Slept before (handle_failure f r)
unfolding handle_failure
handle_failure-Slept f before r h =
    let d = delay-ge ((count_failure f r).consecutive_failures) in
    by_if (Slept before) (not (gives_up f (count_failure f r))) _ _ (λ e asks. omega arith)
      (λ e.
        by_if (Slept before) ((f.refresh).same) _ _ (λ g asks. absurd (ground arith))
          (λ g asks. absurd (ground arith)))

-- A number of bytes that an `int` holds is not the mark.
as_int-read : (n : ℤ) → pos 0 ≤ℤ n → n ≤ℤ pos 2147483647 → ¬ (as_int n ≡ retry_segment_fetch)
as_int-read n lo hi e = ground arith

settle-Slept :
    (env : Env) (before : ℕ) (position_at_fetch want_size : ℤ) (outcome : LiveSegmentOutcome)
    (r : Reader)
    → pos 0 ≤ℤ want_size
    → want_size ≤ℤ pos 2147483647
    → before ≤ r.slept_ms
    → Slept before (settle env position_at_fetch want_size outcome r)
unfolding settle
settle-Slept env before p w transport_failure r lo hi h =
    handle_failure-Slept (env.failing) before r h
settle-Slept env before p w segment_gone r lo hi h = handle_failure-Slept (env.failing) before r h
settle-Slept env before p w range_ignored r lo hi h = λ asks. absurd (ground arith)
settle-Slept env before p w unexpected_status r lo hi h =
    handle_failure-Slept (env.failing) before r h
settle-Slept env before p w size_mismatch r lo hi h = λ asks. absurd (ground arith)
settle-Slept env before p w ok r lo hi h =
    by_if (Slept before) (not ((env.away).same) || not (eqb_ℤ ((r.stream).position) p)) _ _
      (λ e asks. absurd (ground arith))
      (λ e asks.
        let n = min_ℤ (pos ((env.transfer).received)) w in
        let low : pos 0 ≤ℤ n = ground arith in
        let high : n ≤ℤ w = ground arith in absurd (as_int-read n low (omega arith) asks))

transfer-Slept :
    (env : Env) (before : ℕ) (seg : Segment) (offset want_size : ℤ) (r : Reader)
    → pos 0 ≤ℤ want_size
    → want_size ≤ℤ pos 2147483647
    → before ≤ r.slept_ms
    → Slept before (transfer_segment env seg offset want_size r)
unfolding transfer_segment
transfer-Slept env before seg offset w r lo hi h =
    let locked = unlocked (env.curl_wait) r in
    by_if (Slept before)
      (not ((env.curl_wait).same) || not (eqb_ℤ ((locked.stream).position) ((r.stream).position))) _
      _ (λ e asks. absurd (ground arith))
      (λ e.
        by_if (Slept before) (not (env.has_handle)) _ _ (λ f asks. absurd (ground arith))
          (λ f. settle-Slept env before _ w _ (unlocked (env.away) locked) lo hi h))

read_segment-Slept :
    (env : Env) (before : ℕ) (size : ℤ) (o : Option Segment) (r : Reader)
    → pos 0 ≤ℤ size
    → size ≤ℤ pos 2147483647
    → before ≤ r.slept_ms
    → Slept before (read_segment env size o r)
unfolding read_segment read_size
read_segment-Slept env before size none r lo hi h = handle_failure-Slept (env.failing) before r h
read_segment-Slept env before size (some seg) r lo hi h = of_size _ (λ want e.
    let granted =
      (compute_segment_read_size_lem ((r.stream).position -ℤ seg.byte_offset) (seg.byte_size) size
          lo).0
        want e in
    (omega arith, omega arith))
  where
    of_size :
        (o : Option ℤ)
        → ((want : ℤ) → o ≡ some want → (pos 0 ≤ℤ want) × (want ≤ℤ pos 2147483647))
        → Slept before (read_size env seg ((r.stream).position -ℤ seg.byte_offset) o r)
    of_size none granted = λ asks. absurd (ground arith)
    of_size (some want) granted =
        let (some_want, fits) = granted want refl in
        transfer-Slept env before seg _ want r some_want fits h

continue_read-Slept :
    (env : Env) (before : ℕ) (size : ℤ) (n : Next)
    → pos 0 ≤ℤ size
    → size ≤ℤ pos 2147483647
    → Goes before n
    → Slept before (continue_read env size n)
unfolding continue_read fetch
continue_read-Slept env before size (says answer r) lo hi h = λ asks. absurd (h asks)
continue_read-Slept env before size (goes_on r gave_up) lo hi h =
    by_if (Slept before) (at_tail r) _ _ (λ e asks. absurd (ground arith))
      (λ e. read_segment-Slept env before size _ r lo hi h)

wait_rounds-Waited :
    (env : Env) (budget_ms : ℤ) (attempt left : ℕ) (r : Reader) (answered : Bool) (before : ℕ)
    → before ≤ r.slept_ms
    → Waited before (wait_rounds env budget_ms attempt left r answered)
unfolding wait_rounds
wait_rounds-Waited env budget_ms attempt zero r answered before h = h
wait_rounds-Waited env budget_ms attempt (suc left) r answered before h =
    let round = env.rounds attempt in
    let refreshed = unlocked (round.refresh) r in
    let slept = unlocked (round.sleep) refreshed in
    let rest = wait_rounds env budget_ms (suc attempt) left slept (round.answered) in
    by_if (Waited before) (not (at_tail r)) (waited r answered) _ (λ e. h)
      (λ e.
        by_if (Waited before) (not ((round.refresh).same)) (gone refreshed) _ (λ f. tt)
          (λ f.
            by_if (Waited before) (round.fatal) (waited (mark_fatal refreshed) (round.answered)) _
              (λ g. h)
              (λ g.
                by_if (Waited before) (stops_waiting env budget_ms round refreshed || left == 0)
                  (waited refreshed (round.answered)) _ (λ i. h)
                  (λ i.
                    by_if (Waited before) (not ((round.sleep).same)) (gone slept) rest (λ j. tt)
                      (λ j.
                        wait_rounds-Waited env budget_ms (suc attempt) left slept (round.answered)
                          before h)))))

hand_back_or_leave-Goes :
    (env : Env) (probe : Bool) (outcome : TailWaitOutcome) (r : Reader) (before : ℕ)
    → before ≤ r.slept_ms
    → Goes before (hand_back_or_leave env probe outcome r)
unfolding hand_back_or_leave
hand_back_or_leave-Goes env probe retry r before h = λ asks. ground arith
hand_back_or_leave-Goes env probe give_up r before h = h

after_wait-Goes :
    (env : Env) (probe : Bool) (budget_ms : ℤ) (w : WaitEnd) (before : ℕ)
    → Waited before w
    → Goes before (after_wait env probe budget_ms w)
unfolding after_wait
after_wait-Goes env probe budget_ms (gone r) before h = λ asks. ground arith
after_wait-Goes env probe budget_ms (waited r answered) before h =
    let s = r.stream in
    by_if (Goes before) (s.fatal) (says (pos 0) r) _ (λ e asks. ground arith)
      (λ e.
        by_if (Goes before) (is_at_ended_tail (s.ended) (s.position) (s.total_bytes))
          (says (pos 0) r) _ (λ f asks. ground arith)
          (λ f.
            by_if (Goes before) (not (at_tail r)) (leave_wait probe r) _ (λ g. h)
              (λ g. hand_back_or_leave-Goes env probe _ r before h)))

wait_at_tail-Goes :
    (env : Env) (r : Reader) (before : ℕ) → before ≤ r.slept_ms → Goes before (wait_at_tail env r)
unfolding wait_at_tail
wait_at_tail-Goes env r before h =
    by_if (Goes before) (not (at_tail r)) (goes_on r false) _ (λ e. h)
      (λ e.
        after_wait-Goes env _ _ _ before
          (wait_rounds-Waited env _ 0 _ (enter_tail env r) true before h))

read_on-Slept :
    (env : Env) (size : ℤ) (n : Next) (before : ℕ)
    → pos 0 ≤ℤ size
    → size ≤ℤ pos 2147483647
    → Goes before n
    → Slept before (read_on env size n)
unfolding read_on
read_on-Slept env size (says answer r) before lo hi h = λ asks. absurd (h asks)
read_on-Slept env size (goes_on r gave_up) before lo hi h =
    let s = r.stream in
    by_if (Slept before) (is_at_ended_tail (s.ended) (s.position) (s.total_bytes)) _ _
      (λ e asks. absurd (ground arith))
      (λ e.
        continue_read-Slept env before size (wait_at_tail env r) lo hi
          (wait_at_tail-Goes env r before h))

send_heartbeat-Goes :
    (env : Env) (r : Reader) (before : ℕ) → before ≤ r.slept_ms → Goes before (send_heartbeat env r)
unfolding send_heartbeat
send_heartbeat-Goes env r before h =
    let sent = heartbeat_sent env r in
    by_if (Goes before) (is_heartbeat_due env r)
      (if not ((env.heartbeat).same) then says (negsuc 0) sent else goes_on sent false)
      (goes_on r false)
      (λ due.
        by_if (Goes before) (not ((env.heartbeat).same)) (says (negsuc 0) sent) (goes_on sent false)
          (λ e asks. ground arith) (λ e. h))
      (λ not_due. h)

-- A pass that asks for another one has slept 250 ms at least.
pub read_once-Slept :
    (env : Env) (size : ℤ) (r : Reader)
    → pos 0 ≤ℤ size
    → size ≤ℤ pos 2147483647
    → Slept (r.slept_ms) (read_once env size r)
unfolding read_once
read_once-Slept env size r lo hi =
    by_if (Slept (r.slept_ms)) (not ((r.stream).open_) || eqb_ℤ size (pos 0)) (pos 0, r)
      (if (r.stream).fatal then (pos 0, r) else read_alive env size r)
      (λ e asks. absurd (ground arith))
      (λ e.
        by_if (Slept (r.slept_ms)) ((r.stream).fatal) (pos 0, r) (read_alive env size r)
          (λ f asks. absurd (ground arith))
          (λ f. read_on-Slept env size _ (r.slept_ms) lo hi (
            send_heartbeat-Goes env (record r { stream = skip_rolled_off (r.stream) }) (r.slept_ms)
              (omega arith))))
