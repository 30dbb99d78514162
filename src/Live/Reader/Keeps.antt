-- ===== src/Live/Reader/Keeps.antt =====
-- A read of the live stream keeps the stream's invariant, and answers no more than it was asked for
-- (`ReadLiveTimeshiftStreamOnce` of src/DispatcharrClient.cpp).
use pvr_dispatcharr_unoffici.Prelude.{
  ℕ, zero, suc, Bool, true, false, ◌||◌, not, by_if, ◌==◌, if◌then◌else◌, arith,
}
use pvr_dispatcharr_unoffici.Prelude.Int.{ℤ, pos, negsuc, ◌≤ℤ◌, eqb_ℤ}
use pvr_dispatcharr_unoffici.Segments.{is_at_ended_tail}
use pvr_dispatcharr_unoffici.CatchUp.{TailWaitOutcome, retry, give_up}
use pvr_dispatcharr_unoffici.Live.{segment_t}
use pvr_dispatcharr_unoffici.Live.Invariant.{IsValid, fatal-IsValid}
use pvr_dispatcharr_unoffici.Live.Read.{skip_rolled_off-IsValid}
use pvr_dispatcharr_unoffici.Live.Reader.{Reader, unlocked, Env, mark_fatal, at_tail}
use pvr_dispatcharr_unoffici.Live.Reader.Pass.{
  WaitEnd, gone, waited, stops_waiting, wait_rounds, Next, says, goes_on, leave_wait,
  hand_back_or_leave, after_wait, enter_tail, wait_at_tail, continue_read,
}
use pvr_dispatcharr_unoffici.Live.Reader.Pass.Once.{
  is_heartbeat_due, heartbeat_sent, send_heartbeat, read_on, read_alive, read_once,
}
use pvr_dispatcharr_unoffici.Live.Reader.FetchKeeps.{KeepsAll, Sound, fetch-Sound}

-- What a wait comes to: the invariant, and the range of an answer.
abbrev Goes : ℤ → Next → Type 0
Goes size (says answer r) = Sound size (answer, r)
Goes size (goes_on r gave_up) = IsValid (r.stream)

abbrev Ends : WaitEnd → Type 0
Ends (gone r) = IsValid (r.stream)
Ends (waited r answered) = IsValid (r.stream)

wait_rounds-Ends :
    (env : Env) (budget_ms : ℤ) (attempt left : ℕ) (r : Reader) (answered : Bool)
    → KeepsAll env
    → IsValid (r.stream)
    → Ends (wait_rounds env budget_ms attempt left r answered)
unfolding wait_rounds
wait_rounds-Ends env budget_ms attempt zero r answered k v = v
wait_rounds-Ends env budget_ms attempt (suc left) r answered k v =
    let round = env.rounds attempt in
    let refreshed = unlocked (round.refresh) r in
    let slept = unlocked (round.sleep) refreshed in
    let w = (k.refresh attempt (r.stream) v).0 in
    let u = (k.sleep attempt (refreshed.stream) w).0 in
    let rest = wait_rounds env budget_ms (suc attempt) left slept (round.answered) in
    by_if Ends (not (at_tail r)) (waited r answered) _ (λ e. v)
      (λ e.
        by_if Ends (not ((round.refresh).same)) (gone refreshed) _ (λ f. w)
          (λ f.
            by_if Ends (round.fatal) (waited (mark_fatal refreshed) (round.answered)) _
              (λ g. fatal-IsValid (refreshed.stream) w)
              (λ g.
                by_if Ends (stops_waiting env budget_ms round refreshed || left == 0)
                  (waited refreshed (round.answered)) _ (λ h. w)
                  (λ h.
                    by_if Ends (not ((round.sleep).same)) (gone slept) rest (λ i. u)
                      (λ i.
                        wait_rounds-Ends env budget_ms (suc attempt) left slept (round.answered) k
                          u)))))

hand_back_or_leave-Goes :
    (env : Env) (size : ℤ) (probe : Bool) (outcome : TailWaitOutcome) (r : Reader)
    → pos 0 ≤ℤ size
    → IsValid (r.stream)
    → Goes size (hand_back_or_leave env probe outcome r)
unfolding hand_back_or_leave
hand_back_or_leave-Goes env size probe retry r some_size v = (v, omega arith, omega arith)
hand_back_or_leave-Goes env size probe give_up r some_size v = v

after_wait-Goes :
    (env : Env) (size : ℤ) (probe : Bool) (budget_ms : ℤ) (w : WaitEnd)
    → pos 0 ≤ℤ size
    → Ends w
    → Goes size (after_wait env probe budget_ms w)
unfolding after_wait
after_wait-Goes env size probe budget_ms (gone r) some_size v = (v, omega arith, omega arith)
after_wait-Goes env size probe budget_ms (waited r answered) some_size v =
    let s = r.stream in
    by_if (Goes size) (s.fatal) (says (pos 0) r) _ (λ e. (v, omega arith, omega arith))
      (λ e.
        by_if (Goes size) (is_at_ended_tail (s.ended) (s.position) (s.total_bytes)) (says (pos 0) r)
          _ (λ f. (v, omega arith, omega arith))
          (λ f.
            by_if (Goes size) (not (at_tail r)) (leave_wait probe r) _ (λ g. v)
              (λ g. hand_back_or_leave-Goes env size probe _ r some_size v)))

wait_at_tail-Goes :
    (env : Env) (size : ℤ) (r : Reader)
    → KeepsAll env
    → pos 0 ≤ℤ size
    → IsValid (r.stream)
    → Goes size (wait_at_tail env r)
unfolding wait_at_tail
wait_at_tail-Goes env size r k some_size v =
    by_if (Goes size) (not (at_tail r)) (goes_on r false) _ (λ e. v)
      (λ e.
        after_wait-Goes env size _ _ _ some_size
          (wait_rounds-Ends env _ 0 _ (enter_tail env r) true k v))

continue_read-Sound :
    (env : Env) (size : ℤ) (n : Next)
    → KeepsAll env
    → pos 0 ≤ℤ size
    → size ≤ℤ pos 2147483647
    → Goes size n
    → Sound size (continue_read env size n)
unfolding continue_read
continue_read-Sound env size (says answer r) k some_size fits h = h
continue_read-Sound env size (goes_on r gave_up) k some_size fits h =
    fetch-Sound env size r gave_up k some_size fits h

read_on-Sound :
    (env : Env) (size : ℤ) (n : Next)
    → KeepsAll env
    → pos 0 ≤ℤ size
    → size ≤ℤ pos 2147483647
    → Goes size n
    → Sound size (read_on env size n)
unfolding read_on
read_on-Sound env size (says answer r) k some_size fits h = h
read_on-Sound env size (goes_on r gave_up) k some_size fits h =
    let s = r.stream in
    by_if (Sound size) (is_at_ended_tail (s.ended) (s.position) (s.total_bytes)) _ _
      (λ e. (h, omega arith, omega arith))
      (λ e.
        continue_read-Sound env size (wait_at_tail env r) k some_size fits
          (wait_at_tail-Goes env size r k some_size h))

send_heartbeat-Goes :
    (env : Env) (size : ℤ) (r : Reader)
    → KeepsAll env
    → pos 0 ≤ℤ size
    → IsValid (r.stream)
    → Goes size (send_heartbeat env r)
unfolding send_heartbeat
send_heartbeat-Goes env size r k some_size v =
    let sent = heartbeat_sent env r in
    let w = (k.heartbeat (r.stream) v).0 in
    by_if (Goes size) (is_heartbeat_due env r)
      (if not ((env.heartbeat).same) then says (negsuc 0) sent else goes_on sent false)
      (goes_on r false)
      (λ due.
        by_if (Goes size) (not ((env.heartbeat).same)) (says (negsuc 0) sent) (goes_on sent false)
          (λ h. (w, omega arith, omega arith)) (λ h. w))
      (λ not_due. v)

-- If what happens while the lock is released keeps the stream's invariant and its bytes, a read keeps
-- the invariant.
pub KeepsAll-Sound :
    (env : Env) (size : ℤ) (r : Reader)
    → KeepsAll env
    → pos 0 ≤ℤ size
    → size ≤ℤ pos 2147483647
    → IsValid (r.stream)
    → Sound size (read_once env size r)
unfolding read_once
KeepsAll-Sound env size r k some_size fits v =
    let w = (skip_rolled_off-IsValid (r.stream) v).0 in
    by_if (Sound size) (not ((r.stream).open_) || eqb_ℤ size (pos 0)) (pos 0, r)
      (if (r.stream).fatal then (pos 0, r) else read_alive env size r)
      (λ e. (v, omega arith, omega arith))
      (λ e.
        by_if (Sound size) ((r.stream).fatal) (pos 0, r) (read_alive env size r)
          (λ f. (v, omega arith, omega arith))
          (λ f.
            read_on-Sound env size _ k some_size fits
              (send_heartbeat-Goes env size _ k some_size w)))
