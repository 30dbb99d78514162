-- ===== src/Live/Reader/Loop.antt =====
-- The loop of `ReadLiveTimeshiftStream` of src/DispatcharrClient.cpp ends.
use pvr_dispatcharr_unoffici.Prelude.{
  ℕ, zero, suc, ◌+◌, ◌*◌, ◌≤◌, ◌≡◌, ◌≢◌, refl, Bool, true, false, not, by_if, Option, some,
  if◌then◌else◌, arith,
}
use pvr_dispatcharr_unoffici.Prelude.Int.{ℤ, pos, negsuc, ◌≤ℤ◌, eqb_ℤ, eq_of_parts}
use pvr_dispatcharr_unoffici.CatchUp.{to_ms, live_tail_wait_slice_ms}
use pvr_dispatcharr_unoffici.Retry.{
  LiveSegmentRetryStep, try_again, hand_back, stop, decide_live_segment_retry_step,
}
use pvr_dispatcharr_unoffici.Live.Reader.{Reader, retry_segment_fetch}
use pvr_dispatcharr_unoffici.Live.Reader.Sleeps.{read_once-Slept}
use pvr_dispatcharr_unoffici.Live.Reader.Pass.Once.{
  read_once, notify_fatal_once, Pass, after_failed_pass, since_start, read_passes,
}

-- An answer that the player may see.
abbrev pub Returns : Option (ℤ × Reader) → Type 0
Returns o = (x : ℤ × Reader) × (o ≡ some x) × (x.0 ≢ retry_segment_fetch)

to_ms-ge : (d : ℤ) → pos 1000000000 ≤ℤ d → pos 1000 ≤ℤ to_ms d
to_ms-ge (pos n) h = omega arith
to_ms-ge (negsuc n) h = absurd (omega arith)

no_more_tries :
    (aborted : Bool) (since slice : ℤ)
    → slice ≤ℤ since
    → decide_live_segment_retry_step aborted since slice ≢ try_again
unfolding decide_live_segment_retry_step
no_more_tries aborted since slice h = λ e. ground arith

after_failed_pass-Returns :
    (step : LiveSegmentRetryStep) (r : Reader) (rest : Option (ℤ × Reader))
    → (step ≡ try_again → Returns rest)
    → Returns (after_failed_pass step r rest)
unfolding after_failed_pass
after_failed_pass-Returns try_again r rest h = h refl
after_failed_pass-Returns hand_back r rest h = ((negsuc 0, r), refl, λ e. cc)
after_failed_pass-Returns stop r rest h = ((pos 0, r), refl, λ e. cc)

not_retry : (a : ℤ) → not (eqb_ℤ a retry_segment_fetch) ≡ true → a ≢ retry_segment_fetch
not_retry a h = λ e. ground arith

is_retry : (a : ℤ) → not (eqb_ℤ a retry_segment_fetch) ≡ false → a ≡ retry_segment_fetch
is_retry a h = eq_of_parts a retry_segment_fetch (ground arith)

abbrev retry_step : Pass → ℕ → Reader → LiveSegmentRetryStep
retry_step pass slept_before after =
    decide_live_segment_retry_step (pass.aborted) (to_ms (since_start pass slept_before after))
      live_tail_wait_slice_ms

pass-Returns :
    (fuel i : ℕ) (passes : ℕ → Pass) (slept_before : ℕ) (size : ℤ) (r : Reader)
    → pos 0 ≤ℤ size
    → size ≤ℤ pos 2147483647
    → ((after : Reader)
        → r.slept_ms + 250 ≤ after.slept_ms
        → retry_step (passes i) slept_before after ≡ try_again
        → Returns (read_passes fuel passes slept_before size (suc i) after))
    → Returns (read_passes (suc fuel) passes slept_before size i r)
unfolding read_passes
pass-Returns fuel i passes slept_before size r some_size fits again =
    let x = read_once ((passes i).env) size r in
    let slept = read_once-Slept ((passes i).env) size r some_size fits in
    by_if Returns (not (eqb_ℤ (x.0) retry_segment_fetch))
      (some (x.0, if eqb_ℤ (x.0) (pos 0) then notify_fatal_once (x.1) else x.1))
      (after_failed_pass (retry_step (passes i) slept_before (x.1)) (x.1)
        (read_passes fuel passes slept_before size (suc i) (x.1)))
      (λ h. (_, refl, not_retry (x.0) h))
      (λ h. after_failed_pass-Returns _ (x.1) _ (λ e. again (x.1) (slept (is_retry (x.0) h)) e))

returns :
    (fuel i : ℕ) (passes : ℕ → Pass) (slept_before : ℕ) (size : ℤ) (r : Reader)
    → pos 0 ≤ℤ size
    → size ≤ℤ pos 2147483647
    → slept_before + 250 * i ≤ r.slept_ms
    → 3 ≤ fuel + i
    → Returns (read_passes (suc fuel) passes slept_before size i r)
returns zero i passes slept_before size r some_size fits so_far enough =
    pass-Returns zero i passes slept_before size r some_size fits (λ after more tries. absurd (
      no_more_tries _ _ _ (to_ms-ge (since_start (passes i) slept_before after) (omega arith))
        tries))
returns (suc f) i passes slept_before size r some_size fits so_far enough =
    pass-Returns (suc f) i passes slept_before size r some_size fits (λ after more tries.
      returns f (suc i) passes slept_before size after some_size fits (omega arith) (omega arith))

-- A read of at most 2147483647 bytes of the live stream returns within four passes, whatever they meet
-- and however short they are: a pass that asks for another try has slept 250 ms at least, and a read is
-- handed back after a second. Its answer is never the mark by which a pass asks for another try.
pub read_passes-Returns :
    (passes : ℕ → Pass) (size : ℤ) (r : Reader)
    → pos 0 ≤ℤ size
    → size ≤ℤ pos 2147483647
    → Returns (read_passes 4 passes (r.slept_ms) size 0 r)
read_passes-Returns passes size r some_size fits =
    returns 3 0 passes (r.slept_ms) size r some_size fits (omega arith) (omega arith)
