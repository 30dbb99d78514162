-- ===== src/Live/Reader/Rounds.antt =====
-- The rounds of the wait at the tail: what they tell of the last refresh
-- (`ReadLiveTimeshiftStreamOnce` of src/DispatcharrClient.cpp).
use mathlib.Core.Bool.{false≢true}
use pvr_dispatcharr_unoffici.Prelude.{
  ℕ, zero, suc, ◌≡◌, refl, sym, ◌∙◌, Bool, true, false, inl, inr, ◌||◌, not, by_if, ◌==◌, arith,
}
use pvr_dispatcharr_unoffici.Prelude.Int.{ℤ, pos}
use pvr_dispatcharr_unoffici.CatchUp.{TailWaitEpisode}
use pvr_dispatcharr_unoffici.Live.{segment_t}
use pvr_dispatcharr_unoffici.Live.Reader.{Reader, unlocked, Env, mark_fatal, at_tail}
use pvr_dispatcharr_unoffici.Live.Reader.Pass.{
  WaitEnd, gone, waited, stops_waiting, wait_rounds, Next, says, goes_on,
}
use pvr_dispatcharr_unoffici.Live.Reader.Fetching.{LastAnswer, MayEnd}

-- What a wait may come to.
abbrev pub Good : Env → Reader → Next → Type 0
Good env before (says answer r) = answer ≡ pos 0 → MayEnd env before r
Good env before (goes_on r gave_up) = at_tail r ≡ true → gave_up ≡ false → MayEnd env before r

abbrev pub episode_of : WaitEnd → TailWaitEpisode
episode_of (gone r) = r.tail_wait
episode_of (waited r answered) = r.tail_wait

-- The rounds leave the episode.
pub wait_rounds-episode :
    (env : Env) (budget_ms : ℤ) (attempt left : ℕ) (r : Reader) (answered : Bool)
    → episode_of (wait_rounds env budget_ms attempt left r answered) ≡ r.tail_wait
unfolding wait_rounds
wait_rounds-episode env budget_ms attempt zero r answered = refl
wait_rounds-episode env budget_ms attempt (suc left) r answered =
    let round = env.rounds attempt in
    let slept = unlocked (round.sleep) (unlocked (round.refresh) r) in
    let keeps : WaitEnd → Type 0 = λ w. episode_of w ≡ r.tail_wait in
    by_if keeps (not (at_tail r)) _ _ (λ e. refl)
      (λ e.
        by_if keeps (not ((round.refresh).same)) _ _ (λ f. refl)
          (λ f.
            by_if keeps (round.fatal) _ _ (λ g. refl)
              (λ g.
                by_if keeps
                  (stops_waiting env budget_ms round (unlocked (round.refresh) r) || left == 0) _ _
                  (λ h. refl)
                  (λ h.
                    by_if keeps (not ((round.sleep).same)) _ _ (λ i. refl)
                      (λ i.
                        wait_rounds-episode env budget_ms (suc attempt) left slept
                          (round.answered))))))

-- Where the loop leaves the position at the tail of a stream that is not dead, it tells whether the
-- refresh of its last round was answered.
abbrev pub Tells : Env → ℤ → ℕ → ℕ → Reader → WaitEnd → Type 0
Tells env budget_ms attempt left r (gone t) = Unit
Tells env budget_ms attempt left r (waited t answered) =
    at_tail t ≡ true → (t.stream).fatal ≡ false → LastAnswer env budget_ms attempt left r answered

last_stop :
    (env : Env) (budget_ms : ℤ) (attempt left : ℕ) (r : Reader)
    → stops_waiting env budget_ms (env.rounds attempt) (unlocked ((env.rounds attempt).refresh) r)
        || left == 0
      ≡ true
    → LastAnswer env budget_ms attempt left r ((env.rounds attempt).answered)
last_stop env budget_ms attempt zero r h = refl
last_stop env budget_ms attempt (suc left) r h = inl (either _ left h, refl)
  where
    either : (b : Bool) (left : ℕ) → b || suc left == 0 ≡ true → b ≡ true
    either b left h = ground arith

pub not-true : (b : Bool) → not b ≡ true → b ≡ false
not-true true h = sym h
not-true false h = refl

abbrev slept_after : Env → ℕ → Reader → Reader
slept_after env attempt r =
    unlocked ((env.rounds attempt).sleep) (unlocked ((env.rounds attempt).refresh) r)

abbrev stops_after : Env → ℤ → ℕ → ℕ → Reader → Bool
stops_after env budget_ms attempt left r =
    stops_waiting env budget_ms (env.rounds attempt) (unlocked ((env.rounds attempt).refresh) r)
    || left == 0

round-Tells :
    (env : Env) (budget_ms : ℤ) (attempt left : ℕ) (r : Reader) (answered : Bool)
    → (stops_after env budget_ms attempt left r ≡ false
        → Tells env budget_ms attempt left r (
            wait_rounds env budget_ms
              (suc attempt)
              left
              (slept_after env attempt r)
              ((env.rounds attempt).answered)))
    → Tells env budget_ms attempt left r (wait_rounds env budget_ms attempt (suc left) r answered)
unfolding wait_rounds
round-Tells env budget_ms attempt left r answered next =
    let round = env.rounds attempt in
    let refreshed = unlocked (round.refresh) r in
    let slept = slept_after env attempt r in
    let tells = Tells env budget_ms attempt left r in
    by_if tells (not (at_tail r)) (waited r answered) _
      (λ e here. absurd (false≢true (sym (not-true (at_tail r) e) ∙ here)))
      (λ e.
        by_if tells (not ((round.refresh).same)) (gone refreshed) _ (λ f. tt)
          (λ f.
            by_if tells (round.fatal) (waited (mark_fatal refreshed) (round.answered)) _
              (λ g here alive. absurd (false≢true (sym alive)))
              (λ g.
                by_if tells (stops_after env budget_ms attempt left r)
                  (waited refreshed (round.answered)) _
                  (λ h here alive. last_stop env budget_ms attempt left r h)
                  (λ h.
                    by_if tells (not ((round.sleep).same)) (gone slept)
                      (wait_rounds env budget_ms (suc attempt) left slept (round.answered))
                      (λ i. tt) (λ i. next h)))))

later-Tells :
    (env : Env) (budget_ms : ℤ) (attempt left : ℕ) (r : Reader) (w : WaitEnd)
    → stops_after env budget_ms attempt (suc left) r ≡ false
    → Tells env budget_ms (suc attempt) left (slept_after env attempt r) w
    → Tells env budget_ms attempt (suc left) r w
later-Tells env budget_ms attempt left r (gone t) h k = tt
later-Tells env budget_ms attempt left r (waited t a) h k =
    λ here alive. inr (either _ left h, k here alive)
  where
    either : (b : Bool) (left : ℕ) → b || suc left == 0 ≡ false → b ≡ false
    either b left h = ground arith

pub wait_rounds-Tells :
    (env : Env) (budget_ms : ℤ) (attempt left : ℕ) (r : Reader) (answered : Bool)
    → Tells env budget_ms attempt left r (wait_rounds env budget_ms attempt (suc left) r answered)
wait_rounds-Tells env budget_ms attempt zero r answered =
    round-Tells env budget_ms attempt zero r answered (λ h. absurd (never _ h))
  where
    never : (b : Bool) → b || true ≡ false → ⊥
    never b h = ground arith
wait_rounds-Tells env budget_ms attempt (suc left) r answered =
    round-Tells env budget_ms attempt (suc left) r answered (λ h.
      later-Tells env budget_ms attempt left r _ h
        (wait_rounds-Tells env budget_ms (suc attempt) left _ _))
