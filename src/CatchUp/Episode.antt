-- ===== src/CatchUp/Episode.antt =====
-- The episodes of a wait at the live tail (`TailWaitEpisode` of src/CatchUpUtil.h).
use pvr_dispatcharr_unoffici.Prelude.{
  ◌≡◌, refl, sym, subst, true, false, ◌||◌, not, ◌↔◌, List, [], ◌∷◌, arith,
}
use pvr_dispatcharr_unoffici.Prelude.Int.{ℤ, pos, ◌-ℤ◌, ◌≤ℤ◌, ◌<ℤ◌, ltb_ℤ, eqb_ℤ}
use pvr_dispatcharr_unoffici.CatchUp.{
  to_ms, is_unset, TailWaitEpisode, is_fresh, enter, touch, waited_ms, give_up,
  decide_tail_wait_outcome, tail_wait_episode_gap_ms,
}

-- The calls that wait at one position, in order: when each arrives at the tail, and when it answers
-- -1, to be called again.
abbrev pub wait_again : TailWaitEpisode → ℤ → List (ℤ × ℤ) → TailWaitEpisode
wait_again e position [] = e
wait_again e position ((arrives, leaves) ∷ later) =
    wait_again (touch (enter e position arrives) leaves) position later

-- Each call arrives no more than three seconds after the one before it has left.
abbrev pub Prompt : ℤ → List (ℤ × ℤ) → Type 0
Prompt last [] = Unit
Prompt last ((arrives, leaves) ∷ later) =
    (to_ms (arrives -ℤ last) ≤ℤ tail_wait_episode_gap_ms) × (pos 0 <ℤ leaves) × Prompt leaves later

enter-again :
    (e : TailWaitEpisode) (now : ℤ)
    → pos 0 <ℤ e.last_call
    → to_ms (now -ℤ e.last_call) ≤ℤ tail_wait_episode_gap_ms
    → enter e (e.position) now ≡ record e { last_call = now }
unfolding enter
enter-again e now set_ h = rw (not_fresh (e.position) (e.last_call) _ set_ h) refl
  where
    not_fresh :
        (p last gap : ℤ)
        → pos 0 <ℤ last
        → gap ≤ℤ tail_wait_episode_gap_ms
        → not (eqb_ℤ p p) || is_unset last || ltb_ℤ tail_wait_episode_gap_ms gap ≡ false
    not_fresh p last gap a b = ground arith

enter_fresh :
    (e : TailWaitEpisode) (position now : ℤ)
    → is_fresh e position now ≡ true
    → enter e position now ≡ record { position = position; start = now; last_call = now }
unfolding enter
enter_fresh e position now h = rw h refl

wait_again-keeps :
    (e : TailWaitEpisode) (calls : List (ℤ × ℤ))
    → pos 0 <ℤ e.last_call
    → Prompt (e.last_call) calls
    → let f = wait_again e (e.position) calls in (f.position ≡ e.position) × (f.start ≡ e.start)
wait_again-keeps e [] set_ h = (refl, refl)
wait_again-keeps e ((arrives, leaves) ∷ later) set_ (near, left, h) =
    subst
      (λ f.
        let g = wait_again (touch f leaves) (e.position) later in
        (g.position ≡ e.position) × (g.start ≡ e.start))
      (sym (enter-again e arrives set_ near))
      (wait_again-keeps (record e { last_call = leaves }) later left h)

counted :
    (f : TailWaitEpisode) (position began now : ℤ)
    → pos 0 ≤ℤ position
    → f.position ≡ position
    → f.start ≡ began
    → waited_ms f now ≡ to_ms (now -ℤ began)
unfolding waited_ms
counted f position began now placed p s = rw (p, s, not_before position placed) refl
  where
    not_before : (q : ℤ) → pos 0 ≤ℤ q → ltb_ℤ q (pos 0) ≡ false
    not_before q h = ground arith

decide_tail_wait_outcome_iff :
    (waited budget_ms : ℤ)
    → (decide_tail_wait_outcome false waited budget_ms ≡ give_up) ↔ (budget_ms ≤ℤ waited)
unfolding decide_tail_wait_outcome
decide_tail_wait_outcome_iff waited budget_ms = ground arith

-- A wait at a position, taken up again in calls that each arrive within three seconds of the one
-- before, is counted from its first call: it gives up exactly once the budget has passed since then.
pub wait_again-gives_up :
    (e : TailWaitEpisode) (position began left now budget_ms : ℤ) (calls : List (ℤ × ℤ))
    → pos 0 ≤ℤ position
    → is_fresh e position began ≡ true
    → pos 0 <ℤ left
    → Prompt left calls
    → let f = wait_again (touch (enter e position began) left) position calls in
      (decide_tail_wait_outcome false (waited_ms f now) budget_ms ≡ give_up)
      ↔ (budget_ms ≤ℤ to_ms (now -ℤ began))
wait_again-gives_up e position began left now budget_ms calls placed fresh set_ h =
    let first = touch (enter e position began) left in
    let entered = enter_fresh e position began fresh in
    let kept =
      subst
        (λ f.
          let g = wait_again (touch f left) position calls in
          (g.position ≡ position) × (g.start ≡ began))
        (sym entered)
        (wait_again-keeps (record { position = position; start = began; last_call = left }) calls
          set_ h) in
    subst
      (λ w.
        (decide_tail_wait_outcome false w budget_ms ≡ give_up)
        ↔ (budget_ms ≤ℤ to_ms (now -ℤ began)))
      (sym (counted (wait_again first position calls) position began now placed kept.0 kept.1))
      (decide_tail_wait_outcome_iff (to_ms (now -ℤ began)) budget_ms)
