-- ===== src/Live/Reader/Fetching.antt =====
-- When the fetch of a read of the live stream answers 0
-- (`ReadLiveTimeshiftStreamOnce` of src/DispatcharrClient.cpp).
use pvr_dispatcharr_unoffici.Prelude.{
  ℕ, zero, suc, ◌-◌, ◌≡◌, ◌≢◌, refl, sym, ◌∙◌, ap, subst, Bool, true, false, Bool-cases,
  Option-cases, inl, inr, ◌⊎◌, ◌||◌, not, Option, none, some, by_if, List, [], ◌∷◌, if◌then◌else◌,
  arith,
}
use pvr_dispatcharr_unoffici.Prelude.Int.{
  ℤ, pos, negsuc, pos_part, max_ℤ, ◌*ℤ◌, ◌+ℤ◌, ◌-ℤ◌, ◌≤ℤ◌, ◌<ℤ◌, eqb_ℤ, min_ℤ, +ℤ_parts, -ℤ_parts,
}
use pvr_dispatcharr_unoffici.Position.{compute_segment_read_size}
use pvr_dispatcharr_unoffici.Position.Bounds.{compute_segment_read_size_lem}
use pvr_dispatcharr_unoffici.Segments.{holds, find_segment_containing_position}
use pvr_dispatcharr_unoffici.CatchUp.{
  compute_catch_up_wall_clock_budget_ms, enter, waited_ms, live_tail_give_up_result,
}
use pvr_dispatcharr_unoffici.Retry.{
  LiveSegmentOutcome, transport_failure, segment_gone, range_ignored, unexpected_status,
  size_mismatch, ok,
}
use pvr_dispatcharr_unoffici.Live.{Segment, segment_t}
use pvr_dispatcharr_unoffici.Live.Reader.{
  Reader, unlocked, Env, catch_up_sleep_ms, at_tail, count_failure, gives_up, handle_failure,
}
use pvr_dispatcharr_unoffici.Live.Reader.Pass.{
  as_int, stops_waiting, probes, catch_up_attempts, enter_tail, settle, transfer_segment, read_size,
  read_segment, fetch,
}

-- The state in which the loop at the tail stands before a round, and behind its refresh.
abbrev refreshed_in : Env → ℕ → Reader → Reader
refreshed_in env attempt r = unlocked ((env.rounds attempt).refresh) r

abbrev slept_in : Env → ℕ → Reader → Reader
slept_in env attempt r = unlocked ((env.rounds attempt).sleep) (refreshed_in env attempt r)

-- `answered` tells of the last round of the loop whether its refresh was answered, where the loop stands
-- before the round `attempt`, with `left` further rounds allowed: the last round is the first one whose
-- checks stop it, or else the last that is allowed.
abbrev pub LastAnswer : Env → ℤ → ℕ → ℕ → Reader → Bool → Type 0
LastAnswer env budget_ms attempt zero r answered = answered ≡ (env.rounds attempt).answered
LastAnswer env budget_ms attempt (suc left) r answered =
    ((stops_waiting env budget_ms (env.rounds attempt) (refreshed_in env attempt r) ≡ true)
      × (answered ≡ (env.rounds attempt).answered))
    ⊎ ((stops_waiting env budget_ms (env.rounds attempt) (refreshed_in env attempt r) ≡ false)
        × LastAnswer env budget_ms (suc attempt) left (slept_in env attempt r) answered)

-- The budget of a wait whose refreshes are not answered: 250 ms for each try.
abbrev pub own_budget : Env → Reader → ℤ
own_budget env r = catch_up_attempts env r *ℤ pos catch_up_sleep_ms

-- The whole budget: that one, and 70 seconds at least where the last refresh was answered.
abbrev pub patience : ℤ → Bool → ℤ
patience own answered = if answered then max_ℤ own (pos 70000) else own

-- The wait at the tail, begun in the state `r`, was no seek probe and has used its whole budget, counted
-- since its episode began.
abbrev pub IsOutOfPatience : Env → Reader → Type 0
IsOutOfPatience env r =
    (probes env r ≡ false)
    × (pos 4500 ≤ℤ own_budget env r)
    × (answered : Bool) × (LastAnswer env
        (compute_catch_up_wall_clock_budget_ms (catch_up_attempts env r) catch_up_sleep_ms) 0
        (pos_part (catch_up_attempts env r) - 1) (enter_tail env r) answered)
    × (patience (own_budget env r) answered
        ≤ℤ waited_ms (enter (r.tail_wait) ((r.stream).position) (env.began_at)) (env.waited_at))

-- Why a read that came to the tail in the state `before` may answer 0 and leave `r`: the stream is dead;
-- it has ended and the position is at its tail; the wait at the tail has used its whole budget; the
-- response was good but had no body; or the stream was replaced while a failure was being handled.
abbrev pub MayEnd : Env → Reader → Reader → Type 0
MayEnd env before r =
    ((r.stream).fatal ≡ true)
    ⊎ ((((r.stream).ended ≡ true) × ((r.stream).total_bytes ≤ℤ (r.stream).position))
        ⊎ (IsOutOfPatience env before
            ⊎ (((env.transfer).received ≡ 0) ⊎ (((env.failing).refresh).same ≡ false))))

abbrev pub Zero : Env → Reader → ℤ × Reader → Type 0
Zero env before x = x.0 ≡ pos 0 → MayEnd env before (x.1)

pub not_zero : (n : ℕ) → negsuc n ≢ pos 0
not_zero n e = cc

handle_failure-Zero :
    (env : Env) (before : Reader) (r : Reader) → Zero env before (handle_failure (env.failing) r)
unfolding handle_failure
handle_failure-Zero env before r =
    by_if (Zero env before) (not (gives_up (env.failing) (count_failure (env.failing) r))) _ _
      (λ e z. absurd (not_zero 1 z))
      (λ e.
        by_if (Zero env before) (((env.failing).refresh).same) _ _ (λ f z. inl refl)
          (λ f z. inr (inr (inr (inr f)))))

settle-Zero :
    (env : Env) (before : Reader) (position_at_fetch want_size : ℤ) (outcome : LiveSegmentOutcome)
    (r : Reader)
    → pos 1 ≤ℤ want_size
    → want_size ≤ℤ pos 4294967295
    → Zero env before (settle env position_at_fetch want_size outcome r)
unfolding settle
settle-Zero env before p w transport_failure r one fits = handle_failure-Zero env before r
settle-Zero env before p w segment_gone r one fits = handle_failure-Zero env before r
settle-Zero env before p w range_ignored r one fits = λ z. inl refl
settle-Zero env before p w unexpected_status r one fits = handle_failure-Zero env before r
settle-Zero env before p w size_mismatch r one fits = λ z. inl refl
settle-Zero env before p w ok r one fits =
    by_if (Zero env before) (not ((env.away).same) || not (eqb_ℤ ((r.stream).position) p)) _ _
      (λ e z. absurd (not_zero 0 z))
      (λ e z. inr (inr (inr (inl (empty_body ((env.transfer).received) w one fits z)))))
  where
    empty_body :
        (n : ℕ) (w : ℤ)
        → pos 1 ≤ℤ w
        → w ≤ℤ pos 4294967295
        → as_int (min_ℤ (pos n) w) ≡ pos 0
        → n ≡ 0
    empty_body n w one fits z = ground (arith, -ℤ_parts (min_ℤ (pos n) w) (pos 4294967296))

transfer-Zero :
    (env : Env) (before : Reader) (seg : Segment) (offset want_size : ℤ) (r : Reader)
    → pos 1 ≤ℤ want_size
    → want_size ≤ℤ pos 4294967295
    → Zero env before (transfer_segment env seg offset want_size r)
unfolding transfer_segment
transfer-Zero env before seg offset w r one fits =
    by_if (Zero env before)
      (not ((env.curl_wait).same)
        || not (eqb_ℤ ((unlocked (env.curl_wait) r).stream.position) ((r.stream).position)))
      _ _ (λ e z. absurd (not_zero 0 z))
      (λ e.
        by_if (Zero env before) (not (env.has_handle)) _ _ (λ f z. absurd (not_zero 0 z))
          (λ f. settle-Zero env before ((r.stream).position) w _ _ one fits))

some_injective {ℓ} : {A : Type ℓ} {a b : A} → some a ≡ some b → a ≡ b
some_injective e = cc

found_holds :
    (position : ℤ) (segments : List Segment) (seg : Segment)
    → find_segment_containing_position position segments ≡ some seg
    → (seg.byte_offset ≤ℤ position) × (position <ℤ seg.byte_offset +ℤ seg.byte_size)
unfolding find_segment_containing_position
found_holds position [] seg e = cc
found_holds position (s ∷ segments) seg e = elim (Bool-cases (holds position s)) [
  | inl h ↦
      subst (λ q. (q.byte_offset ≤ℤ position) × (position <ℤ q.byte_offset +ℤ q.byte_size))
        (some_injective (rw h at e)) (ground arith)
  | inr h ↦ found_holds position segments seg (rw h at e)
]

read_size-Zero :
    (env : Env) (before : Reader) (size : ℤ) (seg : Segment) (r : Reader)
    → pos 1 ≤ℤ size
    → size ≤ℤ pos 4294967295
    → find_segment_containing_position ((r.stream).position) ((r.stream).segments) ≡ some seg
    → Zero env before (read_segment env size (some seg) r)
unfolding read_segment read_size
read_size-Zero env before size seg r one fits found =
    let (lo, hi) = found_holds ((r.stream).position) ((r.stream).segments) seg found in
    let offset = (r.stream).position -ℤ seg.byte_offset in
    elim (Option-cases (compute_segment_read_size offset (seg.byte_size) size)) [
      | inl e ↦
          let refused =
            (compute_segment_read_size_lem offset (seg.byte_size) size (omega arith)).1 e in
          absurd (
            ground (
              arith,
              -ℤ_parts ((r.stream).position) (seg.byte_offset),
              +ℤ_parts (seg.byte_offset) (seg.byte_size),
            ))
      | inr (want, e) ↦
          let h =
            (compute_segment_read_size_lem offset (seg.byte_size) size (omega arith)).0 want e in
          subst (λ o. Zero env before (read_size env seg offset o r)) (sym e)
            (transfer-Zero env before seg offset want r h.1 (omega (arith, h.2)))
    ]

pub fetch-Zero :
    (env : Env) (before : Reader) (size : ℤ) (r : Reader) (gave_up : Bool)
    → pos 1 ≤ℤ size
    → size ≤ℤ pos 4294967295
    → (at_tail r ≡ true → gave_up ≡ false → MayEnd env before r)
    → Zero env before (fetch env size r gave_up)
unfolding fetch read_segment
fetch-Zero env before size r gave_up one fits ends =
    by_if (Zero env before) (at_tail r) _ _
      (λ here z. elim (Bool-cases gave_up) [
        | inl e ↦ absurd (not_zero 0 (sym (ap live_tail_give_up_result e) ∙ z))
        | inr e ↦ ends here e
      ])
      (λ e. of_search _ refl)
  where
    of_search :
        (o : Option Segment)
        → find_segment_containing_position ((r.stream).position) ((r.stream).segments) ≡ o
        → Zero env before (read_segment env size o r)
    of_search none e = handle_failure-Zero env before r
    of_search (some seg) e = read_size-Zero env before size seg r one fits e
