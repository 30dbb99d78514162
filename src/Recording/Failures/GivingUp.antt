-- ===== src/Recording/Failures/GivingUp.antt =====
-- That a segment which goes on failing is given up (src/UnprobeableSegment.cpp).
use pvr_dispatcharr_unoffici.Prelude.{
  ℕ, suc, ◌+◌, ◌-◌, ◌≤◌, ◌≡◌, refl, sym, ◌∙◌, ap, ap₂, true, false, ◌&&◌, Bool-cases, inl, inr,
  List, [], ◌∷◌, Bytes, length, bytes_eq_iff, is_empty, leb, arith, ◌⊎◌,
}
use pvr_dispatcharr_unoffici.Recording.{
  Tracker, new_tracker, give_up, min_failures, min_wait, count_failure, decide_give_up,
}
use pvr_dispatcharr_unoffici.Recording.Failures.{
  Report, update, tracker_after, FailedFor, update_failed,
}

-- Some report of the sequence made the call give up.
abbrev pub GivesUp : List Report → Type 0
GivesUp [] = ⊥
GivesUp (r ∷ earlier) = ((update (tracker_after earlier) r).0 ≡ give_up) ⊎ GivesUp earlier

keeps_or_gives_up :
    (tracker : Tracker) (now : ℕ)
    → ((decide_give_up tracker now).0 ≡ give_up) ⊎ ((decide_give_up tracker now).1 ≡ tracker)
keeps_or_gives_up tracker now =
    elim (Bool-cases (
      leb min_failures (tracker.consecutive_failures)
      && leb min_wait (now - tracker.first_failed_at))) [
        | inl both ↦ rw both (inl refl)
        | inr waits ↦ rw waits (inr refl)
      ]

update_keeps_or_gives_up :
    (tracker counted : Tracker) (r : Report)
    → is_empty (r.leading) ≡ false
    → r.failed ≡ true
    → count_failure tracker (r.leading) (r.at) ≡ counted
    → ((update tracker r).0 ≡ give_up) ⊎ ((update tracker r).1 ≡ counted)
update_keeps_or_gives_up tracker counted r n f e =
    let u = update_failed tracker r (ground arith) ∙ ap (λ z. decide_give_up z (r.at)) e in
    elim (keeps_or_gives_up counted (r.at)) [
      | inl g ↦ inl (ap (λ z. z.0) u ∙ g)
      | inr k ↦ inr (ap (λ z. z.1) u ∙ k)
    ]

count_first :
    (leading : Bytes) (now : ℕ)
    → is_empty leading ≡ false
    → count_failure new_tracker leading now
      ≡ record { url = leading; consecutive_failures = 1; first_failed_at = now }
count_first [] now n = ground arith
count_first (x ∷ leading) now n = refl

count_next :
    (url leading : Bytes) (since count now : ℕ)
    → leading ≡ url
    → count_failure
        (record { url = url; consecutive_failures = count; first_failed_at = since })
        leading
        now
      ≡ record { url = url; consecutive_failures = suc count; first_failed_at = since }
count_next url leading since count now e =
    let same = (bytes_eq_iff url leading).1 (sym e) in
    let more : count + 1 ≡ suc count = omega arith in rw (same, more) refl

-- The tracker along a run of failures that is not given up.
run_tracker :
    (url : Bytes) (since : ℕ) (reports : List Report)
    → is_empty url ≡ false
    → FailedFor url since (length reports) reports
    → GivesUp reports
      ⊎ (tracker_after reports
          ≡ record { url = url; consecutive_failures = length reports; first_failed_at = since })
run_tracker url since [] n h = absurd h
run_tracker url since (r ∷ []) n (l, f, a) =
    let first =
      count_first (r.leading) (r.at) (ap is_empty l ∙ n)
      ∙ ap₂ (λ u t. record { url = u; consecutive_failures = 1; first_failed_at = t }) l a in
    elim (update_keeps_or_gives_up new_tracker _ r (ap is_empty l ∙ n) f first) [
      | inl g ↦ inl (inl g)
      | inr k ↦ inr k
    ]
run_tracker url since (r ∷ q ∷ earlier) n (l, f, h) =
    elim (run_tracker url since (q ∷ earlier) n h) [
      | inl g ↦ inl (inr g)
      | inr e ↦
          let next =
            ap (λ z. count_failure z (r.leading) (r.at)) e
            ∙ count_next url (r.leading) since (length (q ∷ earlier)) (r.at) l in
          elim (update_keeps_or_gives_up (tracker_after (q ∷ earlier)) _ r (ap is_empty l ∙ n) f
            next) [ inl g ↦ inl (inl g) | inr k ↦ inr k ]
    ]

at_thresholds :
    (url : Bytes) (since count now : ℕ)
    → 5 ≤ count
    → since + 30000 ≤ now
    → (decide_give_up
        (record { url = url; consecutive_failures = count; first_failed_at = since })
        now).0
      ≡ give_up
at_thresholds url since count now c w =
    let both : (leb min_failures count && leb min_wait (now - since)) ≡ true = ground arith in
    rw both refl

-- A segment that goes on failing does not hold the merge up for ever: if it leads from the first
-- refresh on and fails in each, then once there are five refreshes and more, and 30 seconds lie
-- between the first and the last, it has been given up in one of them.
pub FailedFor-GivesUp :
    (url : Bytes) (since : ℕ) (r : Report) (earlier : List Report)
    → is_empty url ≡ false
    → FailedFor url since (length (r ∷ earlier)) (r ∷ earlier)
    → 5 ≤ length (r ∷ earlier)
    → since + 30000 ≤ r.at
    → GivesUp (r ∷ earlier)
FailedFor-GivesUp url since r [] n h c w = absurd (omega (arith, c))
FailedFor-GivesUp url since r (q ∷ earlier) n (l, f, h) c w =
    elim (run_tracker url since (q ∷ earlier) n h) [
      | inl g ↦ inr g
      | inr e ↦
          let empty = ap is_empty l ∙ n in
          inl (
            ap (λ z. z.0)
              (update_failed (tracker_after (q ∷ earlier)) r (ground arith)
                ∙ ap (λ z. decide_give_up z (r.at))
                    (ap (λ z. count_failure z (r.leading) (r.at)) e
                      ∙ count_next url (r.leading) since (length (q ∷ earlier)) (r.at) l))
            ∙ at_thresholds url since (length (r ∷ q ∷ earlier)) (r.at) c w)
    ]
