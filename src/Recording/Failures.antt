-- ===== src/Recording/Failures.antt =====
-- When a segment that cannot be sized is given up (src/UnprobeableSegment.cpp).
pub mod GivingUp
use pvr_dispatcharr_unoffici.Prelude.{
  ℕ, zero, suc, ◌+◌, ◌-◌, ◌≤◌, ◌≡◌, ◌≢◌, refl, sym, ◌∙◌, ap, ap₂, subst, Bool, true, false, not,
  ◌&&◌, ◌||◌, Bool-cases, inl, inr, List, [], ◌∷◌, Bytes, length, bytes_eq, bytes_eq_iff,
  eq_of-bytes_eq, is_empty, leb, arith, ◌⊎◌,
}
use pvr_dispatcharr_unoffici.Recording.{
  Tracker, new_tracker, UnprobeableSegmentAction, keep_retrying, give_up, min_failures, min_wait,
  count_failure, decide_give_up, update_unprobeable_segment_tracker,
}

abbrev IsGiveUp : UnprobeableSegmentAction → Type 0
IsGiveUp give_up = Unit
IsGiveUp keep_retrying = ⊥

no_give_up : keep_retrying ≢ give_up
no_give_up e = subst IsGiveUp (sym e) tt

-- What one refresh reports of the leading segment.
pub record Report : Type 0 where
  pub leading : Bytes
  pub failed : Bool
  pub at : ℕ

abbrev pub update : Tracker → Report → UnprobeableSegmentAction × Tracker
update tracker r = update_unprobeable_segment_tracker tracker (r.leading) (r.failed) (r.at)

-- The trackers along a sequence of reports, from a new one; the last report stands first.
abbrev pub tracker_after : List Report → Tracker
tracker_after [] = new_tracker
tracker_after (r ∷ earlier) = (update (tracker_after earlier) r).1

-- The last `count` reports are failures of `url`, the first of them at the time `since`.
abbrev pub FailedFor : Bytes → ℕ → ℕ → List Report → Type 0
FailedFor url since zero reports = ⊥
FailedFor url since (suc count) [] = ⊥
FailedFor url since (suc zero) (r ∷ earlier) =
    (r.leading ≡ url) × (r.failed ≡ true) × (r.at ≡ since)
FailedFor url since (suc (suc count)) (r ∷ earlier) =
    (r.leading ≡ url) × (r.failed ≡ true) × FailedFor url since (suc count) earlier

-- What a tracker knows of the reports before it.
abbrev Tracks : Tracker → List Report → Type 0
Tracks tracker reports =
    (tracker ≡ new_tracker)
    ⊎ FailedFor (tracker.url) (tracker.first_failed_at) (tracker.consecutive_failures) reports

-- A run of failures, one longer.
extend-FailedFor :
    (count : ℕ) (url : Bytes) (since : ℕ) (r : Report) (reports : List Report)
    → r.leading ≡ url
    → r.failed ≡ true
    → FailedFor url since count reports
    → FailedFor url since (suc count) (r ∷ reports)
extend-FailedFor zero url since r reports l f h = absurd h
extend-FailedFor (suc count) url since r reports l f h = (l, f, h)

count_failure-FailedFor :
    (tracker : Tracker) (r : Report) (reports : List Report)
    → r.failed ≡ true
    → is_empty (r.leading) ≡ false
    → Tracks tracker reports
    → FailedFor
        ((count_failure tracker (r.leading) (r.at)).url)
        ((count_failure tracker (r.leading) (r.at)).first_failed_at)
        ((count_failure tracker (r.leading) (r.at)).consecutive_failures)
        (r ∷ reports)
count_failure-FailedFor tracker r reports f n t =
    elim (Bool-cases (bytes_eq (tracker.url) (r.leading))) [
      | inl same ↦
          let e = eq_of-bytes_eq (tracker.url) (r.leading) same in
          let more : suc (tracker.consecutive_failures) ≡ tracker.consecutive_failures + 1 =
            omega arith in
          elim t [
            | inl new ↦
                let none_there : is_empty (r.leading) ≡ true =
                  ap is_empty (sym e ∙ ap (λ z. z.url) new) in
                ground arith
            | inr run ↦ rw same (
                subst (λ k. FailedFor (tracker.url) (tracker.first_failed_at) k (r ∷ reports)) more
                  (extend-FailedFor (tracker.consecutive_failures) (tracker.url)
                    (tracker.first_failed_at) r reports (sym e) f run))
          ]
      | inr other ↦ rw other (refl, f, refl)
    ]

count_failure-url :
    (tracker : Tracker) (leading : Bytes) (now : ℕ)
    → (count_failure tracker leading now).url ≡ leading
count_failure-url tracker leading now = elim (Bool-cases (bytes_eq (tracker.url) leading)) [
  | inl same ↦ rw same (eq_of-bytes_eq (tracker.url) leading same)
  | inr other ↦ rw other refl
]

decide_give_up-Tracks :
    (tracker : Tracker) (now : ℕ) (reports : List Report)
    → FailedFor (tracker.url) (tracker.first_failed_at) (tracker.consecutive_failures) reports
    → Tracks ((decide_give_up tracker now).1) reports
decide_give_up-Tracks tracker now reports h =
    elim (Bool-cases (
      leb min_failures (tracker.consecutive_failures)
      && leb min_wait (now - tracker.first_failed_at))) [
        | inl both ↦ rw both (inl refl)
        | inr waits ↦ rw waits (inr h)
      ]

update_answered :
    (tracker : Tracker) (r : Report)
    → (is_empty (r.leading) || not (r.failed)) ≡ true
    → update tracker r ≡ (keep_retrying, new_tracker)
unfolding update_unprobeable_segment_tracker
update_answered tracker r h = rw h refl

update_failed :
    (tracker : Tracker) (r : Report)
    → (is_empty (r.leading) || not (r.failed)) ≡ false
    → update tracker r ≡ decide_give_up (count_failure tracker (r.leading) (r.at)) (r.at)
unfolding update_unprobeable_segment_tracker
update_failed tracker r h = rw h refl

tracker_after-Tracks : (reports : List Report) → Tracks (tracker_after reports) reports
tracker_after-Tracks [] = inl refl
tracker_after-Tracks (r ∷ earlier) =
    let tracker = tracker_after earlier in
    elim (Bool-cases (is_empty (r.leading) || not (r.failed))) [
      | inl answered ↦ inl (ap (λ z. z.1) (update_answered tracker r answered))
      | inr failure ↦
          subst (λ z. Tracks z (r ∷ earlier))
            (sym (ap (λ z. z.1) (update_failed tracker r failure)))
            (decide_give_up-Tracks (count_failure tracker (r.leading) (r.at)) (r.at) (r ∷ earlier) (
              count_failure-FailedFor tracker r earlier (ground arith) (ground arith)
                (tracker_after-Tracks earlier)))
    ]

decide_give_up_thresholds :
    (tracker : Tracker) (now : ℕ)
    → (decide_give_up tracker now).0 ≡ give_up
    → (5 ≤ tracker.consecutive_failures) × (tracker.first_failed_at + 30000 ≤ now)
decide_give_up_thresholds tracker now g =
    elim (Bool-cases (
      leb min_failures (tracker.consecutive_failures)
      && leb min_wait (now - tracker.first_failed_at))) [
        | inl both ↦ ground arith
        | inr waits ↦ absurd (no_give_up (sym (rw waits refl) ∙ g))
      ]

-- A leading segment is given up only after five failures of it in a row at least, over 30 seconds
-- at least: with no answered refresh and no other leading segment among them.
pub give_up-FailedFor :
    (r : Report) (earlier : List Report)
    → (update (tracker_after earlier) r).0 ≡ give_up
    → (count : ℕ) × (since : ℕ) × (5 ≤ count)
      × (since + 30000 ≤ r.at)
      × FailedFor (r.leading) since count (r ∷ earlier)
give_up-FailedFor r earlier g =
    let tracker = tracker_after earlier in
    let counted = count_failure tracker (r.leading) (r.at) in
    elim (Bool-cases (is_empty (r.leading) || not (r.failed))) [
      | inl answered ↦
          absurd (no_give_up (sym (ap (λ z. z.0) (update_answered tracker r answered)) ∙ g))
      | inr failure ↦
          let (enough, waited) =
            decide_give_up_thresholds counted (r.at)
              (sym (ap (λ z. z.0) (update_failed tracker r failure)) ∙ g) in
          (
            counted.consecutive_failures,
            counted.first_failed_at,
            enough,
            waited,
            subst
                (λ u.
                  FailedFor u (counted.first_failed_at) (counted.consecutive_failures)
                    (r ∷ earlier))
                (count_failure-url tracker (r.leading) (r.at))
                (count_failure-FailedFor tracker r earlier (ground arith) (ground arith)
                  (tracker_after-Tracks earlier)),
          )
    ]
