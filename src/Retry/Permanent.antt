-- ===== src/Retry/Permanent.antt =====
-- When reads that fail for good end a stream (`PermanentReadFailureTracker` of
-- src/SegmentFetchFailure.h).
use mathlib.Core.Bool.{false≢true}
use pvr_dispatcharr_unoffici.Prelude.{
  ℕ, zero, suc, ◌≤◌, ◌≡◌, refl, sym, ◌∙◌, ap, subst, true, false, Bool-cases, inl, inr, ◌⊎◌, ◌↔◌,
  List, [], ◌∷◌, leb, ◌&&◌, arith,
}
use pvr_dispatcharr_unoffici.Prelude.Int.{ℤ, ◌-ℤ◌, ◌≤ℤ◌, leb_ℤ}
use pvr_dispatcharr_unoffici.Retry.{
  ms, PermanentReadFailureTracker, new_failures, count_one, record_permanent_read_failure,
  reset_permanent_read_failures,
}

-- How a read ended: it failed for good, at a time, or it delivered bytes.
pub data ReadEnd : Type 0 where
  failed : ℤ → ReadEnd
  delivered : ReadEnd

-- The tracker along a sequence of reads, from a new one; the last read stands first.
abbrev pub tracker_after : List ReadEnd → PermanentReadFailureTracker
tracker_after [] = new_failures
tracker_after (failed now ∷ earlier) = (record_permanent_read_failure (tracker_after earlier) now).1
tracker_after (delivered ∷ earlier) = reset_permanent_read_failures (tracker_after earlier)

abbrev pub NoFailure : List ReadEnd → Type 0
NoFailure [] = Unit
NoFailure (failed now ∷ earlier) = ⊥
NoFailure (delivered ∷ earlier) = Unit

-- The last `count` reads failed, the first of them at the time `since`, and none just before them.
abbrev pub Streak : ℤ → ℕ → List ReadEnd → Type 0
Streak since count [] = ⊥
Streak since count (delivered ∷ earlier) = ⊥
Streak since zero (failed now ∷ earlier) = ⊥
Streak since (suc zero) (failed now ∷ earlier) = (now ≡ since) × NoFailure earlier
Streak since (suc (suc count)) (failed now ∷ earlier) = Streak since (suc count) earlier

-- A failure at `now` behind the reads `earlier` makes five in a row over three seconds.
abbrev pub Ends : ReadEnd → List ReadEnd → Type 0
Ends delivered earlier = ⊥
Ends (failed now) earlier =
    (since : ℤ) × (count : ℕ) × Streak since count (failed now ∷ earlier)
    × (5 ≤ count)
    × (ms 3000 ≤ℤ now -ℤ since)

-- Some read did so.
abbrev pub Ended : List ReadEnd → Type 0
Ended [] = ⊥
Ended (r ∷ earlier) = Ended earlier ⊎ Ends r earlier

abbrev Tracks : PermanentReadFailureTracker → List ReadEnd → Type 0
Tracks t reads = ((t.count ≡ 0) × NoFailure reads) ⊎ Streak (t.first_at) (t.count) reads

first_of_run :
    (t : PermanentReadFailureTracker) (now : ℤ) → t.count ≡ 0 → (count_one t now).first_at ≡ now
first_of_run t now e = rw e refl

later_in_run :
    (t : PermanentReadFailureTracker) (now : ℤ) (n : ℕ)
    → t.count ≡ suc n
    → (count_one t now).first_at ≡ t.first_at
later_in_run t now n e = ground arith

Streak-extends :
    (t : PermanentReadFailureTracker) (now : ℤ) (earlier : List ReadEnd) (n : ℕ)
    → t.count ≡ n
    → Streak (t.first_at) n earlier
    → Streak ((count_one t now).first_at) (suc n) (failed now ∷ earlier)
Streak-extends t now [] zero e h = absurd h
Streak-extends t now (failed at ∷ earlier) zero e h = absurd h
Streak-extends t now (delivered ∷ earlier) zero e h = absurd h
Streak-extends t now earlier (suc n) e h =
    subst (λ f. Streak f (suc (suc n)) (failed now ∷ earlier)) (sym (later_in_run t now n e)) h

count_one-Streak :
    (t : PermanentReadFailureTracker) (now : ℤ) (earlier : List ReadEnd)
    → Tracks t earlier
    → Streak ((count_one t now).first_at) ((count_one t now).count) (failed now ∷ earlier)
count_one-Streak t now earlier (inl (none_yet, h)) =
    rw none_yet (sym (first_of_run t now none_yet), h)
count_one-Streak t now earlier (inr s) = Streak-extends t now earlier (t.count) refl s

NoFailure-absurd :
    (reads : List ReadEnd) (since : ℤ) (n : ℕ) → NoFailure reads → Streak since (suc n) reads → ⊥
NoFailure-absurd [] since n h s = s
NoFailure-absurd (failed at ∷ reads) since n h s = h
NoFailure-absurd (delivered ∷ reads) since n h s = s

Streak-unique :
    (reads : List ReadEnd) (since later : ℤ) (count other : ℕ)
    → Streak since count reads
    → Streak later other reads
    → (since ≡ later) × (count ≡ other)
Streak-unique [] since later count other s o = absurd s
Streak-unique (delivered ∷ reads) since later count other s o = absurd s
Streak-unique (failed at ∷ reads) since later zero other s o = absurd s
Streak-unique (failed at ∷ reads) since later (suc n) zero s o = absurd o
Streak-unique (failed at ∷ reads) since later (suc zero) (suc zero) (e, h) (f, g) =
    (sym e ∙ f, refl)
Streak-unique (failed at ∷ reads) since later (suc zero) (suc (suc m)) (e, h) o =
    absurd (NoFailure-absurd reads later m h o)
Streak-unique (failed at ∷ reads) since later (suc (suc n)) (suc zero) s (f, g) =
    absurd (NoFailure-absurd reads since n g s)
Streak-unique (failed at ∷ reads) since later (suc (suc n)) (suc (suc m)) s o =
    let (e, c) = Streak-unique reads since later (suc n) (suc m) s o in (e, ap suc c)

stays_ended :
    (t : PermanentReadFailureTracker) (now : ℤ)
    → t.ended ≡ true
    → record_permanent_read_failure t now ≡ (true, t)
unfolding record_permanent_read_failure
stays_ended t now e = rw e refl

counts :
    (t : PermanentReadFailureTracker) (now : ℤ)
    → t.ended ≡ false
    → record_permanent_read_failure t now ≡ ((count_one t now).ended, count_one t now)
unfolding record_permanent_read_failure
counts t now e = rw e refl

ended-reset : (t : PermanentReadFailureTracker) → (reset_permanent_read_failures t).ended ≡ t.ended
unfolding reset_permanent_read_failures
ended-reset t = ground arith

reset-count :
    (t : PermanentReadFailureTracker)
    → t.ended ≡ false
    → (reset_permanent_read_failures t).count ≡ 0
unfolding reset_permanent_read_failures
reset-count t e = rw e refl

tracker_after-Tracks :
    (reads : List ReadEnd)
    → (tracker_after reads).ended ≡ false
    → Tracks (tracker_after reads) reads
tracker_after-Tracks [] h = inl (refl, tt)
tracker_after-Tracks (delivered ∷ earlier) h =
    inl (reset-count _ (sym (ended-reset (tracker_after earlier)) ∙ h), tt)
tracker_after-Tracks (failed now ∷ earlier) h = elim (Bool-cases ((tracker_after earlier).ended)) [
  | inl e ↦ absurd (false≢true (sym h ∙ ap (λ r. r.1.ended) (stays_ended _ now e) ∙ e))
  | inr e ↦
      subst (λ r. Tracks (r.1) (failed now ∷ earlier)) (sym (counts (tracker_after earlier) now e))
        (inr
          (count_one-Streak (tracker_after earlier) now earlier (tracker_after-Tracks earlier e)))
]

ends_test :
    (n : ℕ) (span : ℤ) → (leb 5 n && leb_ℤ (ms 3000) span ≡ true) ↔ ((5 ≤ n) × (ms 3000 ≤ℤ span))
ends_test n span = ground arith

-- One failure more, of a tracker that has not ended.
Ends-iff :
    (now : ℤ) (earlier : List ReadEnd)
    → (tracker_after earlier).ended ≡ false
    → ((count_one (tracker_after earlier) now).ended ≡ true) ↔ Ends (failed now) earlier
Ends-iff now earlier e =
    let t = count_one (tracker_after earlier) now in
    let streak =
      count_one-Streak (tracker_after earlier) now earlier (tracker_after-Tracks earlier e) in
    let (forth, back) = ends_test (t.count) (now -ℤ t.first_at) in
    (
      λ h. (t.first_at, t.count, streak, (forth h).0, (forth h).1),
      λ (since, count, s, many, span).
          let (at, n) =
            Streak-unique (failed now ∷ earlier) since (t.first_at) count (t.count) s streak in
          back (subst (λ m. 5 ≤ m) n many, subst (λ a. ms 3000 ≤ℤ now -ℤ a) at span),
    )

-- The tracker ends the stream exactly where some failure was at least the fifth in a row, three
-- seconds or more after the first of its run; and once ended it stays so.
pub ended_iff : (reads : List ReadEnd) → ((tracker_after reads).ended ≡ true) ↔ Ended reads
ended_iff [] = (λ h. false≢true h, λ h. absurd h)
ended_iff (delivered ∷ earlier) =
    let keeps = ended-reset (tracker_after earlier) in
    let (forth, back) = ended_iff earlier in
    (
      λ h. inl (forth (sym keeps ∙ h)),
      λ h. elim h [ inl past ↦ keeps ∙ back past | inr none_ends ↦ absurd none_ends ],
    )
ended_iff (failed now ∷ earlier) =
    let (forth, back) = ended_iff earlier in
    elim (Bool-cases ((tracker_after earlier).ended)) [
      | inl e ↦ (
        λ h. inl (forth e),
        λ h. ap (λ r. r.1.ended) (stays_ended (tracker_after earlier) now e) ∙ e,
      )
      | inr e ↦
          let step = ap (λ r. r.1.ended) (counts (tracker_after earlier) now e) in
          (
            λ h. inr ((Ends-iff now earlier e).0 (sym step ∙ h)),
            λ h. elim h [
              | inl past ↦ absurd (false≢true (sym e ∙ back past))
              | inr ends ↦ step ∙ (Ends-iff now earlier e).1 ends
            ],
          )
    ]
