-- ===== src/Padding/Sides/Retries.antt =====
-- What the start, the end and the giving up of a retry keep of a side.
use mathlib.Core.Bool.{false≢true}
use pvr_dispatcharr_unoffici.Prelude.{
  ℕ, ◌==◌, ◌≤◌, ◌≡◌, refl, sym, ◌∙◌, ap, Bool, true, not, ◌&&◌, Option, none, some, List, All, inl,
  inr, by_if, arith,
}
use pvr_dispatcharr_unoffici.Prelude.Int.{ℤ}
use pvr_dispatcharr_unoffici.Padding.{PaddingEdit, Side, parked_edit, settle_side, is_some}
use pvr_dispatcharr_unoffici.Padding.Pushes.{
  Flight, Landing, succeeds, fails_landed, fails_lost, is_ok, stored,
}
use pvr_dispatcharr_unoffici.Padding.Sides.{
  FlightKnown, IsKept, NewestCovered, ParkedKnown, StaysParked,
}
use pvr_dispatcharr_unoffici.Padding.Sides.Ends.{side, parked-IsKept, cleared-IsKept}

pub began-IsKept :
    (b : Bool) (x : Side) (next_seq : ℕ) (server : ℤ) (waiting : List Flight) (given_up : ℕ)
    → IsKept b x next_seq server waiting none given_up
    → IsKept b x next_seq server waiting (parked_edit x) given_up
began-IsKept b x next_seq server waiting given_up k = record {
  parked_known = k.parked_known;
  waiting_known = k.waiting_known;
  stays_parked = stays (x.parked) (x.newest) (k.parked_known);
  newest_covered = k.newest_covered;
}
  where
    stays :
        (p : Option ℤ) (newest : Option PaddingEdit)
        → ParkedKnown newest p (x.parked_seq)
        → StaysParked
            (parked_edit (record { parked = p; parked_seq = x.parked_seq; newest = newest }))
            newest
            p
            (x.parked_seq)
    stays none newest h = tt
    stays (some v) none h = absurd h
    stays (some v) (some n) (older, same) = (refl, older, λ eq. (same eq, (ap some (same eq), eq)))

-- The end of a retry that sent this side's edit `e`.
settled-IsKept :
    (b ok : Bool) (p : Option ℤ) (q : ℕ) (n e : PaddingEdit) (next_seq : ℕ) (server : ℤ)
    (waiting : List Flight) (given_up : ℕ)
    → StaysParked (some e) (some n) p q
    → (ok ≡ true → server ≡ e.value)
    → n.seq ≤ next_seq
    → ParkedKnown (some n) p q
    → All (FlightKnown b (some n)) waiting
    → IsKept b (settle_side (some e) ok (side p q n)) next_seq server waiting none given_up
unfolding settle_side
settled-IsKept b ok p q n e next_seq server waiting given_up (is_p, older, same) landed le parked
      known =
    let kept = λ (y : Side). IsKept b y next_seq server waiting none given_up in
    by_if kept (ok && n.seq == e.seq) _ _
      (λ h.
        let (was_ok, eq) = both ok (n.seq == e.seq) h in
        let (value, (at, number)) = same (ground arith) in
        by_if kept (is_some p && q == e.seq) _ _
          (λ c.
            cleared-IsKept b none q n next_seq server waiting given_up (landed was_ok ∙ value) refl
              le tt known)
          (λ c. absurd (ground arith)))
      (λ h.
        by_if kept (not (n.seq == e.seq)) _ _
          (λ newer. parked-IsKept b p q n next_seq server waiting none given_up le known tt)
          (λ newest. record {
            parked_known = parked;
            waiting_known = known;
            stays_parked = tt;
            newest_covered = (le, inr (inl ((same (ground arith)).1)));
          }))
  where
    both : (s t : Bool) → s && t ≡ true → (s ≡ true) × (t ≡ true)
    both s t h = (ground arith, ground arith)

pub settle-IsKept :
    (b : Bool) (x : Side) (retried : Option PaddingEdit) (how : Landing) (next_seq : ℕ) (server : ℤ)
    (waiting : List Flight) (given_up : ℕ)
    → IsKept b x next_seq server waiting retried given_up
    → IsKept b
        (settle_side retried (is_ok how) x)
        next_seq
        (stored retried how server)
        waiting
        none
        given_up
unfolding settle_side
settle-IsKept b x none how next_seq server waiting given_up k = record {
  parked_known = k.parked_known;
  waiting_known = k.waiting_known;
  stays_parked = tt;
  newest_covered = k.newest_covered;
}
settle-IsKept b x (some e) how next_seq server waiting given_up k =
    with_newest (x.parked) (x.parked_seq) (x.newest) (k.stays_parked) (k.parked_known)
      (k.waiting_known) (k.newest_covered)
  where
    ok_lands : (how : Landing) (s : ℤ) → is_ok how ≡ true → stored (some e) how s ≡ e.value
    ok_lands succeeds s h = refl
    ok_lands fails_landed s h = refl
    ok_lands fails_lost s h = absurd (false≢true h)

    with_newest :
        (p : Option ℤ) (q : ℕ) (newest : Option PaddingEdit)
        → StaysParked (some e) newest p q
        → ParkedKnown newest p q
        → All (FlightKnown b newest) waiting
        → NewestCovered b x newest next_seq server waiting given_up
        → IsKept b
            (settle_side
              (some e)
              (is_ok how)
              (record { parked = p; parked_seq = q; newest = newest }))
            next_seq
            (stored (some e) how server)
            waiting
            none
            given_up
    with_newest p q none stays parked known covered = absurd stays
    with_newest p q (some n) stays parked known (le, covered) =
        settled-IsKept b (is_ok how) p q n e next_seq _ waiting given_up stays (ok_lands how server)
          le parked known

-- A retry that an exception ends, its edit stored or not, leaves what was parked.
pub retry_threw-IsKept :
    (b : Bool) (x : Side) (retried : Option PaddingEdit) (how : Landing) (next_seq : ℕ) (server : ℤ)
    (waiting : List Flight) (given_up : ℕ)
    → IsKept b x next_seq server waiting retried given_up
    → IsKept b x next_seq (stored retried how server) waiting none given_up
retry_threw-IsKept b x none how next_seq server waiting given_up k = record {
  parked_known = k.parked_known;
  waiting_known = k.waiting_known;
  stays_parked = tt;
  newest_covered = k.newest_covered;
}
retry_threw-IsKept b x (some e) how next_seq server waiting given_up k = record {
  parked_known = k.parked_known;
  waiting_known = k.waiting_known;
  stays_parked = tt;
  newest_covered = covered (x.newest) (k.stays_parked) (k.newest_covered);
}
  where
    covered :
        (newest : Option PaddingEdit)
        → StaysParked (some e) newest (x.parked) (x.parked_seq)
        → NewestCovered b x newest next_seq server waiting given_up
        → NewestCovered b x newest next_seq (stored (some e) how server) waiting given_up
    covered none stays h = tt
    covered (some n) (parked, older, same) (le, inl (_, unparked)) =
        absurd (false≢true (sym (ap is_some unparked) ∙ parked))
    covered (some n) stays (le, inr h) = (le, inr h)

-- A retry that gives up.
pub given_up-IsKept :
    (b : Bool) (x : Side) (next_seq : ℕ) (server : ℤ) (waiting : List Flight) (given_up : ℕ)
    → IsKept b x next_seq server waiting none given_up
    → IsKept b (record x { parked = none }) next_seq server waiting none next_seq
given_up-IsKept b x next_seq server waiting given_up k = record {
  parked_known = tt;
  waiting_known = k.waiting_known;
  stays_parked = tt;
  newest_covered = covered (x.newest) (k.newest_covered);
}
  where
    covered :
        (newest : Option PaddingEdit)
        → NewestCovered b x newest next_seq server waiting given_up
        → NewestCovered b (record x { parked = none }) newest next_seq server waiting next_seq
    covered none h = tt
    covered (some n) (le, h) = (le, inr (inr (inr le)))
