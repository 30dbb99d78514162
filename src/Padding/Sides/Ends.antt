-- ===== src/Padding/Sides/Ends.antt =====
-- What the end of a push keeps of a side.
use mathlib.Core.Bool.{false≢true}
use pvr_dispatcharr_unoffici.Prelude.{
  ℕ, ◌==◌, leb, ltb, ◌≤◌, ◌≡◌, refl, sym, ◌∙◌, subst, Bool, true, false, ◌&&◌, Option, none, some,
  List, ◌∷◌, ◌++◌, All, inl, inr, by_if, if◌then◌else◌, arith,
}
use pvr_dispatcharr_unoffici.Prelude.Int.{ℤ}
use pvr_dispatcharr_unoffici.Padding.{
  PaddingEdit, Side, park_newest, newest_with, clear_up_to, apply_result, is_some,
}
use pvr_dispatcharr_unoffici.Padding.Pushes.{
  Flight, Landing, succeeds, fails_landed, fails_lost, is_ok, stored,
}
use pvr_dispatcharr_unoffici.Padding.Sides.{
  All-without, FlightKnown, IsKept, Known, NewestCovered, ParkedKnown, StaysParked,
}

abbrev pub side : Option ℤ → ℕ → PaddingEdit → Side
side parked parked_seq n = record { parked = parked; parked_seq = parked_seq; newest = some n }

-- Whatever the server holds, parking the newest edit keeps it.
pub parked-IsKept :
    (b : Bool) (p : Option ℤ) (q : ℕ) (n : PaddingEdit) (next_seq : ℕ) (server : ℤ)
    (waiting : List Flight) (retried : Option PaddingEdit) (given_up : ℕ)
    → n.seq ≤ next_seq
    → All (FlightKnown b (some n)) waiting
    → StaysParked retried (some n) p q
    → IsKept b (park_newest (side p q n)) next_seq server waiting retried given_up
unfolding park_newest
parked-IsKept b p q n next_seq server waiting retried given_up le known chosen = record {
  parked_known = (omega arith, λ h. refl);
  waiting_known = known;
  stays_parked = stays retried chosen;
  newest_covered = (le, inr (inl (refl, refl)));
}
  where
    stays :
        (e : Option PaddingEdit)
        → StaysParked e (some n) p q
        → StaysParked e (some n) (some (n.value)) (n.seq)
    stays none h = tt
    stays (some e) (parked, older, same) = (refl, older, λ eq. ((same eq).0, (refl, refl)))

-- Where the server holds the newest edit, nothing need be parked.
pub cleared-IsKept :
    (b : Bool) (p : Option ℤ) (q : ℕ) (n : PaddingEdit) (next_seq : ℕ) (server : ℤ)
    (waiting : List Flight) (given_up : ℕ)
    → server ≡ n.value
    → p ≡ none
    → n.seq ≤ next_seq
    → ParkedKnown (some n) p q
    → All (FlightKnown b (some n)) waiting
    → IsKept b (side p q n) next_seq server waiting none given_up
cleared-IsKept b p q n next_seq server waiting given_up same unparked le parked known = record {
  parked_known = parked;
  waiting_known = known;
  stays_parked = tt;
  newest_covered = (le, inl (same, unparked));
}

-- Nothing newer than the newest edit is parked.
newest-unparked :
    (p : Option ℤ) (q m : ℕ) (n : PaddingEdit)
    → m ≡ n.seq
    → ParkedKnown (some n) p q
    → is_some p && leb q m ≡ false
    → p ≡ none
newest-unparked none q m n eq parked h = refl
newest-unparked (some v) q m n eq (older, _) h = absurd (ground arith)

newest_with_older : (e n : PaddingEdit) → e.seq ≤ n.seq → newest_with e (some n) ≡ n
newest_with_older e n older =
    by_if (λ (y : PaddingEdit). y ≡ n) (ltb (n.seq) (e.seq)) e n (λ h. absurd (ground arith))
      (λ h. refl)

-- The end of a push of this side: either the server holds the newest edit, or it is parked.
result-IsKept :
    (b ok : Bool) (p : Option ℤ) (q : ℕ) (n e : PaddingEdit) (next_seq : ℕ) (server : ℤ)
    (waiting : List Flight) (given_up : ℕ)
    → e.seq ≤ n.seq
    → (e.seq ≡ n.seq → e.value ≡ n.value)
    → (ok ≡ true → server ≡ e.value)
    → n.seq ≤ next_seq
    → ParkedKnown (some n) p q
    → All (FlightKnown b (some n)) waiting
    → IsKept b (apply_result e ok (side p q n)) next_seq server waiting none given_up
unfolding apply_result
result-IsKept b ok p q n e next_seq server waiting given_up older same landed le parked known =
    let kept = λ (y : Side). IsKept b y next_seq server waiting none given_up in
    let m = newest_with e (some n) in
    let m_is = newest_with_older e n older in
    subst
      (λ m'. kept (
        if ok && e.seq == m'.seq
        then clear_up_to (e.seq) (side p q m')
        else park_newest (side p q m')))
      (sym m_is)
      (by_if kept (ok && e.seq == n.seq) _ _
        (λ h.
          let (was_ok, eq) = both ok (e.seq == n.seq) h in
          by_if kept (is_some p && leb q (e.seq)) _ _
            (λ c.
              cleared-IsKept b none q n next_seq server waiting given_up
                (landed was_ok ∙ same (ground arith)) refl le tt known)
            (λ c.
              cleared-IsKept b p q n next_seq server waiting given_up
                (landed was_ok ∙ same (ground arith))
                (newest-unparked p q (e.seq) n (ground arith) parked c) le parked known))
        (λ h. parked-IsKept b p q n next_seq server waiting none given_up le known tt))
  where
    both : (s t : Bool) → s && t ≡ true → (s ≡ true) × (t ≡ true)
    both s t h = (ground arith, ground arith)

-- A push of this side that an exception has ended is reported as failed, also while a retry runs.
pub report-IsKept :
    (b : Bool) (x : Side) (before later : List Flight) (e : PaddingEdit) (thrown : Bool)
    (next_seq : ℕ) (server : ℤ) (retried : Option PaddingEdit) (given_up : ℕ)
    → IsKept b x next_seq server
        (before ++ record { is_pre = b; edit = e; thrown = thrown } ∷ later)
        retried
        given_up
    → IsKept b (apply_result e false x) next_seq server (before ++ later) retried given_up
unfolding apply_result
report-IsKept b x before later e thrown next_seq server retried given_up k =
    let (known, rest) = All-without _ before later _ (k.waiting_known) in
    with_newest (x.newest) (known refl) (k.stays_parked) rest (k.newest_covered)
  where
    with_newest :
        (newest : Option PaddingEdit)
        → Known newest (e.value) (e.seq)
        → StaysParked retried newest (x.parked) (x.parked_seq)
        → All (FlightKnown b newest) (before ++ later)
        → NewestCovered b x newest next_seq server
            (before ++ record { is_pre = b; edit = e; thrown = thrown } ∷ later)
            given_up
        → IsKept b
            (apply_result e false (record x { newest = newest }))
            next_seq
            server
            (before ++ later)
            retried
            given_up
    with_newest none known stays rest covered = absurd known
    with_newest (some n) (older, same) stays rest (le, covered) =
        subst
          (λ m.
            IsKept b (park_newest (side (x.parked) (x.parked_seq) m)) next_seq server
              (before ++ later) retried given_up)
          (sym (newest_with_older e n older))
          (parked-IsKept b (x.parked) (x.parked_seq) n next_seq server (before ++ later) retried
            given_up le rest stays)

pub push-IsKept :
    (b : Bool) (x : Side) (before later : List Flight) (e : PaddingEdit) (thrown : Bool)
    (how : Landing) (next_seq : ℕ) (server : ℤ) (given_up : ℕ)
    → IsKept b x next_seq server
        (before ++ record { is_pre = b; edit = e; thrown = thrown } ∷ later)
        none
        given_up
    → IsKept b
        (apply_result e (is_ok how) x)
        next_seq
        (stored (some e) how server)
        (before ++ later)
        none
        given_up
push-IsKept b x before later e thrown how next_seq server given_up k =
    let (known, rest) = All-without _ before later _ (k.waiting_known) in
    with_newest (x.parked) (x.parked_seq) (x.newest) (known refl) (k.parked_known) rest
      (k.newest_covered)
  where
    ok_lands : (how : Landing) (s : ℤ) → is_ok how ≡ true → stored (some e) how s ≡ e.value
    ok_lands succeeds s h = refl
    ok_lands fails_landed s h = refl
    ok_lands fails_lost s h = absurd (false≢true h)

    with_newest :
        (p : Option ℤ) (q : ℕ) (newest : Option PaddingEdit)
        → Known newest (e.value) (e.seq)
        → ParkedKnown newest p q
        → All (FlightKnown b newest) (before ++ later)
        → NewestCovered b x newest next_seq server
            (before ++ record { is_pre = b; edit = e; thrown = thrown } ∷ later)
            given_up
        → IsKept b
            (apply_result e (is_ok how) (record { parked = p; parked_seq = q; newest = newest }))
            next_seq
            (stored (some e) how server)
            (before ++ later)
            none
            given_up
    with_newest p q none known parked rest covered = absurd known
    with_newest p q (some n) (older, same) parked rest (le, covered) =
        result-IsKept b (is_ok how) p q n e next_seq _ (before ++ later) given_up older same
          (ok_lands how server) le parked rest
