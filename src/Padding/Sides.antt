-- ===== src/Padding/Sides.antt =====
-- What the steps keep of one side: the newest edit is at the server, parked, to be pushed or
-- reported, or given up.
pub mod Ends
pub mod Retries
use mathlib.Core.Bool.{false≢true}
use pvr_dispatcharr_unoffici.Prelude.{
  ℕ, suc, ◌==◌, leb, ltb, ◌≤◌, ◌≡◌, ◌≢◌, refl, sym, ◌∙◌, ap, subst, Bool, true, false, not, ◌&&◌,
  Option, none, some, List, [], ◌∷◌, ◌++◌, All, ◌⊎◌, inl, inr, by_if, if◌then◌else◌, arith,
}
use pvr_dispatcharr_unoffici.Prelude.Int.{ℤ}
use pvr_dispatcharr_unoffici.Padding.{
  PaddingEdit, Side, park_newest, newest_with, clear_up_to, apply_result, parked_edit, settle_side,
  is_some,
}
use pvr_dispatcharr_unoffici.Padding.Pushes.{
  Flight, Landing, succeeds, fails_landed, fails_lost, is_ok, stored,
}

-- An edit of the side: not newer than the newest, and the newest itself if it has its number.
abbrev pub Known : Option PaddingEdit → ℤ → ℕ → Type 0
Known none value seq = ⊥
Known (some n) value seq = (seq ≤ n.seq) × (seq ≡ n.seq → value ≡ n.value)

abbrev pub ParkedKnown : Option PaddingEdit → Option ℤ → ℕ → Type 0
ParkedKnown newest none seq = Unit
ParkedKnown newest (some v) seq = Known newest v seq

abbrev pub FlightKnown : Bool → Option PaddingEdit → Flight → Type 0
FlightKnown b newest f = f.is_pre ≡ b → Known newest ((f.edit).value) ((f.edit).seq)

abbrev pub IsParked : Option ℤ → ℕ → PaddingEdit → Type 0
IsParked parked parked_seq n = (parked ≡ some (n.value)) × (parked_seq ≡ n.seq)

-- Something stays parked while a retry runs, and what the retry has chosen as long as it is the newest.
abbrev pub StaysParked : Option PaddingEdit → Option PaddingEdit → Option ℤ → ℕ → Type 0
StaysParked none newest parked parked_seq = Unit
StaysParked (some e) none parked parked_seq = ⊥
StaysParked (some e) (some n) parked parked_seq =
    (is_some parked ≡ true)
    × (e.seq ≤ n.seq)
    × (e.seq ≡ n.seq → (e.value ≡ n.value) × IsParked parked parked_seq n)

-- The flight will have the side's edit `seq` parked or stored when it ends: it is its own, or the
-- failure that it will report parks the newest.
abbrev pub Carries : Bool → ℕ → Flight → Type 0
Carries b seq f = (f.is_pre ≡ b) × (((f.edit).seq ≡ seq) ⊎ (f.thrown ≡ true))

abbrev pub Waits : Bool → ℕ → List Flight → Type 0
Waits b seq [] = ⊥
Waits b seq (f ∷ waiting) = Carries b seq f ⊎ Waits b seq waiting

abbrev pub Covered : Bool → Side → PaddingEdit → ℤ → List Flight → ℕ → Type 0
Covered b x n server waiting given_up =
    ((server ≡ n.value) × (x.parked ≡ none))
    ⊎ (IsParked (x.parked) (x.parked_seq) n ⊎ (Waits b (n.seq) waiting ⊎ (n.seq ≤ given_up)))

abbrev pub NewestCovered : Bool → Side → Option PaddingEdit → ℕ → ℤ → List Flight → ℕ → Type 0
NewestCovered b x none next_seq server waiting given_up = Unit
NewestCovered b x (some n) next_seq server waiting given_up =
    (n.seq ≤ next_seq) × Covered b x n server waiting given_up

-- What holds of the side `b`.
pub record IsKept (b : Bool) (x : Side) (next_seq : ℕ) (server : ℤ) (waiting : List Flight)
    (retried : Option PaddingEdit) (given_up : ℕ) : Type 0 where
  pub parked_known : ParkedKnown (x.newest) (x.parked) (x.parked_seq)
  pub waiting_known : All (FlightKnown b (x.newest)) waiting
  pub stays_parked : StaysParked retried (x.newest) (x.parked) (x.parked_seq)
  pub newest_covered : NewestCovered b x (x.newest) next_seq server waiting given_up

All-map :
    (P Q : Flight → Type 0) → ((f : Flight) → P f → Q f) → (fs : List Flight) → All P fs → All Q fs
All-map P Q h [] k = tt
All-map P Q h (f ∷ fs) (p, k) = (h f p, All-map P Q h fs k)

pub All-without :
    (P : Flight → Type 0) (before later : List Flight) (f : Flight)
    → All P (before ++ f ∷ later)
    → P f × All P (before ++ later)
All-without P [] later f (p, k) = (p, k)
All-without P (g ∷ before) later f (p, k) =
    let (q, rest) = All-without P before later f k in (q, (p, rest))

pub Waits-without :
    (b : Bool) (seq : ℕ) (before later : List Flight) (f : Flight)
    → Waits b seq (before ++ f ∷ later)
    → Carries b seq f ⊎ Waits b seq (before ++ later)
Waits-without b seq [] later f w = w
Waits-without b seq (g ∷ before) later f (inl h) = inr (inl h)
Waits-without b seq (g ∷ before) later f (inr w) = elim (Waits-without b seq before later f w) [
  | inl h ↦ inl h
  | inr rest ↦ inr (inr rest)
]

-- An edit of this side.
Known-grows :
    (newest : Option PaddingEdit) (e : PaddingEdit) (b : Bool) (x : Side) (next_seq : ℕ)
    (server : ℤ) (waiting : List Flight) (given_up : ℕ) (v : ℤ) (q : ℕ)
    → e.seq ≡ suc next_seq
    → NewestCovered b x newest next_seq server waiting given_up
    → Known newest v q
    → Known (some e) v q
Known-grows none e b x next_seq server waiting given_up v q is_next h k = absurd k
Known-grows (some n) e b x next_seq server waiting given_up v q is_next (le, h) (below, k) =
    (omega arith, λ same. absurd (omega arith))

pub edit-IsKept :
    (b : Bool) (x : Side) (e : PaddingEdit) (next_seq : ℕ) (server : ℤ) (waiting : List Flight)
    (retried : Option PaddingEdit) (given_up : ℕ)
    → e.seq ≡ suc next_seq
    → IsKept b x next_seq server waiting retried given_up
    → IsKept b
        (record x { newest = some e })
        (suc next_seq)
        server
        (record { is_pre = b; edit = e; thrown = false } ∷ waiting)
        retried
        given_up
edit-IsKept b x e next_seq server waiting retried given_up is_next k =
    let grows = λ (v : ℤ) (q : ℕ).
      Known-grows (x.newest) e b x next_seq server waiting given_up v q is_next
        (k.newest_covered) in
    record {
      parked_known = parked (x.parked) grows (k.parked_known);
      waiting_known = (
        λ same. (omega arith, λ h. refl),
        All-map _ _ (λ f h same. grows _ _ (h same)) waiting (k.waiting_known),
      );
      stays_parked = stays retried (x.newest) (k.stays_parked) (k.newest_covered);
      newest_covered = (omega arith, inr (inr (inl (inl (refl, inl refl)))));
    }
  where
    parked :
        (p : Option ℤ)
        → ((v : ℤ) (q : ℕ) → Known (x.newest) v q → Known (some e) v q)
        → ParkedKnown (x.newest) p (x.parked_seq)
        → ParkedKnown (some e) p (x.parked_seq)
    parked none grows h = tt
    parked (some v) grows h = grows v _ h

    stays :
        (chosen newest : Option PaddingEdit)
        → StaysParked chosen newest (x.parked) (x.parked_seq)
        → NewestCovered b x newest next_seq server waiting given_up
        → StaysParked chosen (some e) (x.parked) (x.parked_seq)
    stays none newest h covered = tt
    stays (some d) none h covered = absurd h
    stays (some d) (some n) (parked, older, h) (le, covered) =
        (parked, omega arith, λ same. absurd (omega arith))

-- An edit of the other side.
pub edit-other-IsKept :
    (b : Bool) (x : Side) (f : Flight) (next_seq : ℕ) (server : ℤ) (waiting : List Flight)
    (retried : Option PaddingEdit) (given_up : ℕ)
    → f.is_pre ≢ b
    → IsKept b x next_seq server waiting retried given_up
    → IsKept b x (suc next_seq) server (f ∷ waiting) retried given_up
edit-other-IsKept b x f next_seq server waiting retried given_up other k = record {
  parked_known = k.parked_known;
  waiting_known = (λ same. absurd (other same), k.waiting_known);
  stays_parked = k.stays_parked;
  newest_covered = covered (x.newest) (k.newest_covered);
}
  where
    covered :
        (newest : Option PaddingEdit)
        → NewestCovered b x newest next_seq server waiting given_up
        → NewestCovered b x newest (suc next_seq) server (f ∷ waiting) given_up
    covered none h = tt
    covered (some n) (le, inl h) = (omega arith, inl h)
    covered (some n) (le, inr (inl h)) = (omega arith, inr (inl h))
    covered (some n) (le, inr (inr (inl h))) = (omega arith, inr (inr (inl (inr h))))
    covered (some n) (le, inr (inr (inr h))) = (omega arith, inr (inr (inr h)))

-- The end of a push of the other side.
pub push-other-IsKept :
    (b : Bool) (x : Side) (before later : List Flight) (f : Flight) (next_seq : ℕ) (server : ℤ)
    (retried : Option PaddingEdit) (given_up : ℕ)
    → f.is_pre ≢ b
    → IsKept b x next_seq server (before ++ f ∷ later) retried given_up
    → IsKept b x next_seq server (before ++ later) retried given_up
push-other-IsKept b x before later f next_seq server retried given_up other k = record {
  parked_known = k.parked_known;
  waiting_known = (All-without _ before later f (k.waiting_known)).1;
  stays_parked = k.stays_parked;
  newest_covered = covered (x.newest) (k.newest_covered);
}
  where
    covered :
        (newest : Option PaddingEdit)
        → NewestCovered b x newest next_seq server (before ++ f ∷ later) given_up
        → NewestCovered b x newest next_seq server (before ++ later) given_up
    covered none h = tt
    covered (some n) (le, inl h) = (le, inl h)
    covered (some n) (le, inr (inl h)) = (le, inr (inl h))
    covered (some n) (le, inr (inr (inr h))) = (le, inr (inr (inr h)))
    covered (some n) (le, inr (inr (inl w))) = elim (Waits-without b (n.seq) before later f w) [
      | inl (same, _) ↦ absurd (other same)
      | inr rest ↦ (le, inr (inr (inl rest)))
    ]

-- The server takes, or does not take, the edit of a push that an exception ends: the failure that is to
-- be reported parks the newest edit.
pub push_threw-IsKept :
    (b : Bool) (x : Side) (before later : List Flight) (f : Flight) (next_seq : ℕ)
    (server server' : ℤ) (retried : Option PaddingEdit) (given_up : ℕ)
    → (f.is_pre ≢ b → server' ≡ server)
    → IsKept b x next_seq server (before ++ f ∷ later) retried given_up
    → IsKept b x next_seq server' (before ++ record f { thrown = true } ∷ later) retried given_up
push_threw-IsKept b x before later f next_seq server server' retried given_up other k = record {
  parked_known = k.parked_known;
  waiting_known = known before (k.waiting_known);
  stays_parked = k.stays_parked;
  newest_covered = covered (x.newest) (k.newest_covered) (decide (f.is_pre) b);
}
  where
    known :
        (gs : List Flight)
        → All (FlightKnown b (x.newest)) (gs ++ f ∷ later)
        → All (FlightKnown b (x.newest)) (gs ++ record f { thrown = true } ∷ later)
    known [] h = h
    known (g ∷ gs) (h, rest) = (h, known gs rest)

    carried :
        (seq : ℕ) (gs : List Flight)
        → f.is_pre ≡ b
        → Waits b seq (gs ++ record f { thrown = true } ∷ later)
    carried seq [] same = inl (same, inr refl)
    carried seq (g ∷ gs) same = inr (carried seq gs same)

    still :
        (seq : ℕ) (gs : List Flight)
        → Waits b seq (gs ++ f ∷ later)
        → Waits b seq (gs ++ record f { thrown = true } ∷ later)
    still seq [] (inl (same, _)) = inl (same, inr refl)
    still seq [] (inr w) = inr w
    still seq (g ∷ gs) (inl h) = inl h
    still seq (g ∷ gs) (inr w) = inr (still seq gs w)

    covered :
        (newest : Option PaddingEdit)
        → NewestCovered b x newest next_seq server (before ++ f ∷ later) given_up
        → (f.is_pre ≡ b) ⊎ (f.is_pre ≢ b)
        → NewestCovered b x newest next_seq server'
            (before ++ record f { thrown = true } ∷ later)
            given_up
    covered none h side = tt
    covered (some n) (le, h) (inl same) = (le, inr (inr (inl (carried (n.seq) before same))))
    covered (some n) (le, inl (at, parked)) (inr differs) = (le, inl (other differs ∙ at, parked))
    covered (some n) (le, inr (inl h)) (inr differs) = (le, inr (inl h))
    covered (some n) (le, inr (inr (inl w))) (inr differs) =
        (le, inr (inr (inl (still (n.seq) before w))))
    covered (some n) (le, inr (inr (inr h))) (inr differs) = (le, inr (inr (inr h)))

    decide : (s t : Bool) → (s ≡ t) ⊎ (s ≢ t)
    decide true true = inl refl
    decide true false = inr (λ e. false≢true (sym e))
    decide false true = inr false≢true
    decide false false = inl refl
