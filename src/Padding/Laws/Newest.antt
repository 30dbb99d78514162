-- ===== src/Padding/Laws/Newest.antt =====
-- What a run of edits, pushes and retries leaves at the server.
use mathlib.Core.Bool.{false≢true}
use pvr_dispatcharr_unoffici.Prelude.{
  ℕ, ◌<◌, ◌≡◌, refl, sym, ◌∙◌, ap, subst, Bool, true, false, Option, none, some, List, [], ◌∷◌,
  length, inl, inr, arith,
}
use pvr_dispatcharr_unoffici.Prelude.Int.{ℤ}
use pvr_dispatcharr_unoffici.Padding.{
  PaddingEdit, Side, PendingPaddingPush, side_of, is_safe_to_sync_padding_from_server, is_some,
}
use pvr_dispatcharr_unoffici.Padding.Pushes.{Flight, Pushing, Runs, started}
use pvr_dispatcharr_unoffici.Padding.Sides.{Covered, NewestCovered}
use pvr_dispatcharr_unoffici.Padding.Laws.{KeptOn, Runs-IsSound, server_of, started-IsSound}

-- The side has its newest edit `n` at the server.
Covered-stored :
    (b : Bool) (x : Side) (n : PaddingEdit) (server : ℤ) (waiting : List Flight) (given_up : ℕ)
    → x.parked ≡ none
    → 0 ≡ length waiting
    → given_up < n.seq
    → Covered b x n server waiting given_up
    → server ≡ n.value
Covered-stored b x n server waiting given_up unparked no_push newer (inl (h, _)) = h
Covered-stored b x n server waiting given_up unparked no_push newer (inr (inl (parked, _))) =
    absurd (none_parked (x.parked) unparked parked)
  where
    none_parked : (p : Option ℤ) → p ≡ none → p ≡ some (n.value) → ⊥
    none_parked p e f = false≢true (ap is_some (sym e ∙ f))
Covered-stored b x n server [] given_up unparked no_push newer (inr (inr (inl w))) = absurd w
Covered-stored b x n server (f ∷ fs) given_up unparked no_push newer (inr (inr (inl w))) =
    absurd (omega arith)
Covered-stored b x n server waiting given_up unparked no_push newer (inr (inr (inr old))) =
    absurd (omega arith)

Covered-newest :
    (b : Bool) (x : Side) (newest : Option PaddingEdit) (n : PaddingEdit) (next_seq : ℕ)
    (server : ℤ) (waiting : List Flight) (given_up : ℕ)
    → newest ≡ some n
    → NewestCovered b x newest next_seq server waiting given_up
    → Covered b x n server waiting given_up
Covered-newest b x newest n next_seq server waiting given_up e h =
    (subst (λ m. NewestCovered b x m next_seq server waiting given_up) e h).1

safe_means :
    (s : PendingPaddingPush) (next_seq_at_start : ℕ)
    → is_safe_to_sync_padding_from_server s next_seq_at_start ≡ true
    → (is_some ((s.pre).parked) ≡ false)
      × (is_some ((s.post).parked) ≡ false)
      × (s.in_flight_edits ≡ 0)
unfolding is_safe_to_sync_padding_from_server
safe_means s next_seq_at_start h = (ground arith, ground arith, ground arith)

not_parked : (p : Option ℤ) → is_some p ≡ false → p ≡ none
not_parked none h = refl
not_parked (some v) h = absurd (false≢true (sym h))

-- In every run of edits, pushes and retries, however pushes and retries end, by an exception too, and in
-- whatever order they reach the server: when a value that the server sends may be written over the user's
-- setting, the server holds the newest edit of each side, unless that edit, of whichever side, was made
-- before a retry last gave up.
pub Runs-server_of :
    {server_pre server_post : ℤ} {c : Pushing} (b : Bool) (n : PaddingEdit) (next_seq_at_start : ℕ)
    → Runs (started server_pre server_post) c
    → is_safe_to_sync_padding_from_server (c.book) next_seq_at_start ≡ true
    → (side_of b (c.book)).newest ≡ some n
    → c.given_up < n.seq
    → server_of b c ≡ n.value
Runs-server_of {server_pre} {server_post} {c} b n next_seq_at_start r safe newest newer =
    let (pre, post, count) = Runs-IsSound r (started-IsSound server_pre server_post) in
    let (no_pre, no_post, none_left) = safe_means (c.book) next_seq_at_start safe in
    on b pre post no_pre no_post (sym none_left ∙ count) newest
  where
    on :
        (b : Bool)
        → KeptOn true c
        → KeptOn false c
        → is_some (((c.book).pre).parked) ≡ false
        → is_some (((c.book).post).parked) ≡ false
        → 0 ≡ length (c.waiting)
        → (side_of b (c.book)).newest ≡ some n
        → server_of b c ≡ n.value
    on true pre post no_pre no_post no_push newest =
        Covered-stored true ((c.book).pre) n (server_of true c) (c.waiting) (c.given_up)
          (not_parked _ no_pre) no_push newer
          (Covered-newest true ((c.book).pre) (((c.book).pre).newest) n ((c.book).next_seq)
            (server_of true c) (c.waiting) (c.given_up) newest (pre.newest_covered))
    on false pre post no_pre no_post no_push newest =
        Covered-stored false ((c.book).post) n (server_of false c) (c.waiting) (c.given_up)
          (not_parked _ no_post) no_push newer
          (Covered-newest false ((c.book).post) (((c.book).post).newest) n ((c.book).next_seq)
            (server_of false c) (c.waiting) (c.given_up) newest (post.newest_covered))
