-- ===== src/Padding/Laws.antt =====
-- Every run of edits, pushes and retries: no edit is lost.
pub mod Newest
use mathlib.Core.Bool.{false≢true}
use pvr_dispatcharr_unoffici.Prelude.{
  ℕ, suc, ◌-◌, leb, ◌<◌, ◌≡◌, ◌≢◌, refl, sym, ◌∙◌, ap, subst, Bool, true, false, Option, none, some,
  List, [], ◌∷◌, ◌++◌, length, length-append, inl, inr, by_if, arith,
}
use pvr_dispatcharr_unoffici.Prelude.Int.{ℤ}
use pvr_dispatcharr_unoffici.Padding.{
  PaddingEdit, Side, PendingPaddingPush, side_of, begin_padding_edit,
  apply_direct_padding_push_result, Sent, pending_padding_edits,
  is_safe_to_sync_padding_from_server, PaddingRetryOutcome, apply_padding_retry_result, settle_both,
  is_some,
}
use pvr_dispatcharr_unoffici.Padding.Pushes.{
  begun, sent_on, given_up_after, Flight, Landing, is_ok, stored, Pushing, Step, edited, pushed,
  push_threw, throw_reported, retry_began, retry_ended, retry_threw, fails_lost, Runs, stay, step,
  started, retry_result, push_result, max_padding_push_retries,
}
use pvr_dispatcharr_unoffici.Padding.Sides.{
  IsKept, Covered, NewestCovered, edit-IsKept, edit-other-IsKept, push-other-IsKept,
  push_threw-IsKept,
}
use pvr_dispatcharr_unoffici.Padding.Sides.Ends.{push-IsKept, report-IsKept}
use pvr_dispatcharr_unoffici.Padding.Sides.Retries.{
  began-IsKept, settle-IsKept, given_up-IsKept, retry_threw-IsKept,
}

abbrev pub sent_of : Bool → Option Sent → Option PaddingEdit
sent_of b none = none
sent_of true (some s) = s.pre
sent_of false (some s) = s.post

abbrev pub server_of : Bool → Pushing → ℤ
server_of true c = c.server_pre
server_of false c = c.server_post

abbrev pub KeptOn : Bool → Pushing → Type 0
KeptOn b c =
    IsKept b (side_of b (c.book)) ((c.book).next_seq) (server_of b c) (c.waiting)
      (sent_of b (c.retrying)) (c.given_up)

-- Nothing is lost, on either side, and the count of pushes is right.
abbrev pub IsSound : Pushing → Type 0
IsSound c = KeptOn true c × KeptOn false c × ((c.book).in_flight_edits ≡ length (c.waiting))

pub started-IsSound : (server_pre server_post : ℤ) → IsSound (started server_pre server_post)
started-IsSound server_pre server_post = (
  record { parked_known = tt; waiting_known = tt; stays_parked = tt; newest_covered = tt },
  record { parked_known = tt; waiting_known = tt; stays_parked = tt; newest_covered = tt },
  refl,
)

true≢false : true ≢ false
true≢false h = false≢true (sym h)

edited-IsSound :
    (c : Pushing) (is_pre : Bool) (value : ℤ)
    → IsSound c
    → IsSound (record c {
      book = (begin_padding_edit (c.book) is_pre value).1;
      waiting = begun (c.book) is_pre value ∷ c.waiting;
    })
unfolding begin_padding_edit
edited-IsSound c true value (pre, post, count) = (
  edit-IsKept true _ _ _ _ _ _ _ refl pre,
  edit-other-IsKept false _ (begun (c.book) true value) _ _ _ _ _ true≢false post,
  ap suc count,
)
edited-IsSound c false value (pre, post, count) = (
  edit-other-IsKept true _ (begun (c.book) false value) _ _ _ _ _ false≢true pre,
  edit-IsKept false _ _ _ _ _ _ _ refl post,
  ap suc count,
)

count-without :
    (before later : List Flight) (f : Flight) (n : ℕ)
    → n ≡ length (before ++ f ∷ later)
    → n - 1 ≡ length (before ++ later)
count-without before later f n h =
    omega (arith, h, length-append before (f ∷ later), length-append before later)

abbrev KeptAt : Bool → Pushing → List Flight → Type 0
KeptAt b c waiting =
    IsKept b (side_of b (c.book)) ((c.book).next_seq) (server_of b c) waiting none (c.given_up)

abbrev flight : Bool → PaddingEdit → Bool → Flight
flight is_pre e thrown = record { is_pre = is_pre; edit = e; thrown = thrown }

pushed-IsSound :
    (c : Pushing) (before later : List Flight) (is_pre : Bool) (e : PaddingEdit) (thrown : Bool)
    (how : Landing)
    → let f = flight is_pre e thrown in
      KeptAt true c (before ++ f ∷ later)
      → KeptAt false c (before ++ f ∷ later)
      → (c.book).in_flight_edits ≡ length (before ++ f ∷ later)
      → IsSound (record c {
        book = push_result c f how;
        server_pre = stored (sent_on true f) how (c.server_pre);
        server_post = stored (sent_on false f) how (c.server_post);
        waiting = before ++ later;
        retrying = none;
      })
unfolding apply_direct_padding_push_result
pushed-IsSound c before later true e thrown how pre post count = (
  push-IsKept true _ before later e thrown how _ _ _ pre,
  push-other-IsKept false _ before later _ _ _ none _ true≢false post,
  count-without before later _ _ count,
)
pushed-IsSound c before later false e thrown how pre post count = (
  push-other-IsKept true _ before later _ _ _ none _ false≢true pre,
  push-IsKept false _ before later e thrown how _ _ _ post,
  count-without before later _ _ count,
)

reported-IsSound :
    (c : Pushing) (before later : List Flight) (is_pre : Bool) (e : PaddingEdit) (thrown : Bool)
    → IsSound (record c { waiting = before ++ flight is_pre e thrown ∷ later })
    → IsSound (record c {
      book = push_result c (flight is_pre e thrown) fails_lost;
      waiting = before ++ later;
    })
unfolding apply_direct_padding_push_result
reported-IsSound c before later true e thrown (pre, post, count) = (
  report-IsKept true _ before later e thrown _ _ _ _ pre,
  push-other-IsKept false _ before later _ _ _ _ _ true≢false post,
  count-without before later _ _ count,
)
reported-IsSound c before later false e thrown (pre, post, count) = (
  push-other-IsKept true _ before later _ _ _ _ _ false≢true pre,
  report-IsKept false _ before later e thrown _ _ _ _ post,
  count-without before later _ _ count,
)

sent_on-true :
    (f : Flight) (how : Landing) (s : ℤ) → f.is_pre ≢ true → stored (sent_on true f) how s ≡ s
sent_on-true f how s differs =
    by_if (λ (e : Option PaddingEdit). stored e how s ≡ s) (f.is_pre) (some (f.edit)) none
      (λ h. absurd (differs h)) (λ h. refl)

sent_on-false :
    (f : Flight) (how : Landing) (s : ℤ) → f.is_pre ≢ false → stored (sent_on false f) how s ≡ s
sent_on-false f how s differs =
    by_if (λ (e : Option PaddingEdit). stored e how s ≡ s) (f.is_pre) none (some (f.edit))
      (λ h. refl) (λ h. absurd (differs h))

length-replace :
    (before later : List Flight) (f g : Flight)
    → length (before ++ f ∷ later) ≡ length (before ++ g ∷ later)
length-replace [] later f g = refl
length-replace (h ∷ before) later f g = ap suc (length-replace before later f g)

threw-IsSound :
    (c : Pushing) (before later : List Flight) (f : Flight) (how : Landing)
    → IsSound (record c { waiting = before ++ f ∷ later })
    → IsSound (record c {
      server_pre = stored (sent_on true f) how (c.server_pre);
      server_post = stored (sent_on false f) how (c.server_post);
      waiting = before ++ record f { thrown = true } ∷ later;
    })
threw-IsSound c before later f how (pre, post, count) = (
  push_threw-IsKept true _ before later f _ _ _ _ _ (sent_on-true f how (c.server_pre)) pre,
  push_threw-IsKept false _ before later f _ _ _ _ _ (sent_on-false f how (c.server_post)) post,
  count ∙ length-replace before later f _,
)

retried-IsSound :
    (c : Pushing) (s : Sent) (how : Landing)
    → IsSound (record c { retrying = some s })
    → IsSound (record c {
      book = (retry_result c s how).1;
      server_pre = stored (s.pre) how (c.server_pre);
      server_post = stored (s.post) how (c.server_post);
      retrying = none;
      given_up = given_up_after ((retry_result c s how).0) (c.book) (c.given_up);
    })
unfolding apply_padding_retry_result
retried-IsSound c s how (pre, post, count) =
    let settled_pre = settle-IsKept true _ (s.pre) how _ _ _ _ pre in
    let settled_post = settle-IsKept false _ (s.post) how _ _ _ _ post in
    let retries = suc ((settle_both s (is_ok how) (c.book)).retries) in
    by_if (kept_after c s how) (is_ok how) _ _ (λ h. (settled_pre, settled_post, count))
      (λ h.
        by_if (kept_after c s how) (leb max_padding_push_retries retries) _ _
          (λ gives_up. (
            given_up-IsKept true _ _ _ _ _ settled_pre,
            given_up-IsKept false _ _ _ _ _ settled_post,
            count,
          ))
          (λ goes_on. (settled_pre, settled_post, count)))
  where
    kept_after : Pushing → Sent → Landing → PaddingRetryOutcome × PendingPaddingPush → Type 0
    kept_after c s how (outcome, book) = IsSound (record c {
      book = book;
      server_pre = stored (s.pre) how (c.server_pre);
      server_post = stored (s.post) how (c.server_post);
      retrying = none;
      given_up = given_up_after outcome (c.book) (c.given_up);
    })

idle-KeptAt : (b : Bool) (c : Pushing) → c.retrying ≡ none → KeptOn b c → KeptAt b c (c.waiting)
idle-KeptAt true c idle k =
    subst
      (λ r.
        IsKept true ((c.book).pre) ((c.book).next_seq) (c.server_pre) (c.waiting) (sent_of true r)
          (c.given_up))
      idle k
idle-KeptAt false c idle k =
    subst
      (λ r.
        IsKept false ((c.book).post) ((c.book).next_seq) (c.server_post) (c.waiting)
          (sent_of false r) (c.given_up))
      idle k

Step-IsSound : {c d : Pushing} → Step c d → IsSound c → IsSound d
unfolding pending_padding_edits
Step-IsSound (edited c is_pre value) k = edited-IsSound c is_pre value k
Step-IsSound (pushed c before later f how idle not_thrown here) (pre, post, count) =
    let at = λ (b : Bool) (k : KeptAt b c (c.waiting)). subst (KeptAt b c) here k in
    pushed-IsSound c before later (f.is_pre) (f.edit) (f.thrown) how
      (at true (idle-KeptAt true c idle pre)) (at false (idle-KeptAt false c idle post))
      (count ∙ ap length here)
Step-IsSound (push_threw c before later f how idle not_thrown here) k =
    threw-IsSound c before later f how (subst (λ w. IsSound (record c { waiting = w })) here k)
Step-IsSound (throw_reported c before later f threw here) k =
    reported-IsSound c before later (f.is_pre) (f.edit) (f.thrown)
      (subst (λ w. IsSound (record c { waiting = w })) here k)
Step-IsSound (retry_began c idle some_left) (pre, post, count) = (
  began-IsKept true _ _ _ _ _ (idle-KeptAt true c idle pre),
  began-IsKept false _ _ _ _ _ (idle-KeptAt false c idle post),
  count,
)
Step-IsSound (retry_ended c s how running) k =
    retried-IsSound c s how (subst (λ r. IsSound (record c { retrying = r })) running k)
Step-IsSound (retry_threw c s how running) k =
    let (pre, post, count) = subst (λ r. IsSound (record c { retrying = r })) running k in
    (
      retry_threw-IsKept true _ (s.pre) how _ _ _ _ pre,
      retry_threw-IsKept false _ (s.post) how _ _ _ _ post,
      count,
    )

pub Runs-IsSound : {c d : Pushing} → Runs c d → IsSound c → IsSound d
Runs-IsSound stay k = k
Runs-IsSound (step r s) k = Step-IsSound s (Runs-IsSound r k)
