-- ===== src/Padding/Pushes.antt =====
-- The pushes of the padding as the add-on and the client run them (`SetSetting` and
-- `RetryDeferredServerSyncs` of src/PVRDispatcharr.cpp, `SetDvrOffsetMinutes` and
-- `SetDvrOffsetMinutesChosen` of src/DispatcharrClient.cpp): the client's settings mutex lets one push
-- or retry reach the server at a time, and its result is applied before the mutex is released, but the
-- user edits at any time. A push that ends by a C++ exception has released
-- the mutex when its failure is reported, and a retry that ends by one reports nothing.
use pvr_dispatcharr_unoffici.Prelude.{
  ℕ, ◌≡◌, Bool, true, false, Option, none, some, List, [], ◌∷◌, ◌++◌, if◌then◌else◌,
}
use pvr_dispatcharr_unoffici.Prelude.Int.{ℤ}
use pvr_dispatcharr_unoffici.Padding.{
  PaddingEdit, Side, PendingPaddingPush, has_pending, begin_padding_edit,
  apply_direct_padding_push_result, Sent, pending_padding_edits, PaddingRetryOutcome, sent,
  retry_later, gave_up, apply_padding_retry_result,
}

-- A push that has begun and whose result is still to be applied, and whether an exception has ended
-- its request.
pub record Flight : Type 0 where
  pub is_pre : Bool
  pub edit : PaddingEdit
  pub thrown : Bool

-- How a push ends: it succeeds, or it fails, and the server took the value all the same or not.
pub data Landing : Type 0 where
  succeeds : Landing
  fails_landed : Landing
  fails_lost : Landing

abbrev pub is_ok : Landing → Bool
is_ok succeeds = true
is_ok fails_landed = false
is_ok fails_lost = false

abbrev pub has_landed : Landing → Bool
has_landed succeeds = true
has_landed fails_landed = true
has_landed fails_lost = false

-- The bookkeeping, the server's two values, the pushes whose result is to come, a retry that has
-- chosen what to send, and the last edit made when a retry last gave up.
pub record Pushing : Type 0 where
  pub book : PendingPaddingPush
  pub server_pre : ℤ
  pub server_post : ℤ
  pub waiting : List Flight
  pub retrying : Option Sent
  pub given_up : ℕ

-- The server's value once the edit has been sent to it.
abbrev pub stored : Option PaddingEdit → Landing → ℤ → ℤ
stored none how server = server
stored (some e) how server = if has_landed how then e.value else server

abbrev pub sent_on : Bool → Flight → Option PaddingEdit
sent_on true f = if f.is_pre then some (f.edit) else none
sent_on false f = if f.is_pre then none else some (f.edit)

abbrev pub given_up_after : PaddingRetryOutcome → PendingPaddingPush → ℕ → ℕ
given_up_after sent s before = before
given_up_after retry_later s before = before
given_up_after gave_up s before = s.next_seq

abbrev pub push_result : Pushing → Flight → Landing → PendingPaddingPush
push_result c f how = apply_direct_padding_push_result (c.book) (f.is_pre) (f.edit) (is_ok how)

-- `kMaxPaddingPushRetries`.
abbrev pub max_padding_push_retries : ℕ
max_padding_push_retries = 3

abbrev pub retry_result : Pushing → Sent → Landing → PaddingRetryOutcome × PendingPaddingPush
retry_result c s how = apply_padding_retry_result (c.book) s (is_ok how) max_padding_push_retries

abbrev pub begun : PendingPaddingPush → Bool → ℤ → Flight
begun s is_pre value = record {
  is_pre = is_pre;
  edit = record { value = value; seq = (begin_padding_edit s is_pre value).0 };
  thrown = false;
}

pub data Step : Pushing → Pushing → Type 0 where
  edited :
      (c : Pushing) (is_pre : Bool) (value : ℤ)
      → Step c (record c {
        book = (begin_padding_edit (c.book) is_pre value).1;
        waiting = begun (c.book) is_pre value ∷ c.waiting;
      })
  pushed :
      (c : Pushing) (before later : List Flight) (f : Flight) (how : Landing)
      → c.retrying ≡ none
      → f.thrown ≡ false
      → c.waiting ≡ before ++ f ∷ later
      → Step c (record c {
        book = push_result c f how;
        server_pre = stored (sent_on true f) how (c.server_pre);
        server_post = stored (sent_on false f) how (c.server_post);
        waiting = before ++ later;
        retrying = none;
      })
  -- An exception out of the request, before it has the mutex or while it has.
  push_threw :
      (c : Pushing) (before later : List Flight) (f : Flight) (how : Landing)
      → (has_landed how ≡ true → c.retrying ≡ none)
      → f.thrown ≡ false
      → c.waiting ≡ before ++ f ∷ later
      → Step c (record c {
        server_pre = stored (sent_on true f) how (c.server_pre);
        server_post = stored (sent_on false f) how (c.server_post);
        waiting = before ++ record f { thrown = true } ∷ later;
      })
  -- The handler of the exception, which holds no mutex of the client's.
  throw_reported :
      (c : Pushing) (before later : List Flight) (f : Flight)
      → f.thrown ≡ true
      → c.waiting ≡ before ++ f ∷ later
      → Step c (record c { book = push_result c f fails_lost; waiting = before ++ later })
  retry_began :
      (c : Pushing)
      → c.retrying ≡ none
      → has_pending (c.book) ≡ true
      → Step c (record c { retrying = some (pending_padding_edits (c.book)) })
  retry_ended :
      (c : Pushing) (s : Sent) (how : Landing)
      → c.retrying ≡ some s
      → Step c (record c {
        book = (retry_result c s how).1;
        server_pre = stored (s.pre) how (c.server_pre);
        server_post = stored (s.post) how (c.server_post);
        retrying = none;
        given_up = given_up_after ((retry_result c s how).0) (c.book) (c.given_up);
      })
  -- An exception out of the retry's request: its result is never applied.
  retry_threw :
      (c : Pushing) (s : Sent) (how : Landing)
      → c.retrying ≡ some s
      → Step c (record c {
        server_pre = stored (s.pre) how (c.server_pre);
        server_post = stored (s.post) how (c.server_post);
        retrying = none;
      })

pub data Runs (c : Pushing) : Pushing → Type 0 where
  stay : Runs c c
  step : {d e : Pushing} → Runs c d → Step d e → Runs c e

abbrev pub new_side : Side
new_side = record { parked = none; parked_seq = 0; newest = none }

-- What the add-on starts with, whatever the server holds.
abbrev pub started : ℤ → ℤ → Pushing
started server_pre server_post = record {
  book = record { pre = new_side; post = new_side; next_seq = 0; retries = 0; in_flight_edits = 0 };
  server_pre = server_pre;
  server_post = server_post;
  waiting = [];
  retrying = none;
  given_up = 0;
}
