-- ===== src/Live/Session.antt =====
-- The live stream between its calls: refreshes, seeks and reads take the state lock in any order, and a
-- read releases it for the transfer (`m_liveStateMutex`, `m_liveSession` and `stillSameStream()` of
-- src/DispatcharrClient.cpp). One step is the work of one call under one hold of the lock.
pub mod Steps
pub mod Laws
mod Examples
use pvr_dispatcharr_unoffici.Prelude.{
  ℕ, suc, ◌≡◌, ◌≢◌, ◌⊎◌, Bool, true, false, Option, none, some, List, [], ◌∷◌, ◌==◌,
}
use pvr_dispatcharr_unoffici.Prelude.Int.{ℤ, pos, negsuc, ◌+ℤ◌, ◌≤ℤ◌}
use pvr_dispatcharr_unoffici.Json.{JsonLib}
use pvr_dispatcharr_unoffici.Position.{Whence}
use pvr_dispatcharr_unoffici.Live.{Stream}
use pvr_dispatcharr_unoffici.Live.Calls.{
  finish_refresh, start_at_live_edge, seek_locked, skip_rolled_off, Fetch, choose_fetch,
  commit_read,
}

-- A read between its two holds of the lock: the session it began in, `positionAtFetch` and `wantSize`.
pub record Flight : Type 0 where
  pub session : ℕ
  pub position_at_fetch : ℤ
  pub want_size : ℤ

-- The stream, `m_liveSession`, whether `OpenLiveTimeshiftStream` has returned, and a read in flight.
pub record Session : Type 0 where
  pub stream : Stream
  pub session : ℕ
  pub playing : Bool
  pub in_flight : Option Flight

-- `LiveTimeshiftStreamState()`, and whether it is then opened.
abbrev pub fresh_stream : Bool → Stream
fresh_stream open_ = record {
  open_ = open_;
  segments = [];
  oldest_available_sequence = negsuc 0;
  total_bytes = pos 0;
  total_duration_ms = pos 0;
  position = pos 0;
  ended = false;
  fatal = false;
}

-- What the player sees of a step: nothing, the answer of a read whose transfer came in, or the answer
-- of one that ended before that.
pub data Event : Type 0 where
  quiet : Event
  answers : ℤ → Event
  failed : ℤ → Event

-- The end of the read `flight`: `stillSameStream()` compares the sessions.
abbrev pub commit_flight : Session → Flight → ℤ → ℤ × Stream
commit_flight c flight written =
    commit_read (c.stream) (flight.session == c.session) (flight.position_at_fetch) written

module _ (lib : JsonLib) where
  open lib use {Json}

  pub data Step : Session → Event → Session → Type 0 where
    -- A close, or an open that has not returned.
    replaced :
        (c : Session) (open_ : Bool)
        → Step c quiet
            (record c { stream = fresh_stream open_; session = suc (c.session); playing = false })
    refreshed :
        (c : Session) (same_session : Bool) (result : Json) (manifest : List Json)
        → Step c quiet
            (record c { stream = (finish_refresh lib (c.stream) same_session result manifest).1 })
    opened :
        (c : Session)
        → c.playing ≡ false
        → Step c quiet (record c { stream = start_at_live_edge (c.stream); playing = true })
    sought :
        (c : Session) (position : ℤ) (whence : Whence)
        → c.playing ≡ true
        → Step c quiet (record c { stream = (seek_locked (c.stream) position whence).1 })
    skipped :
        (c : Session)
        → c.playing ≡ true
        → (c.stream).fatal ≡ false
        → Step c quiet (record c { stream = skip_rolled_off (c.stream) })
    chosen :
        (c : Session) (size : ℤ) (f : Fetch)
        → c.playing ≡ true
        → (c.stream).fatal ≡ false
        → pos 1 ≤ℤ size
        → choose_fetch (c.stream) size ≡ some f
        → Step c quiet (record c {
          in_flight = some (record {
            session = c.session;
            position_at_fetch = (c.stream).position;
            want_size = f.want_size;
          });
        })
    -- A failed fetch, a bad response or the plugin marks the stream as dead.
    died : (c : Session) → Step c quiet (record c { stream = record c.stream { fatal = true } })
    -- The transfer failed, and the read begins another pass.
    dropped : (c : Session) → Step c quiet (record c { in_flight = none })
    -- A read that ends before its commit.
    ended_early :
        (c : Session) (answer : ℤ)
        → (answer ≡ negsuc 0) ⊎ (answer ≡ pos 0)
        → Step c (failed answer) (record c { in_flight = none })
    committed :
        (c : Session) (flight : Flight) (written : ℤ)
        → c.in_flight ≡ some flight
        → pos 0 ≤ℤ written
        → written ≤ℤ flight.want_size
        → Step c
            (answers ((commit_flight c flight written).0))
            (record c { stream = (commit_flight c flight written).1; in_flight = none })

  -- Any number of steps, with what the player saw.
  pub data Runs (c : Session) : List Event → Session → Type 0 where
    stay : Runs c [] c
    step :
        {es : List Event} {d e : Session} {x : Event} → Runs c es d → Step d x e → Runs c (x ∷ es) e

-- What the player may rely on: where it reads, how far the stream reaches, and the read that waits for
-- its transfer, with the session and the position that it began at.
pub record View : Type 0 where
  pub session : ℕ
  pub playing : Bool
  pub position : ℤ
  pub tail : ℤ
  pub reading : Option Flight

unfoldable pub view : Session → View
view c = record {
  session = c.session;
  playing = c.playing;
  position = (c.stream).position;
  tail = (c.stream).total_bytes;
  reading = c.in_flight;
}

-- The moves that the player may see.
pub data Moves (v : View) : Event → View → Type 0 where
  replaces :
      Moves v quiet
        (record v { session = suc (v.session); playing = false; position = pos 0; tail = pos 0 })
  opens :
      (position tail : ℤ)
      → v.playing ≡ false
      → pos 0 ≤ℤ position
      → position ≤ℤ tail
      → Moves v quiet (record v { playing = true; position = position; tail = tail })
  grows : (tail : ℤ) → v.tail ≤ℤ tail → Moves v quiet (record v { tail = tail })
  jumps :
      (position : ℤ)
      → v.playing ≡ true
      → pos 0 ≤ℤ position
      → position ≤ℤ v.tail
      → Moves v quiet (record v { position = position })
  waits : Moves v quiet v
  begins :
      (f : Flight)
      → v.playing ≡ true
      → f.session ≡ v.session
      → f.position_at_fetch ≡ v.position
      → pos 0 ≤ℤ f.want_size
      → v.position +ℤ f.want_size ≤ℤ v.tail
      → Moves v quiet (record v { reading = some f })
  -- Only a read that began in this session and at this position answers what it delivers.
  reads :
      (f : Flight) (n : ℤ)
      → v.reading ≡ some f
      → f.session ≡ v.session
      → f.position_at_fetch ≡ v.position
      → v.playing ≡ true
      → pos 0 ≤ℤ n
      → n ≤ℤ f.want_size
      → v.position +ℤ n ≤ℤ v.tail
      → Moves v (answers n) (record v { position = v.position +ℤ n; reading = none })
  -- -1, on which the player reads again.
  says_again :
      (f : Flight)
      → v.reading ≡ some f
      → (f.session ≢ v.session) ⊎ (f.position_at_fetch ≢ v.position)
      → Moves v (answers (negsuc 0)) (record v { reading = none })
  retries : Moves v quiet (record v { reading = none })
  fails :
      (answer : ℤ)
      → (answer ≡ negsuc 0) ⊎ (answer ≡ pos 0)
      → Moves v (failed answer) (record v { reading = none })

pub data Traces (v : View) : List Event → View → Type 0 where
  still : Traces v [] v
  move :
      {es : List Event} {w u : View} {x : Event} → Traces v es w → Moves w x u → Traces v (x ∷ es) u
