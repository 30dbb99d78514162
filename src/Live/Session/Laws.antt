-- ===== src/Live/Session/Laws.antt =====
-- What holds of every run of the live stream's calls, in any order.
use pvr_dispatcharr_unoffici.Prelude.{refl, true, sym, subst, List, arith}
use pvr_dispatcharr_unoffici.Json.{JsonLib}
use pvr_dispatcharr_unoffici.Live.{segment_t}
use pvr_dispatcharr_unoffici.Live.Calls.{finish_refresh, start_at_live_edge}
use pvr_dispatcharr_unoffici.Live.Invariant.{fatal-IsValid}
use pvr_dispatcharr_unoffici.Live.Refresh.{finish_refresh-IsValid}
use pvr_dispatcharr_unoffici.Live.Seek.{seek_locked-Lands}
use pvr_dispatcharr_unoffici.Live.Open.{start_at_live_edge-IsValid}
use pvr_dispatcharr_unoffici.Live.Session.{
  Session, Event, quiet, Step, replaced, refreshed, opened, sought, skipped, chosen, died, dropped,
  ended_early, begins, retries, fails, committed, Runs, view, Moves, replaces, opens, grows, waits,
  stay, step,
}
use pvr_dispatcharr_unoffici.Live.Session.Steps.{
  IsConsistent, Flying-keep, Flying-opened, Flying-replaced, fresh-IsValid, choose_fetch_sound,
  refresh-grows, Moved-seek, Moved-skip_rolled_off, Moved-IsConsistent, Moved-jumps, commit-cases,
  commit-IsValid, commit-Moves,
}

module _ (lib : JsonLib) where
  open lib use {Json}

  -- One step keeps the invariant.
  pub Step-IsConsistent :
      {c d : Session} {x : Event} → Step lib c x d → IsConsistent c → IsConsistent d
  Step-IsConsistent (replaced c open_) k = record {
    valid = fresh-IsValid open_;
    flying = Flying-replaced c open_ (c.in_flight) (k.flying);
  }
  Step-IsConsistent (refreshed c same_session result manifest) k =
      let g = refresh-grows lib (c.stream) same_session result manifest in
      record {
        valid = (finish_refresh-IsValid lib (c.stream) same_session result manifest (k.valid)).0;
        flying =
            Flying-keep c (finish_refresh lib (c.stream) same_session result manifest).1
              (c.in_flight) g.1 (k.flying);
      }
  Step-IsConsistent (opened c waiting) k = record {
    valid = (start_at_live_edge-IsValid (c.stream) (k.valid)).0;
    flying = Flying-opened c (start_at_live_edge (c.stream)) (c.in_flight) waiting (k.flying);
  }
  Step-IsConsistent (sought c position whence playing) k =
      Moved-IsConsistent c _
        (Moved-seek _ _ (k.valid) (seek_locked-Lands _ position whence (k.valid))) k
  Step-IsConsistent (skipped c playing alive) k =
      Moved-IsConsistent c _ (Moved-skip_rolled_off _ (k.valid)) k
  Step-IsConsistent (chosen c size f playing alive one e) k =
      let h = choose_fetch_sound (c.stream) size f (k.valid) one e in
      record {
        valid = k.valid;
        flying = (omega arith, λ same. (playing, (k.valid).placed, h.within));
      }
  Step-IsConsistent (died c) k = record {
    valid = fatal-IsValid (c.stream) (k.valid);
    flying =
        Flying-keep c (record c.stream { fatal = true }) (c.in_flight) (omega arith) (k.flying);
  }
  Step-IsConsistent (dropped c) k = record { valid = k.valid; flying = tt }
  Step-IsConsistent (ended_early c answer h) k = record { valid = k.valid; flying = tt }
  Step-IsConsistent (committed c flight written e lo hi) k = record {
    valid = commit-IsValid c flight written k lo (commit-cases c flight written k e lo hi);
    flying = tt;
  }

  pub Step-Moves :
      {c d : Session} {x : Event} → Step lib c x d → IsConsistent c → Moves (view c) x (view d)
  unfolding view
  Step-Moves (replaced c open_) k = replaces
  Step-Moves (refreshed c same_session result manifest) k =
      let g = refresh-grows lib (c.stream) same_session result manifest in
      subst
        (λ p. Moves (view c) quiet (record {
          session = c.session;
          playing = c.playing;
          position = p;
          tail = (finish_refresh lib (c.stream) same_session result manifest).1.total_bytes;
          reading = c.in_flight;
        }))
        (sym g.0) (grows _ g.1)
  Step-Moves (opened c waiting) k =
      let v = (start_at_live_edge-IsValid (c.stream) (k.valid)).0 in
      opens _ _ waiting (v.placed) (v.within)
  Step-Moves (sought c position whence playing) k =
      Moved-jumps c _ (Moved-seek _ _ (k.valid) (seek_locked-Lands _ position whence (k.valid)))
        playing
  Step-Moves (skipped c playing alive) k =
      Moved-jumps c _ (Moved-skip_rolled_off _ (k.valid)) playing
  Step-Moves (chosen c size f playing alive one e) k =
      let h = choose_fetch_sound (c.stream) size f (k.valid) one e in
      begins _ playing refl refl (omega (arith, h.some_bytes)) (h.within)
  Step-Moves (died c) k = waits
  Step-Moves (dropped c) k = retries
  Step-Moves (ended_early c answer h) k = fails answer h
  Step-Moves (committed c flight written e lo hi) k =
      commit-Moves c flight written e lo hi (commit-cases c flight written k e lo hi)

  -- Every run of the calls from a consistent session, in any order, with a read in flight or not,
  -- leaves it consistent: the stream keeps its invariant, and a read of this session that is in
  -- flight lies between the start of the stream and its tail.
  pub Runs-IsConsistent :
      {c d : Session} {es : List Event} → Runs lib c es d → IsConsistent c → IsConsistent d
  Runs-IsConsistent stay k = k
  Runs-IsConsistent (step r s) k = Step-IsConsistent s (Runs-IsConsistent r k)
