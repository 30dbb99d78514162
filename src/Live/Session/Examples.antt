-- ===== src/Live/Session/Examples.antt =====
-- The laws of the live stream's session at a read during which the stream grows.
use pvr_dispatcharr_unoffici.Prelude.{true, List, [], ◌∷◌, some, none, ◌≡◌, refl, arith}
use pvr_dispatcharr_unoffici.Prelude.Int.{pos, ◌-ℤ◌, ◌+ℤ◌}
use pvr_dispatcharr_unoffici.Json.Examples.{missing, sample_lib}
use pvr_dispatcharr_unoffici.Position.{compute_segment_read_size}
use pvr_dispatcharr_unoffici.Segments.{find_segment_containing_position}
use pvr_dispatcharr_unoffici.Live.{Stream}
use pvr_dispatcharr_unoffici.Live.Calls.{finish_refresh, choose_fetch}
use pvr_dispatcharr_unoffici.Live.Examples.{
  moved_sample, moved_sample-IsValid, sample_fetch, manifest,
}
use pvr_dispatcharr_unoffici.Live.Session.{
  Flight, Session, Event, quiet, answers, commit_flight, refreshed, chosen, committed, Runs, stay,
  step,
}
use pvr_dispatcharr_unoffici.Live.Session.Steps.{IsConsistent}
use pvr_dispatcharr_unoffici.Live.Session.Laws.{Runs-IsConsistent}

abbrev playing_session : Session
playing_session = record { stream = moved_sample; session = 4; playing = true; in_flight = none }

playing_session-IsConsistent : IsConsistent playing_session
playing_session-IsConsistent = record { valid = moved_sample-IsValid; flying = tt }

abbrev flight : Flight
flight = record { session = 4; position_at_fetch = pos 110; want_size = pos 50 }

abbrev grown : Stream
grown = (finish_refresh sample_lib moved_sample true missing manifest).1

-- The session when the transfer ends.
abbrev grown_session : Session
grown_session = record { stream = grown; session = 4; playing = true; in_flight = some flight }

abbrev read_session : Session
read_session = record grown_session {
  stream = (commit_flight grown_session flight (pos 50)).1;
  in_flight = none;
}

abbrev seen : List Event
seen = answers ((commit_flight grown_session flight (pos 50)).0) ∷ quiet ∷ quiet ∷ []

sample_chosen : choose_fetch moved_sample (pos 64) ≡ some sample_fetch
unfolding choose_fetch find_segment_containing_position compute_segment_read_size ◌-ℤ◌ ◌+ℤ◌
sample_chosen = refl

sample_run : Runs sample_lib playing_session seen read_session
sample_run =
    step
      (step
        (step stay
          (chosen playing_session (pos 64) sample_fetch refl refl (omega arith) sample_chosen))
        (refreshed _ true missing manifest))
      (committed grown_session flight (pos 50) refl (omega arith) (omega arith))

Runs-IsConsistent_example : IsConsistent read_session
Runs-IsConsistent_example = Runs-IsConsistent sample_lib sample_run playing_session-IsConsistent
