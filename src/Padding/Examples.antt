-- ===== src/Padding/Examples.antt =====
-- The theorem on the padding at a run in which two edits reach the server in the wrong order.
use pvr_dispatcharr_unoffici.Prelude.{◌≡◌, refl, true, false, none, some, [], ◌∷◌, arith}
use pvr_dispatcharr_unoffici.Prelude.Int.{pos}
use pvr_dispatcharr_unoffici.Padding.{
  begin_padding_edit, apply_direct_padding_push_result, apply_result, park_newest,
  pending_padding_edits, settle_side, is_safe_to_sync_padding_from_server,
  apply_padding_retry_result,
}
use pvr_dispatcharr_unoffici.Padding.Pushes.{
  Flight, succeeds, fails_landed, Pushing, Runs, stay, step, edited, pushed, push_threw,
  throw_reported, retry_began, retry_ended, started,
}
use pvr_dispatcharr_unoffici.Padding.Laws.{server_of}
use pvr_dispatcharr_unoffici.Padding.Laws.Newest.{Runs-server_of}

abbrev older_flight : Flight
older_flight = record { is_pre = true; edit = record { value = pos 5; seq = 1 }; thrown = false }

abbrev newer_flight : Flight
newer_flight = record { is_pre = true; edit = record { value = pos 7; seq = 2 }; thrown = false }

-- The newer edit is pushed first; the older one then lands, though an exception ends its
-- push, and a retry sends the newer one again.
abbrev run : (c : Pushing) × Runs (started (pos 0) (pos 0)) c
unfolding begin_padding_edit apply_direct_padding_push_result apply_result park_newest
    pending_padding_edits
run = (
  _,
  step
      (step
        (step
          (step
            (step (step (step stay (edited _ true (pos 5))) (edited _ true (pos 7)))
              (pushed _ [] (older_flight ∷ []) newer_flight succeeds refl refl refl))
            (push_threw _ [] [] older_flight fails_landed (λ landed. refl) refl refl))
          (throw_reported _ [] [] (record older_flight { thrown = true }) refl refl))
        (retry_began _ refl refl))
      (retry_ended _ (record { pre = some (newer_flight.edit); post = none }) succeeds refl),
)

Runs-server_of_example : server_of true (run.0) ≡ pos 7
unfolding begin_padding_edit apply_direct_padding_push_result apply_result park_newest
    pending_padding_edits settle_side is_safe_to_sync_padding_from_server apply_padding_retry_result
Runs-server_of_example = Runs-server_of true (newer_flight.edit) 2 (run.1) refl refl (omega arith)
