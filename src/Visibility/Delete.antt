-- ===== src/Visibility/Delete.antt =====
-- When the deletion of a timer deletes the recording (src/RecordingVisibility.cpp).
use mathlib.Core.Bool.{true≢false}
use pvr_dispatcharr_unoffici.Prelude.{◌≡◌, ap, refl, sym, ◌∙◌, Bool, true, false, if◌then◌else◌}
use pvr_dispatcharr_unoffici.Prelude.Int.{ℤ, pos, eqb_ℤ}
use pvr_dispatcharr_unoffici.Visibility.{
  DeleteTimerAction, delete, stop, already_done, refuse_unverified, should_stop_instead_of_delete,
  is_already_finished_recording, decide_delete_timer_action,
}

abbrev is_delete : DeleteTimerAction → Bool
is_delete delete = true
is_delete stop = false
is_delete already_done = false
is_delete refuse_unverified = false

unanswered :
    (force_delete missing : Bool)
    → is_delete (if missing then already_done else if force_delete then stop else refuse_unverified)
      ≡ false
unanswered force_delete true = refl
unanswered true false = refl
unanswered false false = refl

-- A timer's recording is deleted only if the server has answered, it is still to come, it is not
-- being recorded, and no stop was asked for.
pub delete_only_upcoming :
    (force_delete lookup_ok is_in_progress is_upcoming : Bool) (status : ℤ)
    → decide_delete_timer_action force_delete lookup_ok status is_in_progress is_upcoming ≡ delete
    → (force_delete ≡ false) × (lookup_ok ≡ true) × (is_in_progress ≡ false) × (is_upcoming ≡ true)
unfolding decide_delete_timer_action is_already_finished_recording should_stop_instead_of_delete
delete_only_upcoming true true true true status e = absurd (true≢false (sym (ap is_delete e)))
delete_only_upcoming true true true false status e = absurd (true≢false (sym (ap is_delete e)))
delete_only_upcoming true true false true status e = absurd (true≢false (sym (ap is_delete e)))
delete_only_upcoming true true false false status e = absurd (true≢false (sym (ap is_delete e)))
delete_only_upcoming false true true true status e = absurd (true≢false (sym (ap is_delete e)))
delete_only_upcoming false true true false status e = absurd (true≢false (sym (ap is_delete e)))
delete_only_upcoming false true false true status e = (refl, refl, refl, refl)
delete_only_upcoming false true false false status e = absurd (true≢false (sym (ap is_delete e)))
delete_only_upcoming force_delete false is_in_progress is_upcoming status e =
    absurd (true≢false (sym (ap is_delete e) ∙ unanswered force_delete (eqb_ℤ status (pos 404))))
