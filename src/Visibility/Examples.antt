-- ===== src/Visibility/Examples.antt =====
-- The theorem on the deletion of a timer at an upcoming recording.
use pvr_dispatcharr_unoffici.Prelude.{◌≡◌, refl, true, false}
use pvr_dispatcharr_unoffici.Prelude.Int.{pos}
use pvr_dispatcharr_unoffici.Visibility.{
  delete, should_stop_instead_of_delete, is_already_finished_recording, decide_delete_timer_action,
}
use pvr_dispatcharr_unoffici.Visibility.Delete.{delete_only_upcoming}

deletes : decide_delete_timer_action false true (pos 200) false true ≡ delete
unfolding decide_delete_timer_action is_already_finished_recording should_stop_instead_of_delete
deletes = refl

delete_only_upcoming_example : (false ≡ false) × (true ≡ true) × (false ≡ false) × (true ≡ true)
delete_only_upcoming_example = delete_only_upcoming false true false true (pos 200) deletes
