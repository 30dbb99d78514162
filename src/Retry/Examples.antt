-- ===== src/Retry/Examples.antt =====
-- The theorems on failed fetches at concrete values.
use pvr_dispatcharr_unoffici.Prelude.{true, [], ◌∷◌, List, ◌≡◌, ◌↔◌}
use pvr_dispatcharr_unoffici.Retry.{ms}
use pvr_dispatcharr_unoffici.Retry.Permanent.{
  ReadEnd, failed, delivered, tracker_after, Ended, ended_iff,
}

-- Five failures over four seconds; the last stands first.
abbrev reads : List ReadEnd
reads =
    failed (ms 5000)
    ∷ failed (ms 4000)
    ∷ failed (ms 3000)
    ∷ failed (ms 2000)
    ∷ failed (ms 1000)
    ∷ delivered
    ∷ []

ended_iff_example : ((tracker_after reads).ended ≡ true) ↔ Ended reads
ended_iff_example = ended_iff reads
