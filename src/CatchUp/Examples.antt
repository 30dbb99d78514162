-- ===== src/CatchUp/Examples.antt =====
-- The theorems on waiting at the tail at concrete values.
use pvr_dispatcharr_unoffici.Prelude.{false, [], ◌∷◌, List, ◌≡◌, refl, ◌↔◌, codes, arith}
use pvr_dispatcharr_unoffici.Prelude.Int.{ℤ, pos, ◌-ℤ◌, ◌≤ℤ◌}
use pvr_dispatcharr_unoffici.Live.{Segment, segment_t}
use pvr_dispatcharr_unoffici.CatchUp.{
  to_ms, estimate_segment_duration_ms, new_episode, enter, touch, waited_ms, give_up,
  decide_tail_wait_outcome,
}
use pvr_dispatcharr_unoffici.CatchUp.Bounds.{Covers, catch_up-Covers}
use pvr_dispatcharr_unoffici.CatchUp.Episode.{wait_again, Prompt, wait_again-gives_up}

-- One segment, of 151 ms.
abbrev short_segments : List Segment
short_segments =
    record {
      filename = codes "a.ts";
      sequence = pos 0;
      byte_offset = pos 0;
      byte_size = pos 100;
      time_offset_ms = pos 0;
    }
    ∷ []

catch_up-Covers_example : Covers (estimate_segment_duration_ms (pos 151) short_segments)
catch_up-Covers_example = catch_up-Covers (pos 151) short_segments

-- Two calls of about a second each, from the fifth second on.
abbrev calls : List (ℤ × ℤ)
calls = (pos 6100000000, pos 7100000000) ∷ (pos 7200000000, pos 8200000000) ∷ []

calls-Prompt : Prompt (pos 6000000000) calls
unfolding ◌-ℤ◌
calls-Prompt = (omega arith, omega arith, (omega arith, omega arith, tt))

wait_again-gives_up_example :
    (decide_tail_wait_outcome false
        (waited_ms
          (wait_again
            (touch (enter new_episode (pos 230) (pos 5000000000)) (pos 6000000000))
            (pos 230)
            calls)
          (pos 9600000000))
        (pos 4500)
      ≡ give_up)
    ↔ (pos 4500 ≤ℤ to_ms (pos 9600000000 -ℤ pos 5000000000))
wait_again-gives_up_example =
    wait_again-gives_up new_episode (pos 230) (pos 5000000000) (pos 6000000000) (pos 9600000000)
      (pos 4500) calls (omega arith) refl (omega arith) calls-Prompt
