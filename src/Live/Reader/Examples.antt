-- ===== src/Live/Reader/Examples.antt =====
-- The theorems on a whole read of the live stream at concrete environments.
use pvr_dispatcharr_unoffici.Prelude.{ℕ, true, false, arith}
use pvr_dispatcharr_unoffici.Prelude.Int.{ℤ, pos, negsuc}
use pvr_dispatcharr_unoffici.CatchUp.{new_episode}
use pvr_dispatcharr_unoffici.Live.Examples.{moved_sample, moved_sample-IsValid}
use pvr_dispatcharr_unoffici.Live.Reader.{Reader, Away, Round, Env}
use pvr_dispatcharr_unoffici.Live.Reader.Pass.Once.{read_once, Pass, read_passes}
use pvr_dispatcharr_unoffici.Live.Reader.FetchKeeps.{Sound}
use pvr_dispatcharr_unoffici.Live.Reader.Others.{nothing, IsProgram, read_once-Sound}
use pvr_dispatcharr_unoffici.Json.Examples.{sample_lib}
use pvr_dispatcharr_unoffici.Live.Reader.Loop.{Returns, read_passes-Returns}

abbrev undisturbed : Away
undisturbed = record { stream = λ s. s; seek_time = λ t. t; same = true }

abbrev round : ℕ → Round
round i = record {
  refresh = undisturbed;
  answered = true;
  fatal = false;
  checked_at = pos 9000000000;
  sliced_at = pos 9000000000;
  sleep = undisturbed;
}

-- A transfer that the server answers with the status `http_code`, a total size
-- and 64 bytes.
abbrev env : ℕ → ℤ → Env
env http_code total = record {
  heartbeat_at = pos 8000000000;
  heartbeat = undisturbed;
  probed_at = pos 8000000000;
  began_at = pos 8000000000;
  rounds = round;
  waited_at = pos 9000000000;
  curl_wait = undisturbed;
  has_handle = true;
  away = undisturbed;
  transfer = record {
    transfer_ok = true;
    http_code = http_code;
    server_reported_total = total;
    received = 64;
  };
  failing = record {
    counted_at = pos 9000000000;
    refresh = undisturbed;
    refresh_fatal = false;
    judged_at = pos 9500000000;
    lost = false;
  };
}

abbrev reader : Reader
reader = record {
  stream = moved_sample;
  last_seek_time = pos 0;
  last_short_give_up_position = negsuc 0;
  tail_wait = new_episode;
  has_viewer = true;
  last_heartbeat_sent = pos 7000000000;
  consecutive_failures = 0;
  first_failure_at = pos 0;
  fatal_notified = false;
  slept_ms = 0;
}

abbrev undisturbed_program :
    (http_code : ℕ) (total : ℤ) → IsProgram sample_lib (env http_code total)
undisturbed_program http_code total = record {
  heartbeat = λ s. nothing;
  refresh = λ i s. nothing;
  sleep = λ i s. nothing;
  curl_wait = λ s. nothing;
  away = λ s. nothing;
  failing = λ s. nothing;
}

read_once-Sound_example : Sound (pos 64) (read_once (env 206 (pos 50)) (pos 64) reader)
read_once-Sound_example =
    read_once-Sound sample_lib (env 206 (pos 50)) (pos 64) reader (undisturbed_program 206 (pos 50))
      (omega arith) (omega arith) moved_sample-IsValid

abbrev passes : ℕ → Pass
passes i = record { env = env 503 (negsuc 0); aborted = false; busy_ns = 0 }

read_passes-Returns_example : Returns (read_passes 4 passes (reader.slept_ms) (pos 64) 0 reader)
read_passes-Returns_example = read_passes-Returns passes (pos 64) reader (omega arith) (omega arith)
