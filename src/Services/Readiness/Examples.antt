-- ===== src/Services/Readiness/Examples.antt =====
-- A service that never gets ready, on a clock that only the sleeps move.
use atlas_manager.Base.{◌≡◌, refl, arith, lit, some, err}
use atlas_manager.Base.Int.{◌-ℤ◌, ℤ, pos, ◌+ℤ◌, ◌≤ℤ◌}
use atlas_manager.Services.Readiness.{
  ReadinessTimes, WaitPorts, not_ready, readiness_timeout, attempt, wait_for_readiness,
}
use atlas_manager.Services.Readiness.Laws.{wait_for_readiness-timeout}

abbrev times : ReadinessTimes
times = record { timeout_milliseconds = pos 250; poll_interval_milliseconds = pos 100 }

-- The world is the time.
abbrev ports : WaitPorts ℤ
ports = record {
  find_by_id = λ id. some times;
  check = λ id w. (w, not_ready);
  sleep = λ t w. w +ℤ t;
  now = λ w. w;
}

times_out : wait_for_readiness ports (lit "db") (pos 1000) ≡ (pos 1250, err readiness_timeout)
unfolding wait_for_readiness attempt ◌+ℤ◌ ◌-ℤ◌
times_out = refl

wait_for_readiness-timeout_example : (pos 1000 +ℤ pos 250) ≤ℤ pos 1250
wait_for_readiness-timeout_example =
    wait_for_readiness-timeout ports (lit "db") times (pos 1000) (pos 1250) 249 99
      (λ w. omega arith) (λ t w h. omega arith) refl refl refl times_out
