-- ===== src/Services/Readiness.antt =====
-- wait-for-registered-service-readiness.ts: a service is polled until it is ready or its time is over.
pub mod Laws
pub mod Examples
use atlas_manager.Base.{
  ℕ, zero, suc, ◌+◌, ◌-◌, ◌/◌, Bool, true, false, Str, Option, some, none, Result, ok, err, ◌>>=◌,
  ◌>>◌, throw_if, if◌then◌else◌,
}
use atlas_manager.Base.Int.{ℤ, pos, negsuc, ◌+ℤ◌, ◌-ℤ◌, ltb_ℤ, leb_ℤ}

pub record ReadinessTimes : Type 0 where
  pub timeout_milliseconds : ℤ
  pub poll_interval_milliseconds : ℤ

-- `check_failed` is an error of the reader.
pub data WaitError : Type 0 where
  service_not_found invalid_policy readiness_timeout check_failed : WaitError

-- The integer of a positive number.
abbrev pub positive : ℤ → Result WaitError ℕ
positive (pos zero) = err invalid_policy
positive (pos (suc n)) = ok (suc n)
positive (negsuc n) = err invalid_policy

-- `computeMaxAttempts` on integers: the quotient rounded up, and one.
abbrev pub attempts_of : ℕ → ℕ → ℕ
attempts_of timeout interval = suc ((timeout + interval - 1) / interval)

-- What a check of the readiness finds, with the time of a service that is ready.
pub data CheckResult : Type 0 where
  ready : Str → CheckResult
  not_ready check_threw : CheckResult

-- The collaborators, on the states `W` of the world.
pub record WaitPorts (W : Type 0) : Type 0 where
  pub find_by_id : Str → Option ReadinessTimes
  pub check : Str → W → W × CheckResult
  pub sleep : ℤ → W → W
  pub now : W → ℤ

abbrev pub wait_time : ℤ → ℤ → ℤ
wait_time interval remaining = if ltb_ℤ interval remaining then interval else remaining

-- How long the loop sleeps after a check that was not ready; `none` is the timeout.
abbrev pub next_wait : ℤ → ℤ → ℤ → Option ℤ
next_wait interval deadline now =
    if leb_ℤ deadline now
    then none
    else if ltb_ℤ (wait_time interval (deadline -ℤ now)) (pos 1)
    then none
    else some (wait_time interval (deadline -ℤ now))

module _ {W : Type 0} (ports : WaitPorts W) where
  -- The loop, with the attempts that are left.
  unfoldable pub attempt : Str → ℤ → ℤ → ℕ → W → W × Result WaitError Str
  attempt id interval deadline zero w = (w, err readiness_timeout)
  attempt id interval deadline (suc left) w =
      let (w', checked) = ports.check id w in
      elim checked [
        | check_threw ↦ (w', err check_failed)
        | ready observed_at ↦ (w', ok observed_at)
        | not_ready ↦ elim (next_wait interval deadline (ports.now w')) [
          | none ↦ (w', err readiness_timeout)
          | some t ↦ attempt id interval deadline left (ports.sleep t w')
        ]
      ]

  abbrev pub wait_with : Str → ℕ → ℕ → W → W × Result WaitError Str
  wait_with id timeout interval w =
      attempt id (pos interval) (ports.now w +ℤ pos timeout) (attempts_of timeout interval) w

  abbrev pub wait_checked :
      Str → Result WaitError ℕ → Result WaitError ℕ → W → W × Result WaitError Str
  wait_checked id (err e) interval w = (w, err e)
  wait_checked id (ok timeout) (err e) w = (w, err e)
  wait_checked id (ok timeout) (ok interval) w = wait_with id timeout interval w

  unfoldable pub wait_for_readiness : Str → W → W × Result WaitError Str
  wait_for_readiness id w = elim (ports.find_by_id id) [
    | none ↦ (w, err service_not_found)
    | some p ↦
        wait_checked id (positive p.timeout_milliseconds) (positive p.poll_interval_milliseconds) w
  ]
