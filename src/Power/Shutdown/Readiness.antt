-- ===== src/Power/Shutdown/Readiness.antt =====
-- application/evaluate-machine-shutdown-readiness.ts: whether the machine may be shut down now.
pub mod Collected
pub mod Keeps
pub mod Laws
use atlas_manager.Base.{
  ℕ, Bool, true, false, List, [], ◌∷◌, ◌++◌, Str, Option, some, none, Result, ok, err, map_result,
  if◌then◌else◌,
}
use atlas_manager.Base.Int.{ℤ, ltb_ℤ, leb_ℤ}
use atlas_manager.Base.Platform.{Dates}
use atlas_manager.Power.Tick.{Occurrence}
use atlas_manager.Power.Interval.{IntervalError, create_occurrence}
use atlas_manager.Power.Shutdown.Action.{Action, lift, after, ◌>>=◌}
use atlas_manager.Power.Shutdown.Blocker.{
  Area, Blocker, BlockerCode, BlockerError, DecisionError, DecisionOutcome, approved, rejected,
  ReadinessDecision, create_blocker, create_decision, plain_blocker, or_throw,
}

-- `MachineReadinessState`.
pub data ReadinessState : Type 0 where
  ready : ReadinessState
  tasks_blocked : ℕ → ReadinessState
  blocked : Area → BlockerCode → ReadinessState

-- A reader reads the world at an occurrence and an instant; it may throw.
abbrev pub Reader : Type 0 → Type 0 → Type 0
Reader W A = Occurrence → Str → Action W (Unit {0}) A

pub record Readers (W : Type 0) : Type 0 where
  pub confirmation : Reader W Bool
  pub services : Reader W (List Blocker)
  pub active_tasks : Reader W ReadinessState
  pub backups : Reader W ReadinessState
  pub filesystem : Reader W ReadinessState
  pub event_recording : Reader W ReadinessState

pub data EvaluationError : Type 0 where
  occurrence_error : IntervalError → EvaluationError
  decision_error : DecisionError → EvaluationError

-- `a < b` and `a >= b` on times that may not be numbers.
abbrev pub is_before : Option ℤ → Option ℤ → Bool
is_before (some a) (some b) = ltb_ℤ a b
is_before a b = false

abbrev pub is_at_or_after : Option ℤ → Option ℤ → Bool
is_at_or_after (some a) (some b) = leb_ℤ b a
is_at_or_after a b = false

abbrev pub is_not_empty : {A : Type 0} → List A → Bool
is_not_empty [] = false
is_not_empty (x ∷ xs) = true

abbrev pub occurrence_of : {A : Type 0} → Result IntervalError A → Result EvaluationError A
occurrence_of (ok a) = ok a
occurrence_of (err e) = err (occurrence_error e)

abbrev pub decision_of : {A : Type 0} → Result DecisionError A → Result EvaluationError A
decision_of (ok a) = ok a
decision_of (err e) = err (decision_error e)

module _ (d : Dates) (compare : Str → Str → ℤ) where
  abbrev pub services_unavailable : List Blocker
  services_unavailable = plain_blocker Area.services BlockerCode.service_readiness_unavailable ∷ []

  abbrev pub checked_services : Result BlockerError (List Blocker) → List Blocker
  checked_services (ok bs) = bs
  checked_services (err e) = services_unavailable

  -- The `catch` of the services' readiness covers their blockers' checks.
  abbrev pub service_blockers : Result (Unit {0}) (List Blocker) → List Blocker
  service_blockers (err e) = services_unavailable
  service_blockers (ok bs) = checked_services (map_result (create_blocker d) bs)

  abbrev pub checked_blocker : Area → Result BlockerError Blocker → List Blocker
  checked_blocker area (ok b) = b ∷ []
  checked_blocker area (err e) = plain_blocker area BlockerCode.readiness_dependency_failed ∷ []

  abbrev pub blocker_or : Area → Blocker → List Blocker
  blocker_or area b = checked_blocker area (create_blocker d b)

  abbrev pub tasks_blocker : ℕ → Blocker
  tasks_blocker n = record (plain_blocker Area.active_tasks BlockerCode.active_tasks_present) {
    active_task_count = some n;
  }

  abbrev pub state_blockers : Area → Result (Unit {0}) ReadinessState → List Blocker
  state_blockers area (err e) = plain_blocker area BlockerCode.readiness_dependency_failed ∷ []
  state_blockers area (ok ready) = []
  state_blockers area (ok (tasks_blocked n)) = blocker_or area (tasks_blocker n)
  state_blockers area (ok (blocked a c)) = blocker_or area (plain_blocker a c)

  -- The blockers that all readers report, in the order of the areas.
  unfoldable pub collect_blockers :
      {W : Type 0} → Readers W → Occurrence → Str → W → W × List Blocker
  collect_blockers readers o at w =
      let s = readers.services o at w in
      let t = readers.active_tasks o at s.0 in
      let b = readers.backups o at t.0 in
      let f = readers.filesystem o at b.0 in
      let e = readers.event_recording o at f.0 in
      (
        e.0,
        service_blockers s.1
            ++ (state_blockers Area.active_tasks t.1
                ++ (state_blockers Area.backups b.1
                    ++ (state_blockers Area.filesystem f.1
                        ++ state_blockers Area.event_recording e.1))),
      )

  abbrev pub decide_with :
      Occurrence → Str → DecisionOutcome → List Blocker → Result EvaluationError ReadinessDecision
  decide_with o at outcome bs = decision_of (create_decision d compare o at outcome bs)

  abbrev pub reject_with : Occurrence → Str → BlockerCode → Result EvaluationError ReadinessDecision
  reject_with o at code = decide_with o at rejected (plain_blocker Area.confirmation code ∷ [])

  abbrev pub decide_collected :
      {W : Type 0}
      → Occurrence
      → Str
      → W × List Blocker
      → W × Result EvaluationError ReadinessDecision
  decide_collected o at (w, bs) =
      (w, decide_with o at (if is_not_empty bs then rejected else approved) bs)

  abbrev pub evaluate_confirmed :
      {W : Type 0}
      → Readers W
      → Occurrence
      → Str
      → W × Result (Unit {0}) Bool
      → W × Result EvaluationError ReadinessDecision
  evaluate_confirmed readers o at (w, err e) =
      (w, reject_with o at BlockerCode.confirmation_unavailable)
  evaluate_confirmed readers o at (w, ok false) = (w, reject_with o at BlockerCode.not_confirmed)
  evaluate_confirmed readers o at (w, ok true) =
      decide_collected o at (collect_blockers readers o at w)

  abbrev pub evaluate_valid :
      {W : Type 0}
      → Readers W
      → Reader W Bool
      → Str
      → Occurrence
      → Action W EvaluationError ReadinessDecision
  evaluate_valid readers confirmation at o =
      if is_before (d.parse at) (d.parse o.scheduled_for)
      then lift (reject_with o at BlockerCode.not_due)
      else if is_at_or_after (d.parse at) (d.parse o.wake_scheduled_for)
      then lift (reject_with o at BlockerCode.stale)
      else λ w. evaluate_confirmed readers o at (confirmation o at w)

  unfoldable pub evaluate_at :
      {W : Type 0}
      → Readers W
      → Reader W Bool
      → Occurrence
      → Str
      → Action W EvaluationError ReadinessDecision
  unfolding collect_blockers
  evaluate_at readers confirmation input at =
      lift (occurrence_of (create_occurrence d input.scheduled_for input.wake_scheduled_for))
      >>= evaluate_valid readers confirmation at
