-- ===== src/Power/Shutdown/Result/Laws.antt =====
-- What a checked result keeps of its parts.
use atlas_manager.Base.{
  bind-ok, then-ok, ◌≡◌, refl, ap, Bool, true, false, not, ◌||◌, Str, str_eq, str_eq→eq, Option,
  some, none, Result, ok, err, ◌>>=◌, ◌>>◌, throw_if, arith,
}
use atlas_manager.Base.Int.{ℤ}
use atlas_manager.Base.Platform.{Dates, is_canonical_timestamp}
use atlas_manager.Power.Tick.{Occurrence, ExecutionOutcome}
use atlas_manager.Power.Interval.{create_occurrence}
use atlas_manager.Power.Shutdown.Blocker.{or_throw, ReadinessDecision}
use atlas_manager.Power.Shutdown.Wake.{
  WakeError, mutation_of, mutation_from, is_unsupported, is_valid_transition, WakeState,
  create_wake_state, WakeOperation, WakeMutation, ShutdownResult, create_wake_mutation,
  create_shutdown_result,
}
use atlas_manager.Power.Shutdown.Report.{
  PreparationReport, create_preparation_report, if_present, is_present,
}
use atlas_manager.Base.Values.{Value}
use mathlib.Core.Path.{subst}
use atlas_manager.Power.Shutdown.Plan.{recreate_decision}
use atlas_manager.Power.Shutdown.Result.{
  ExecutionResult, ResultFault, result_of, executed_with, executed_by, executed_after, rejected_by,
  rejected_with, create_execution_result, is_other_wake, is_other_effect, is_scheduled_for,
  result_with, result_after, plain_result, is_report_absent_or_ready,
}

or_throw-ok : {E F A : Type 0} (r : Result E A) (e : F) {a : A} → or_throw r e ≡ ok a → r ≡ ok a
or_throw-ok (ok a) e h = cc
or_throw-ok (err x) e h = cc

pub create_occurrence-eq :
    (d : Dates) (o : Occurrence) {v : Occurrence}
    → create_occurrence d o.scheduled_for o.wake_scheduled_for ≡ ok v
    → v ≡ o
unfolding create_occurrence
create_occurrence-eq d o h = ground arith

or_false : (a b : Bool) → (a || b) ≡ false → (a ≡ false) × (b ≡ false)
or_false true b h = cc
or_false false b h = (refl, h)

create_wake_state-eq :
    (d : Dates) (s : WakeState) {t : WakeState} → create_wake_state d s ≡ ok t → t ≡ s
unfolding create_wake_state
create_wake_state-eq d WakeState.unsupported h = cc
create_wake_state-eq d WakeState.not_scheduled h = cc
create_wake_state-eq d (WakeState.scheduled x) h = ground arith

-- The alarm is set, at the time of the execution, for the wake time of the occurrence.
abbrev pub SetsAlarm : Occurrence → Str → WakeMutation → Type 0
SetsAlarm o at m =
    (m.operation ≡ WakeOperation.schedule)
    × (m.requested_at ≡ at)
    × (m.later ≡ WakeState.scheduled o.wake_scheduled_for)

of_scheduled : (t : Str) (s : WakeState) → is_scheduled_for t s ≡ true → s ≡ WakeState.scheduled t
of_scheduled t WakeState.unsupported h = cc
of_scheduled t WakeState.not_scheduled h = cc
of_scheduled t (WakeState.scheduled x) h = ap WakeState.scheduled (str_eq→eq x t h)

is_set-SetsAlarm :
    (o : Occurrence) (at : Str) (m : WakeMutation) → is_other_wake o at m ≡ false → SetsAlarm o at m
is_set-SetsAlarm o at m h =
    ground (arith, str_eq→eq m.requested_at at, of_scheduled o.wake_scheduled_for m.later)

mutation_of-eq :
    (d : Dates) (m : WakeMutation) (b l : WakeState) {n : WakeMutation}
    → b ≡ m.before
    → l ≡ m.later
    → mutation_of d m b l ≡ ok n
    → n ≡ m
mutation_of-eq d m b l e e' h =
    go (is_unsupported b || is_unsupported l) (not (is_valid_transition m.operation m.outcome b l))
      h
  where
    go :
        (x y : Bool) {n : WakeMutation}
        → (throw_if x WakeError.unsupported_state
            >> (throw_if y WakeError.invalid_transition >> ok (record m { before = b; later = l })))
          ≡ ok n
        → n ≡ m
    go true y h = cc
    go false true h = cc
    go false false h = ground arith

pub create_wake_mutation-eq :
    (d : Dates) (m : WakeMutation) {n : WakeMutation} → create_wake_mutation d m ≡ ok n → n ≡ m
unfolding create_wake_mutation
create_wake_mutation-eq d m h =
    let first = or_throw (create_wake_state d m.before) WakeError.invalid_before in
    let (b, e, k) =
      bind-ok first (mutation_from d m)
        (then-ok (not (is_canonical_timestamp d (Value.string m.requested_at)))
          WakeError.invalid_requested_at (first >>= mutation_from d m) h).1 in
    let (l, e', k') =
      bind-ok (or_throw (create_wake_state d m.later) WakeError.invalid_after) (mutation_of d m b)
        k in
    mutation_of-eq d m b l
      (create_wake_state-eq d m.before
        (or_throw-ok (create_wake_state d m.before) WakeError.invalid_before e))
      (create_wake_state-eq d m.later
        (or_throw-ok (create_wake_state d m.later) WakeError.invalid_after e'))
      k'

create_wake_mutation-SetsAlarm :
    (d : Dates) (o : Occurrence) (at : Str) (m : WakeMutation) {n : WakeMutation}
    → create_wake_mutation d m ≡ ok n
    → is_other_wake o at n ≡ false
    → SetsAlarm o at m
create_wake_mutation-SetsAlarm d o at m h k =
    is_set-SetsAlarm o at m
      (subst (λ x. is_other_wake o at x ≡ false) (create_wake_mutation-eq d m h) k)

module _ (d : Dates) (compare : Str → Str → ℤ) where
  rejected_by-outcome :
      (r : ExecutionResult) (decision : ReadinessDecision) {s : ExecutionResult}
      → rejected_by d compare r decision ≡ ok s
      → s.outcome ≡ r.outcome
  rejected_by-outcome r decision h = ground arith

  rejected_with-outcome :
      (r : ExecutionResult) (decision : Option ReadinessDecision) {s : ExecutionResult}
      → rejected_with d compare r decision ≡ ok s
      → s.outcome ≡ r.outcome
  rejected_with-outcome r none h = cc
  rejected_with-outcome r (some input) h =
      let (decision, e, k) =
        bind-ok (or_throw (recreate_decision d compare input) ResultFault.invalid_effect)
          (rejected_by d compare r) h in
      rejected_by-outcome r decision k

  -- What the result says of the wake alarm.
  abbrev SetsPresent : Occurrence → Str → Option WakeMutation → Type 0
  SetsPresent o at none = ⊥
  SetsPresent o at (some m) = SetsAlarm o at m

  executed_by-ok :
      (r : ExecutionResult) (wake : WakeMutation) (shutdown : ShutdownResult) {s : ExecutionResult}
      → executed_by d compare r wake shutdown ≡ ok s
      → (s.outcome ≡ r.outcome) × (is_other_effect r wake shutdown ≡ false)
  executed_by-ok r wake shutdown h =
      go (is_other_effect r wake shutdown) (not (is_report_absent_or_ready r.preparation_report)) h
    where
      go :
          (b c : Bool) {s : ExecutionResult}
          → (throw_if b ResultFault.invalid_effect
              >> (throw_if c ResultFault.invalid_effect
                  >> ok (record (plain_result r.occurrence r.processed_at r.outcome) {
                    preparation_report = r.preparation_report;
                    wake_mutation = some wake;
                    shutdown_result = some shutdown;
                  })))
            ≡ ok s
          → (s.outcome ≡ r.outcome) × (b ≡ false)
      go true c h = cc
      go false true h = cc
      go false false h = (cc, refl)

  executed_with-ok :
      (r : ExecutionResult) (m : Option WakeMutation) (n : Option ShutdownResult)
      {s : ExecutionResult}
      → executed_with d compare r m n ≡ ok s
      → (s.outcome ≡ r.outcome) × SetsPresent r.occurrence r.processed_at m
  executed_with-ok r none n h = cc
  executed_with-ok r (some x) none h = cc
  executed_with-ok r (some x) (some y) h =
      let (wake, e, k) =
        bind-ok (or_throw (create_wake_mutation d x) ResultFault.invalid_effect)
          (executed_after d compare r y) h in
      let (shutdown, e', k') =
        bind-ok (or_throw (create_shutdown_result d y) ResultFault.invalid_effect)
          (executed_by d compare r wake) k in
      let (same, other) = executed_by-ok r wake shutdown k' in
      (
        same,
        create_wake_mutation-SetsAlarm d r.occurrence r.processed_at x
            (or_throw-ok (create_wake_mutation d x) ResultFault.invalid_effect e)
            (or_false (is_other_wake r.occurrence r.processed_at wake)
              (not (str_eq shutdown.requested_at r.processed_at)) other).0,
      )

  result_of-outcome :
      (x : ExecutionOutcome) (r : ExecutionResult) {s : ExecutionResult}
      → result_of d compare x r ≡ ok s
      → s.outcome ≡ r.outcome
  result_of-outcome ExecutionOutcome.not_due r h = ground arith
  result_of-outcome ExecutionOutcome.stale r h = ground arith
  result_of-outcome ExecutionOutcome.duplicate r h = ground arith
  result_of-outcome ExecutionOutcome.rejected r h =
      rejected_with-outcome r r.decision
        (then-ok (is_present r.wake_mutation || is_present r.shutdown_result)
          ResultFault.invalid_effect (rejected_with d compare r r.decision) h).1
  result_of-outcome ExecutionOutcome.preparation_incomplete r h = ground arith
  result_of-outcome ExecutionOutcome.executed r h =
      (executed_with-ok r r.wake_mutation r.shutdown_result h).0

  create_execution_result-ok :
      (r : ExecutionResult) {s : ExecutionResult}
      → create_execution_result d compare r ≡ ok s
      → (report : Option PreparationReport) × (result_of d compare r.outcome
            (record r { preparation_report = report })
          ≡ ok s)
  unfolding create_execution_result
  create_execution_result-ok r {s} h =
      let (o, e, k) =
        bind-ok
          (or_throw (create_occurrence d r.occurrence.scheduled_for r.occurrence.wake_scheduled_for)
            ResultFault.invalid_occurrence)
          (result_after d compare r) h in
      let q =
        or_throw (if_present (create_preparation_report d compare) r.preparation_report)
          ResultFault.invalid_effect in
      let (report, e', k') =
        bind-ok q (result_with d compare r o)
          (then-ok (not (is_canonical_timestamp d (Value.string r.processed_at)))
            ResultFault.invalid_processed_at (q >>= result_with d compare r o) k).1 in
      (
        report,
        subst (λ v. result_with d compare r v report ≡ ok s)
            (create_occurrence-eq d r.occurrence (or_throw-ok _ ResultFault.invalid_occurrence e))
            k',
      )

  pub create_execution_result-outcome :
      (r : ExecutionResult) {s : ExecutionResult}
      → create_execution_result d compare r ≡ ok s
      → s.outcome ≡ r.outcome
  create_execution_result-outcome r h =
      let (report, k) = create_execution_result-ok r h in
      result_of-outcome r.outcome (record r { preparation_report = report }) k

  -- A result that reports an execution says that the alarm was set.
  pub create_execution_result-SetsAlarm :
      (r : ExecutionResult) (m : WakeMutation) {s : ExecutionResult}
      → r.outcome ≡ ExecutionOutcome.executed
      → r.wake_mutation ≡ some m
      → create_execution_result d compare r ≡ ok s
      → SetsAlarm r.occurrence r.processed_at m
  create_execution_result-SetsAlarm r m {s} e e' h =
      let (report, k) = create_execution_result-ok r h in
      let q : ExecutionResult = record r { preparation_report = report } in
      subst (SetsPresent r.occurrence r.processed_at) e'
        (executed_with-ok q r.wake_mutation r.shutdown_result
          (subst (λ x. result_of d compare x q ≡ ok s) e k)).1
