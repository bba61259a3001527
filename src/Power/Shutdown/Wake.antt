-- ===== src/Power/Shutdown/Wake.antt =====
-- domain/wake-alarm-state.ts, wake-alarm-mutation-result.ts and machine-shutdown-result.ts: what the controllers
-- of the wake alarm and of the shutdown report. The checks are those on records that have the fields of their
-- types.
use atlas_manager.Base.{
  Bool, true, false, not, ◌||◌, Str, str_eq, Result, ok, ◌>>=◌, ◌>>◌, throw_if,
}
use atlas_manager.Base.Values.{Value}
use atlas_manager.Base.Platform.{Dates, is_canonical_timestamp}
use atlas_manager.Power.Shutdown.Blocker.{or_throw}

pub data WakeState : Type 0 where
  unsupported not_scheduled : WakeState
  scheduled : Str → WakeState

pub data WakeOperation : Type 0 where
  schedule cancel : WakeOperation

pub data WakeOutcome : Type 0 where
  scheduled replaced unchanged cancelled not_scheduled : WakeOutcome

pub record WakeMutation : Type 0 where
  pub operation : WakeOperation
  pub requested_at : Str
  pub outcome : WakeOutcome
  pub before : WakeState
  pub later : WakeState

pub data WakeError : Type 0 where
  invalid_scheduled_for invalid_requested_at invalid_before invalid_after : WakeError
  unsupported_state invalid_transition : WakeError

abbrev pub is_unsupported : WakeState → Bool
is_unsupported unsupported = true
is_unsupported _ = false

-- `isValidTransition`.
unfoldable pub is_valid_transition : WakeOperation → WakeOutcome → WakeState → WakeState → Bool
is_valid_transition schedule WakeOutcome.scheduled WakeState.not_scheduled (WakeState.scheduled t) =
    true
is_valid_transition schedule replaced (WakeState.scheduled s) (WakeState.scheduled t) =
    not (str_eq s t)
is_valid_transition schedule unchanged (WakeState.scheduled s) (WakeState.scheduled t) = str_eq s t
is_valid_transition cancel cancelled (WakeState.scheduled s) WakeState.not_scheduled = true
is_valid_transition cancel WakeOutcome.not_scheduled WakeState.not_scheduled
      WakeState.not_scheduled =
    true
is_valid_transition _ _ _ _ = false

pub data ShutdownOutcome : Type 0 where
  simulated accepted : ShutdownOutcome

pub record ShutdownResult : Type 0 where
  pub requested_at : Str
  pub outcome : ShutdownOutcome

module _ (d : Dates) where
  unfoldable pub create_wake_state : WakeState → Result WakeError WakeState
  create_wake_state (WakeState.scheduled t) = do
    throw_if (not (is_canonical_timestamp d (Value.string t))) invalid_scheduled_for
    ok (WakeState.scheduled t)
  create_wake_state s = ok s

  abbrev pub mutation_of : WakeMutation → WakeState → WakeState → Result WakeError WakeMutation
  mutation_of m before later = do
    throw_if (is_unsupported before || is_unsupported later) unsupported_state
    throw_if (not (is_valid_transition m.operation m.outcome before later)) invalid_transition
    ok (record m { before = before; later = later })

  abbrev pub mutation_from : WakeMutation → WakeState → Result WakeError WakeMutation
  mutation_from m before =
      or_throw (create_wake_state m.later) invalid_after >>= mutation_of m before

  unfoldable pub create_wake_mutation : WakeMutation → Result WakeError WakeMutation
  unfolding create_wake_state is_valid_transition
  create_wake_mutation m = do
    throw_if (not (is_canonical_timestamp d (Value.string m.requested_at))) invalid_requested_at
    before ← or_throw (create_wake_state m.before) invalid_before
    mutation_from m before

  unfoldable pub create_shutdown_result : ShutdownResult → Result WakeError ShutdownResult
  create_shutdown_result r = do
    throw_if (not (is_canonical_timestamp d (Value.string r.requested_at))) invalid_requested_at
    ok r
