-- ===== src/Power/Shutdown/Blocker.antt =====
-- domain/machine-shutdown-readiness-blocker.ts and domain/machine-shutdown-readiness-decision.ts: what stands in
-- the way of a shutdown. The checks are those on records that have the fields of their types.
use atlas_manager.Base.{
  ℕ, zero, Bool, true, false, not, ◌||◌, List, [], ◌∷◌, Str, lit, Option, some, none, Result, ok,
  err, ◌>>=◌, ◌>>◌, throw_if, map_result, ltb,
}
use atlas_manager.Base.Int.{ℤ, pos, negsuc, ◌-ℤ◌}
use atlas_manager.Base.Values.{Value}
use atlas_manager.Base.Platform.{Dates, is_canonical_timestamp}
use atlas_manager.Base.Pattern.{is_slug}
use atlas_manager.Base.Sort.{sort_by}
use atlas_manager.Power.Tick.{Occurrence}
use atlas_manager.Power.Interval.{create_occurrence}

pub data Area : Type 0 where
  confirmation services active_tasks backups filesystem event_recording : Area

pub data BlockerCode : Type 0 where
  not_due stale not_confirmed confirmation_unavailable active_tasks_present : BlockerCode
  backup_in_progress backup_state_unknown filesystem_sync_required : BlockerCode
  filesystem_state_unknown event_recording_unavailable : BlockerCode
  service_readiness_unavailable readiness_dependency_failed : BlockerCode
  service_required_during_offline_interval service_running service_failed : BlockerCode
  service_state_unknown : BlockerCode

pub record Blocker : Type 0 where
  pub area : Area
  pub code : BlockerCode
  pub service_id : Option Str
  pub first_required_at : Option Str
  pub active_task_count : Option ℕ

pub data BlockerError : Type 0 where
  invalid_service_id invalid_timestamp invalid_task_count : BlockerError

-- A blocker of an area and a code alone.
abbrev pub plain_blocker : Area → BlockerCode → Blocker
plain_blocker a c = record {
  area = a;
  code = c;
  service_id = none;
  first_required_at = none;
  active_task_count = none;
}

-- A field that is there and does not pass its test.
abbrev pub is_present_and : {A : Type 0} → (A → Bool) → Option A → Bool
is_present_and test none = false
is_present_and test (some a) = test a

unfoldable pub create_blocker : Dates → Blocker → Result BlockerError Blocker
create_blocker d b = do
  throw_if (is_present_and (λ s. not (is_slug s)) b.service_id) invalid_service_id
  throw_if
      (is_present_and (λ s. not (is_canonical_timestamp d (Value.string s))) b.first_required_at)
      invalid_timestamp
  throw_if (is_present_and (λ n. ltb n 1 || ltb 10000 n) b.active_task_count) invalid_task_count
  ok b

abbrev pub area_order : Area → ℕ
area_order confirmation = 0
area_order services = 1
area_order active_tasks = 2
area_order backups = 3
area_order filesystem = 4
area_order event_recording = 5

abbrev pub code_text : BlockerCode → Str
code_text not_due = lit "not_due"
code_text stale = lit "stale"
code_text not_confirmed = lit "not_confirmed"
code_text confirmation_unavailable = lit "confirmation_unavailable"
code_text active_tasks_present = lit "active_tasks_present"
code_text backup_in_progress = lit "backup_in_progress"
code_text backup_state_unknown = lit "backup_state_unknown"
code_text filesystem_sync_required = lit "filesystem_sync_required"
code_text filesystem_state_unknown = lit "filesystem_state_unknown"
code_text event_recording_unavailable = lit "event_recording_unavailable"
code_text service_readiness_unavailable = lit "service_readiness_unavailable"
code_text readiness_dependency_failed = lit "readiness_dependency_failed"
code_text service_required_during_offline_interval = lit "service_required_during_offline_interval"
code_text service_running = lit "service_running"
code_text service_failed = lit "service_failed"
code_text service_state_unknown = lit "service_state_unknown"

-- `a || b` on numbers.
abbrev pub or_next : ℤ → ℤ → ℤ
or_next (pos zero) b = b
or_next a b = a

abbrev pub is_negative : ℤ → Bool
is_negative (pos n) = false
is_negative (negsuc n) = true

abbrev pub or_empty : Option Str → Str
or_empty none = []
or_empty (some s) = s

pub data DecisionOutcome : Type 0 where
  approved rejected : DecisionOutcome

pub record ReadinessDecision : Type 0 where
  pub occurrence : Occurrence
  pub evaluated_at : Str
  pub outcome : DecisionOutcome
  pub blockers : List Blocker

pub data DecisionError : Type 0 where
  invalid_occurrence invalid_evaluated_at invalid_blockers : DecisionError

-- An approval has no blockers, a rejection has one or more.
abbrev pub contradicts : DecisionOutcome → List Blocker → Bool
contradicts approved [] = false
contradicts approved (b ∷ bs) = true
contradicts rejected [] = true
contradicts rejected (b ∷ bs) = false

-- `try { return r } catch { throw e }`.
abbrev pub or_throw : {E F A : Type 0} → Result E A → F → Result F A
or_throw (ok a) e = ok a
or_throw (err x) e = err e

-- `compare` is `String.prototype.localeCompare`.
module _ (d : Dates) (compare : Str → Str → ℤ) where
  abbrev pub compare_blockers : Blocker → Blocker → ℤ
  compare_blockers l r = or_next (pos (area_order l.area) -ℤ pos (area_order r.area)) (
      or_next (compare (or_empty l.service_id) (or_empty r.service_id)) (
        or_next (compare (code_text l.code) (code_text r.code))
          (compare (or_empty l.first_required_at) (or_empty r.first_required_at))))

  unfoldable pub sort_blockers : List Blocker → List Blocker
  sort_blockers bs = sort_by (λ l r. is_negative (compare_blockers l r)) bs

  unfoldable pub create_decision :
      Occurrence → Str → DecisionOutcome → List Blocker → Result DecisionError ReadinessDecision
  create_decision o evaluated_at outcome blockers = do
    valid ← or_throw (create_occurrence d o.scheduled_for o.wake_scheduled_for) invalid_occurrence
    throw_if (not (is_canonical_timestamp d (Value.string evaluated_at))) invalid_evaluated_at
    checked ← or_throw (map_result (create_blocker d) blockers) invalid_blockers
    throw_if (contradicts outcome (sort_blockers checked)) invalid_blockers
    ok (record {
      occurrence = valid;
      evaluated_at = evaluated_at;
      outcome = outcome;
      blockers = elim outcome [ approved ↦ [] | rejected ↦ sort_blockers checked ];
    })
