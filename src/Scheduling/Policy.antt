-- ===== src/Scheduling/Policy.antt =====
-- service-availability-mode.ts, service-schedule-timezone.ts and service-availability-policy.ts.
use atlas_manager.Base.{
  Bool, true, false, List, [], ◌∷◌, Str, lit, str_eq, Result, ok, err, some, none, ◌>>=◌, ◌>>◌,
  throw_if, not,
}
use atlas_manager.Base.Values.{
  Value, Fields, find_name, as_object, has_exact_fields, read_field, has_own, get_field,
}
use atlas_manager.Scheduling.Errors.{
  SchedulingError, invalid_availability_mode, invalid_schedule_timezone,
  invalid_service_availability_policy,
}
use atlas_manager.Scheduling.Schedule.{Schedule, create_schedule}

pub data Mode : Type 0 where
  always scheduled manual disabled : Mode

abbrev pub mode_allowlist : List (Str × Mode)
mode_allowlist =
    (lit "always", always)
    ∷ (lit "scheduled", scheduled)
    ∷ (lit "manual", manual)
    ∷ (lit "disabled", disabled)
    ∷ []

unfoldable pub create_mode : Value → Result SchedulingError Mode
unfolding str_eq
create_mode (Value.string s) = elim (find_name mode_allowlist s) [
  | some m ↦ ok m
  | none ↦ err invalid_availability_mode
]
create_mode v = err invalid_availability_mode

pub data Timezone : Type 0 where
  america_sao_paulo : Timezone

abbrev pub timezone_name : Timezone → Str
timezone_name america_sao_paulo = lit "America/Sao_Paulo"

abbrev pub timezone_allowlist : List (Str × Timezone)
timezone_allowlist = (lit "America/Sao_Paulo", america_sao_paulo) ∷ []

unfoldable pub create_timezone : Value → Result SchedulingError Timezone
unfolding str_eq
create_timezone (Value.string s) = elim (find_name timezone_allowlist s) [
  | some z ↦ ok z
  | none ↦ err invalid_schedule_timezone
]
create_timezone v = err invalid_schedule_timezone

-- A policy of the mode `scheduled` alone has a time zone and a schedule.
pub data Policy : Type 0 where
  always_policy manual_policy disabled_policy : Policy
  scheduled_policy : Timezone → Schedule → Policy

abbrev pub mode_of : Policy → Mode
mode_of always_policy = always
mode_of manual_policy = manual
mode_of disabled_policy = disabled
mode_of (scheduled_policy z s) = scheduled

abbrev pub non_scheduled_policy_fields : List Str
non_scheduled_policy_fields = lit "mode" ∷ []

abbrev pub scheduled_policy_fields : List Str
scheduled_policy_fields = lit "mode" ∷ lit "timezone" ∷ lit "windows" ∷ []

abbrev pub is_undefined : Value → Bool
is_undefined Value.undefined = true
is_undefined v = false

-- A policy of a mode that is not `scheduled` has the field `mode` alone.
abbrev pub plain_policy : Policy → Fields → Result SchedulingError Policy
plain_policy p fs = do
  throw_if (not (has_exact_fields non_scheduled_policy_fields fs))
      invalid_service_availability_policy
  ok p

unfoldable pub policy_of_mode : Mode → Fields → Result SchedulingError Policy
unfolding create_timezone create_schedule has_exact_fields get_field
policy_of_mode always fs = plain_policy always_policy fs
policy_of_mode manual fs = plain_policy manual_policy fs
policy_of_mode disabled fs = plain_policy disabled_policy fs
policy_of_mode scheduled fs = do
  throw_if (not (has_exact_fields scheduled_policy_fields fs)) invalid_service_availability_policy
  throw_if (is_undefined (read_field fs (lit "timezone"))) invalid_service_availability_policy
  throw_if (is_undefined (read_field fs (lit "windows"))) invalid_service_availability_policy
  timezone ← create_timezone (read_field fs (lit "timezone"))
  schedule ← create_schedule (read_field fs (lit "windows"))
  ok (scheduled_policy timezone schedule)

unfoldable pub create_policy : Value → Result SchedulingError Policy
unfolding create_mode policy_of_mode
create_policy v = elim (as_object v) [
  | some fs ↦ do
    throw_if (not (has_own fs (lit "mode"))) invalid_service_availability_policy
    mode ← create_mode (read_field fs (lit "mode"))
    policy_of_mode mode fs
  | none ↦ err invalid_service_availability_policy
]
