-- ===== src/Scheduling/Override.antt =====
-- service-availability-override.ts and service-availability-override-evaluator.ts.
pub mod Laws
use atlas_manager.Base.{
  ℕ, ◌≡◌, Bool, true, false, not, List, [], ◌∷◌, Str, lit, str_eq, Result, ok, err, Option, some,
  none, ◌>>=◌, ◌>>◌, throw_if, if◌then◌else◌, ◌&&◌,
}
use atlas_manager.Base.Int.{ℤ, leb_ℤ}
use atlas_manager.Base.Platform.{Zone, Dates}
use atlas_manager.Base.Values.{
  Value, Fields, find_name, as_object, has_exact_fields, read_field, get_field,
}
use atlas_manager.Scheduling.Errors.{
  SchedulingError, invalid_service_availability_override,
  invalid_service_availability_override_kind, invalid_service_availability_override_expiration,
  invalid_service_availability_override_reference_instant,
  non_future_service_availability_override_expiration,
}
use atlas_manager.Scheduling.Policy.{Policy, disabled_policy}
use atlas_manager.Scheduling.Evaluator.{
  Expectation, available, manual, disabled, evaluation_timestamp, evaluate_at,
}

pub data OverrideKind : Type 0 where
  keep_available suspend_schedule : OverrideKind

pub record Override : Type 0 where
  pub kind : OverrideKind
  pub expires_at : Str

abbrev pub kind_eq : OverrideKind → OverrideKind → Bool
kind_eq keep_available keep_available = true
kind_eq suspend_schedule suspend_schedule = true
kind_eq _ _ = false

unfoldable pub is_same_override : Override → Override → Bool
is_same_override left right =
    kind_eq left.kind right.kind && str_eq left.expires_at right.expires_at

abbrev pub override_kind_allowlist : List (Str × OverrideKind)
override_kind_allowlist =
    (lit "keep_available", keep_available) ∷ (lit "suspend_schedule", suspend_schedule) ∷ []

abbrev pub override_fields : List Str
override_fields = lit "kind" ∷ lit "expiresAt" ∷ []

unfoldable pub validate_override_kind : Value → Result SchedulingError OverrideKind
unfolding str_eq
validate_override_kind (Value.string s) = elim (find_name override_kind_allowlist s) [
  | some k ↦ ok k
  | none ↦ err invalid_service_availability_override_kind
]
validate_override_kind v = err invalid_service_availability_override_kind

-- The text of the expiration and the time it stands for.
unfoldable pub validate_expiration : Dates → Value → Result SchedulingError (Str × ℤ)
validate_expiration d (Value.string s) = elim (d.parse s) [
  | some t ↦
      if str_eq (d.to_iso t) s
      then ok (s, t)
      else err invalid_service_availability_override_expiration
  | none ↦ err invalid_service_availability_override_expiration
]
validate_expiration d v = err invalid_service_availability_override_expiration

unfoldable pub validate_reference_instant : Value → Result SchedulingError ℤ
validate_reference_instant (Value.date (some t)) = ok t
validate_reference_instant v = err invalid_service_availability_override_reference_instant

abbrev pub override_from : Dates → Fields → Value → Result SchedulingError Override
override_from d fs reference = do
  kind ← validate_override_kind (read_field fs (lit "kind"))
  expiration ← validate_expiration d (read_field fs (lit "expiresAt"))
  now ← validate_reference_instant reference
  throw_if (leb_ℤ expiration.1 now) non_future_service_availability_override_expiration
  ok (record { kind = kind; expires_at = expiration.0 })

unfoldable pub create_override : Dates → Value → Value → Result SchedulingError Override
unfolding validate_override_kind validate_expiration validate_reference_instant has_exact_fields
    get_field
create_override d input reference = elim (as_object input) [
  | some fs ↦ do
    throw_if (not (has_exact_fields override_fields fs)) invalid_service_availability_override
    override_from d fs reference
  | none ↦ err invalid_service_availability_override
]

-- `timestamp >= Date.parse(override.expiresAt)`; a comparison with `NaN` is false.
unfoldable pub is_expired_at : Dates → Override → ℤ → Bool
is_expired_at d o t = elim (d.parse o.expires_at) [ some e ↦ leb_ℤ e t | none ↦ false ]

abbrev pub override_expectation : OverrideKind → Expectation
override_expectation keep_available = available
override_expectation suspend_schedule = manual

-- An override in force: a disabled service stays disabled.
abbrev pub evaluate_override : Policy → OverrideKind → Expectation
evaluate_override disabled_policy k = disabled
evaluate_override p k = override_expectation k

unfoldable pub evaluate_with_override :
    Dates → Zone → Policy → Option Override → Value → Result SchedulingError Expectation
unfolding evaluation_timestamp is_expired_at
evaluate_with_override d zone policy none instant = do
  t ← evaluation_timestamp instant
  evaluate_at zone policy t
evaluate_with_override d zone policy (some o) instant = do
  t ← evaluation_timestamp instant
  if is_expired_at d o t then evaluate_at zone policy t else ok (evaluate_override policy o.kind)
