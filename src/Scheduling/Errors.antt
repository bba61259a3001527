-- ===== src/Scheduling/Errors.antt =====
-- The codes that the validators and evaluators of src/service-scheduling/domain throw.
pub data SchedulingError : Type 0 where
  invalid_schedule_weekday : SchedulingError
  invalid_schedule_local_time : SchedulingError
  invalid_weekly_availability_window : SchedulingError
  empty_weekly_availability_schedule : SchedulingError
  weekly_availability_schedule_limit_exceeded : SchedulingError
  overlapping_weekly_availability_windows : SchedulingError
  invalid_availability_mode : SchedulingError
  invalid_schedule_timezone : SchedulingError
  invalid_service_availability_policy : SchedulingError
  invalid_service_availability_instant : SchedulingError
  invalid_service_availability_override : SchedulingError
  invalid_service_availability_override_kind : SchedulingError
  invalid_service_availability_override_expiration : SchedulingError
  invalid_service_availability_override_reference_instant : SchedulingError
  non_future_service_availability_override_expiration : SchedulingError
  invalid_transition_interval : SchedulingError
  transition_interval_not_minute_aligned : SchedulingError
  transition_interval_limit_exceeded : SchedulingError
  -- No code of the program: the fuel of a modelled loop ran out.
  out_of_fuel : SchedulingError
