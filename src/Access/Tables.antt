-- ===== src/Access/Tables.antt =====
-- The table of roles and permissions.
use atlas_manager.Base.{◌≡◌, refl, true}
use atlas_manager.Access.Permission.{
  Permission, power_wake_read, power_wake_schedule, power_wake_cancel, power_shutdown_request,
  power_shutdown_prepare, power_shutdown_execute, power_scheduler_tick, power_schedule_read,
  power_schedule_write, event_history_read, services_read, services_start, services_stop,
  services_restart, services_availability_read, services_availability_write, operations_read,
  dashboard_read, security_posture_read, infrastructure_diagnostics_read, backups_targets_read,
  backups_runs_read, backups_run, backups_schedule_read, backups_schedule_write,
  backups_retention_read, backups_retention_write, backups_retention_prune, backups_scheduler_tick,
  event_history_integrity_read, event_history_rotation_run, event_history_retention_read,
  event_history_retention_write, event_history_retention_prune, event_history_exports_read,
  event_history_exports_create, event_history_exports_download, event_history_exports_prune,
}
use atlas_manager.Access.Role.{administrator}
use atlas_manager.Access.Operation.{role_has_permission}

-- The administrator has every permission.
pub administrator-has : (p : Permission) → role_has_permission administrator p ≡ true
unfolding role_has_permission
administrator-has power_wake_read = refl
administrator-has power_wake_schedule = refl
administrator-has power_wake_cancel = refl
administrator-has power_shutdown_request = refl
administrator-has power_shutdown_prepare = refl
administrator-has power_shutdown_execute = refl
administrator-has power_scheduler_tick = refl
administrator-has power_schedule_read = refl
administrator-has power_schedule_write = refl
administrator-has event_history_read = refl
administrator-has services_read = refl
administrator-has services_start = refl
administrator-has services_stop = refl
administrator-has services_restart = refl
administrator-has services_availability_read = refl
administrator-has services_availability_write = refl
administrator-has operations_read = refl
administrator-has dashboard_read = refl
administrator-has security_posture_read = refl
administrator-has infrastructure_diagnostics_read = refl
administrator-has backups_targets_read = refl
administrator-has backups_runs_read = refl
administrator-has backups_run = refl
administrator-has backups_schedule_read = refl
administrator-has backups_schedule_write = refl
administrator-has backups_retention_read = refl
administrator-has backups_retention_write = refl
administrator-has backups_retention_prune = refl
administrator-has backups_scheduler_tick = refl
administrator-has event_history_integrity_read = refl
administrator-has event_history_rotation_run = refl
administrator-has event_history_retention_read = refl
administrator-has event_history_retention_write = refl
administrator-has event_history_retention_prune = refl
administrator-has event_history_exports_read = refl
administrator-has event_history_exports_create = refl
administrator-has event_history_exports_download = refl
administrator-has event_history_exports_prune = refl
