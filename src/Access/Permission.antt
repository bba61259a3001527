-- ===== src/Access/Permission.antt =====
-- administrative-permission.ts.
use atlas_manager.Base.{Bool, List, [], ◌∷◌, Str, lit, str_eq, some, none, Result, ok, err, any}
use atlas_manager.Base.Values.{Value, find_name}
use atlas_manager.Access.Errors.{AccessError, invalid_permission}

pub data Permission : Type 0 where
  power_wake_read power_wake_schedule power_wake_cancel : Permission
  power_shutdown_request power_shutdown_prepare power_shutdown_execute : Permission
  power_scheduler_tick power_schedule_read power_schedule_write : Permission
  event_history_read services_read services_start : Permission
  services_stop services_restart services_availability_read : Permission
  services_availability_write operations_read dashboard_read : Permission
  security_posture_read infrastructure_diagnostics_read backups_targets_read : Permission
  backups_runs_read backups_run backups_schedule_read : Permission
  backups_schedule_write backups_retention_read backups_retention_write : Permission
  backups_retention_prune backups_scheduler_tick event_history_integrity_read : Permission
  event_history_rotation_run event_history_retention_read event_history_retention_write : Permission
  event_history_retention_prune event_history_exports_read event_history_exports_create : Permission
  event_history_exports_download event_history_exports_prune : Permission

-- The string that a permission is.
abbrev pub permission_name : Permission → Str
permission_name power_wake_read = lit "power.wake.read"
permission_name power_wake_schedule = lit "power.wake.schedule"
permission_name power_wake_cancel = lit "power.wake.cancel"
permission_name power_shutdown_request = lit "power.shutdown.request"
permission_name power_shutdown_prepare = lit "power.shutdown.prepare"
permission_name power_shutdown_execute = lit "power.shutdown.execute"
permission_name power_scheduler_tick = lit "power.scheduler.tick"
permission_name power_schedule_read = lit "power.schedule.read"
permission_name power_schedule_write = lit "power.schedule.write"
permission_name event_history_read = lit "event_history.read"
permission_name services_read = lit "services.read"
permission_name services_start = lit "services.start"
permission_name services_stop = lit "services.stop"
permission_name services_restart = lit "services.restart"
permission_name services_availability_read = lit "services.availability.read"
permission_name services_availability_write = lit "services.availability.write"
permission_name operations_read = lit "operations.read"
permission_name dashboard_read = lit "dashboard.read"
permission_name security_posture_read = lit "security.posture.read"
permission_name infrastructure_diagnostics_read = lit "infrastructure.diagnostics.read"
permission_name backups_targets_read = lit "backups.targets.read"
permission_name backups_runs_read = lit "backups.runs.read"
permission_name backups_run = lit "backups.run"
permission_name backups_schedule_read = lit "backups.schedule.read"
permission_name backups_schedule_write = lit "backups.schedule.write"
permission_name backups_retention_read = lit "backups.retention.read"
permission_name backups_retention_write = lit "backups.retention.write"
permission_name backups_retention_prune = lit "backups.retention.prune"
permission_name backups_scheduler_tick = lit "backups.scheduler.tick"
permission_name event_history_integrity_read = lit "event_history.integrity.read"
permission_name event_history_rotation_run = lit "event_history.rotation.run"
permission_name event_history_retention_read = lit "event_history.retention.read"
permission_name event_history_retention_write = lit "event_history.retention.write"
permission_name event_history_retention_prune = lit "event_history.retention.prune"
permission_name event_history_exports_read = lit "event_history.exports.read"
permission_name event_history_exports_create = lit "event_history.exports.create"
permission_name event_history_exports_download = lit "event_history.exports.download"
permission_name event_history_exports_prune = lit "event_history.exports.prune"

abbrev pub permission_allowlist : List (Str × Permission)
permission_allowlist =
    (lit "power.wake.read", power_wake_read)
    ∷ (lit "power.wake.schedule", power_wake_schedule)
    ∷ (lit "power.wake.cancel", power_wake_cancel)
    ∷ (lit "power.shutdown.request", power_shutdown_request)
    ∷ (lit "power.shutdown.prepare", power_shutdown_prepare)
    ∷ (lit "power.shutdown.execute", power_shutdown_execute)
    ∷ (lit "power.scheduler.tick", power_scheduler_tick)
    ∷ (lit "power.schedule.read", power_schedule_read)
    ∷ (lit "power.schedule.write", power_schedule_write)
    ∷ (lit "event_history.read", event_history_read)
    ∷ (lit "services.read", services_read)
    ∷ (lit "services.start", services_start)
    ∷ (lit "services.stop", services_stop)
    ∷ (lit "services.restart", services_restart)
    ∷ (lit "services.availability.read", services_availability_read)
    ∷ (lit "services.availability.write", services_availability_write)
    ∷ (lit "operations.read", operations_read)
    ∷ (lit "dashboard.read", dashboard_read)
    ∷ (lit "security.posture.read", security_posture_read)
    ∷ (lit "infrastructure.diagnostics.read", infrastructure_diagnostics_read)
    ∷ (lit "backups.targets.read", backups_targets_read)
    ∷ (lit "backups.runs.read", backups_runs_read)
    ∷ (lit "backups.run", backups_run)
    ∷ (lit "backups.schedule.read", backups_schedule_read)
    ∷ (lit "backups.schedule.write", backups_schedule_write)
    ∷ (lit "backups.retention.read", backups_retention_read)
    ∷ (lit "backups.retention.write", backups_retention_write)
    ∷ (lit "backups.retention.prune", backups_retention_prune)
    ∷ (lit "backups.scheduler.tick", backups_scheduler_tick)
    ∷ (lit "event_history.integrity.read", event_history_integrity_read)
    ∷ (lit "event_history.rotation.run", event_history_rotation_run)
    ∷ (lit "event_history.retention.read", event_history_retention_read)
    ∷ (lit "event_history.retention.write", event_history_retention_write)
    ∷ (lit "event_history.retention.prune", event_history_retention_prune)
    ∷ (lit "event_history.exports.read", event_history_exports_read)
    ∷ (lit "event_history.exports.create", event_history_exports_create)
    ∷ (lit "event_history.exports.download", event_history_exports_download)
    ∷ (lit "event_history.exports.prune", event_history_exports_prune)
    ∷ []

unfoldable pub create_permission : Value → Result AccessError Permission
unfolding str_eq
create_permission (Value.string s) = elim (find_name permission_allowlist s) [
  | some x ↦ ok x
  | none ↦ err invalid_permission
]
create_permission v = err invalid_permission

-- Two permissions are the same string.
abbrev pub permission_eq : Permission → Permission → Bool
permission_eq p q = str_eq (permission_name p) (permission_name q)

-- `permissions.includes(permission)`.
abbrev pub includes_permission : List Permission → Permission → Bool
includes_permission ps p = any (λ q. permission_eq q p) ps
