-- ===== src/Access/Operation.antt =====
-- administrative-operation.ts.
use atlas_manager.Base.{Bool, List, [], ◌∷◌, Str, lit, str_eq, some, none, Result, ok, err}
use atlas_manager.Base.Values.{Value, find_name}
use atlas_manager.Access.Errors.{AccessError, invalid_operation}
use atlas_manager.Access.Permission.{
  Permission, includes_permission, power_wake_read, power_wake_schedule, power_wake_cancel,
  power_shutdown_request, power_shutdown_prepare, power_shutdown_execute, power_scheduler_tick,
  power_schedule_read, power_schedule_write, event_history_read, services_read, services_start,
  services_stop, services_restart, services_availability_read, services_availability_write,
  operations_read, dashboard_read, security_posture_read, infrastructure_diagnostics_read,
  backups_targets_read, backups_runs_read, backups_run, backups_schedule_read,
  backups_schedule_write, backups_retention_read, backups_retention_write, backups_retention_prune,
  backups_scheduler_tick, event_history_integrity_read, event_history_rotation_run,
  event_history_retention_read, event_history_retention_write, event_history_retention_prune,
  event_history_exports_read, event_history_exports_create, event_history_exports_download,
  event_history_exports_prune,
}
use atlas_manager.Access.Role.{
  Role, power_operator, scheduler_operator, auditor, service_operator, backup_operator,
  audit_operator, administrator,
}

-- An operation is one of the strings of ADMINISTRATIVE_OPERATIONS; each has a constructor of its name.
pub data Operation : Type 0 where
  read_wake_alarm schedule_wake_alarm cancel_wake_alarm : Operation
  request_machine_shutdown prepare_machine_shutdown_occurrence execute_machine_shutdown_occurrence :
      Operation
  run_machine_power_scheduler_tick read_machine_operating_policy
        read_machine_operating_policy_preview :
      Operation
  update_machine_operating_policy remove_machine_operating_policy
        read_administrative_event_history :
      Operation
  read_registered_services read_registered_service read_registered_service_logs : Operation
  read_registered_service_resources start_registered_service stop_registered_service : Operation
  restart_registered_service read_registered_service_availability
        read_registered_service_availability_preview :
      Operation
  read_registered_service_schedule read_registered_service_schedule_preview
        update_registered_service_availability :
      Operation
  remove_registered_service_availability update_registered_service_schedule
        remove_registered_service_schedule :
      Operation
  read_operations_overview read_administrative_dashboard read_administrative_security_posture :
      Operation
  read_infrastructure_diagnostics read_registered_backup_targets read_registered_backup_target :
      Operation
  read_backup_runs read_backup_run run_registered_backup : Operation
  read_backup_schedule update_backup_schedule remove_backup_schedule : Operation
  read_backup_retention update_backup_retention run_backup_retention_prune : Operation
  run_backup_scheduler_tick verify_event_history_integrity rotate_event_history : Operation
  read_event_history_retention update_event_history_retention prune_event_history : Operation
  list_event_history_exports read_event_history_export create_event_history_export : Operation
  download_event_history_export prune_event_history_exports : Operation

-- ADMINISTRATIVE_OPERATIONS: each string with the constructor that stands for it.
abbrev pub operation_allowlist : List (Str × Operation)
operation_allowlist =
    (lit "read_wake_alarm", read_wake_alarm)
    ∷ (lit "schedule_wake_alarm", schedule_wake_alarm)
    ∷ (lit "cancel_wake_alarm", cancel_wake_alarm)
    ∷ (lit "request_machine_shutdown", request_machine_shutdown)
    ∷ (lit "prepare_machine_shutdown_occurrence", prepare_machine_shutdown_occurrence)
    ∷ (lit "execute_machine_shutdown_occurrence", execute_machine_shutdown_occurrence)
    ∷ (lit "run_machine_power_scheduler_tick", run_machine_power_scheduler_tick)
    ∷ (lit "read_machine_operating_policy", read_machine_operating_policy)
    ∷ (lit "read_machine_operating_policy_preview", read_machine_operating_policy_preview)
    ∷ (lit "update_machine_operating_policy", update_machine_operating_policy)
    ∷ (lit "remove_machine_operating_policy", remove_machine_operating_policy)
    ∷ (lit "read_administrative_event_history", read_administrative_event_history)
    ∷ (lit "read_registered_services", read_registered_services)
    ∷ (lit "read_registered_service", read_registered_service)
    ∷ (lit "read_registered_service_logs", read_registered_service_logs)
    ∷ (lit "read_registered_service_resources", read_registered_service_resources)
    ∷ (lit "start_registered_service", start_registered_service)
    ∷ (lit "stop_registered_service", stop_registered_service)
    ∷ (lit "restart_registered_service", restart_registered_service)
    ∷ (lit "read_registered_service_availability", read_registered_service_availability)
    ∷ (
      lit "read_registered_service_availability_preview",
      read_registered_service_availability_preview,
    )
    ∷ (lit "read_registered_service_schedule", read_registered_service_schedule)
    ∷ (lit "read_registered_service_schedule_preview", read_registered_service_schedule_preview)
    ∷ (lit "update_registered_service_availability", update_registered_service_availability)
    ∷ (lit "remove_registered_service_availability", remove_registered_service_availability)
    ∷ (lit "update_registered_service_schedule", update_registered_service_schedule)
    ∷ (lit "remove_registered_service_schedule", remove_registered_service_schedule)
    ∷ (lit "read_operations_overview", read_operations_overview)
    ∷ (lit "read_administrative_dashboard", read_administrative_dashboard)
    ∷ (lit "read_administrative_security_posture", read_administrative_security_posture)
    ∷ (lit "read_infrastructure_diagnostics", read_infrastructure_diagnostics)
    ∷ (lit "read_registered_backup_targets", read_registered_backup_targets)
    ∷ (lit "read_registered_backup_target", read_registered_backup_target)
    ∷ (lit "read_backup_runs", read_backup_runs)
    ∷ (lit "read_backup_run", read_backup_run)
    ∷ (lit "run_registered_backup", run_registered_backup)
    ∷ (lit "read_backup_schedule", read_backup_schedule)
    ∷ (lit "update_backup_schedule", update_backup_schedule)
    ∷ (lit "remove_backup_schedule", remove_backup_schedule)
    ∷ (lit "read_backup_retention", read_backup_retention)
    ∷ (lit "update_backup_retention", update_backup_retention)
    ∷ (lit "run_backup_retention_prune", run_backup_retention_prune)
    ∷ (lit "run_backup_scheduler_tick", run_backup_scheduler_tick)
    ∷ (lit "verify_event_history_integrity", verify_event_history_integrity)
    ∷ (lit "rotate_event_history", rotate_event_history)
    ∷ (lit "read_event_history_retention", read_event_history_retention)
    ∷ (lit "update_event_history_retention", update_event_history_retention)
    ∷ (lit "prune_event_history", prune_event_history)
    ∷ (lit "list_event_history_exports", list_event_history_exports)
    ∷ (lit "read_event_history_export", read_event_history_export)
    ∷ (lit "create_event_history_export", create_event_history_export)
    ∷ (lit "download_event_history_export", download_event_history_export)
    ∷ (lit "prune_event_history_exports", prune_event_history_exports)
    ∷ []

unfoldable pub create_operation : Value → Result AccessError Operation
unfolding str_eq
create_operation (Value.string s) = elim (find_name operation_allowlist s) [
  | some x ↦ ok x
  | none ↦ err invalid_operation
]
create_operation v = err invalid_operation

-- ADMINISTRATIVE_ROLE_PERMISSIONS.
abbrev pub role_permissions : Role → List Permission
role_permissions power_operator =
    power_wake_read ∷ power_wake_schedule ∷ power_wake_cancel ∷ power_shutdown_request
    ∷ power_shutdown_prepare ∷ power_shutdown_execute ∷ power_schedule_read ∷ power_schedule_write
    ∷ operations_read ∷ dashboard_read ∷ []
role_permissions scheduler_operator = power_scheduler_tick ∷ operations_read ∷ dashboard_read ∷ []
role_permissions auditor =
    event_history_read ∷ event_history_integrity_read ∷ event_history_exports_read
    ∷ event_history_exports_create ∷ event_history_exports_download ∷ operations_read
    ∷ dashboard_read ∷ backups_targets_read ∷ backups_runs_read ∷ security_posture_read
    ∷ infrastructure_diagnostics_read ∷ []
role_permissions service_operator =
    services_read ∷ services_start ∷ services_stop ∷ services_restart ∷ services_availability_read
    ∷ services_availability_write ∷ operations_read ∷ dashboard_read ∷ []
role_permissions backup_operator =
    backups_targets_read ∷ backups_runs_read ∷ backups_run ∷ backups_schedule_read
    ∷ backups_schedule_write ∷ backups_retention_read ∷ backups_retention_write
    ∷ backups_retention_prune ∷ backups_scheduler_tick ∷ operations_read ∷ dashboard_read ∷ []
role_permissions audit_operator =
    event_history_read ∷ event_history_integrity_read ∷ event_history_rotation_run
    ∷ event_history_retention_read ∷ event_history_retention_write ∷ event_history_retention_prune
    ∷ event_history_exports_read ∷ event_history_exports_create ∷ event_history_exports_download
    ∷ event_history_exports_prune ∷ operations_read ∷ dashboard_read ∷ security_posture_read ∷ []
role_permissions administrator =
    power_wake_read ∷ power_wake_schedule ∷ power_wake_cancel ∷ power_shutdown_request
    ∷ power_shutdown_prepare ∷ power_shutdown_execute ∷ power_scheduler_tick ∷ power_schedule_read
    ∷ power_schedule_write ∷ event_history_read ∷ services_read ∷ services_start ∷ services_stop
    ∷ services_restart ∷ services_availability_read ∷ services_availability_write ∷ operations_read
    ∷ dashboard_read ∷ security_posture_read ∷ backups_targets_read ∷ backups_runs_read
    ∷ backups_run ∷ backups_schedule_read ∷ backups_schedule_write ∷ backups_retention_read
    ∷ backups_retention_write ∷ backups_retention_prune ∷ backups_scheduler_tick
    ∷ event_history_integrity_read ∷ event_history_rotation_run ∷ event_history_retention_read
    ∷ event_history_retention_write ∷ event_history_retention_prune ∷ event_history_exports_read
    ∷ event_history_exports_create ∷ event_history_exports_download ∷ event_history_exports_prune
    ∷ infrastructure_diagnostics_read ∷ []

-- OPERATION_PERMISSIONS.
abbrev pub permission_for_operation : Operation → Permission
permission_for_operation read_wake_alarm = power_wake_read
permission_for_operation schedule_wake_alarm = power_wake_schedule
permission_for_operation cancel_wake_alarm = power_wake_cancel
permission_for_operation request_machine_shutdown = power_shutdown_request
permission_for_operation prepare_machine_shutdown_occurrence = power_shutdown_prepare
permission_for_operation execute_machine_shutdown_occurrence = power_shutdown_execute
permission_for_operation run_machine_power_scheduler_tick = power_scheduler_tick
permission_for_operation read_machine_operating_policy = power_schedule_read
permission_for_operation read_machine_operating_policy_preview = power_schedule_read
permission_for_operation update_machine_operating_policy = power_schedule_write
permission_for_operation remove_machine_operating_policy = power_schedule_write
permission_for_operation read_administrative_event_history = event_history_read
permission_for_operation read_registered_services = services_read
permission_for_operation read_registered_service = services_read
permission_for_operation read_registered_service_logs = services_read
permission_for_operation read_registered_service_resources = services_read
permission_for_operation start_registered_service = services_start
permission_for_operation stop_registered_service = services_stop
permission_for_operation restart_registered_service = services_restart
permission_for_operation read_registered_service_availability = services_availability_read
permission_for_operation read_registered_service_availability_preview = services_availability_read
permission_for_operation read_registered_service_schedule = services_availability_read
permission_for_operation read_registered_service_schedule_preview = services_availability_read
permission_for_operation update_registered_service_availability = services_availability_write
permission_for_operation remove_registered_service_availability = services_availability_write
permission_for_operation update_registered_service_schedule = services_availability_write
permission_for_operation remove_registered_service_schedule = services_availability_write
permission_for_operation read_operations_overview = operations_read
permission_for_operation read_administrative_dashboard = dashboard_read
permission_for_operation read_administrative_security_posture = security_posture_read
permission_for_operation read_infrastructure_diagnostics = infrastructure_diagnostics_read
permission_for_operation read_registered_backup_targets = backups_targets_read
permission_for_operation read_registered_backup_target = backups_targets_read
permission_for_operation read_backup_runs = backups_runs_read
permission_for_operation read_backup_run = backups_runs_read
permission_for_operation run_registered_backup = backups_run
permission_for_operation read_backup_schedule = backups_schedule_read
permission_for_operation update_backup_schedule = backups_schedule_write
permission_for_operation remove_backup_schedule = backups_schedule_write
permission_for_operation read_backup_retention = backups_retention_read
permission_for_operation update_backup_retention = backups_retention_write
permission_for_operation run_backup_retention_prune = backups_retention_prune
permission_for_operation run_backup_scheduler_tick = backups_scheduler_tick
permission_for_operation verify_event_history_integrity = event_history_integrity_read
permission_for_operation rotate_event_history = event_history_rotation_run
permission_for_operation read_event_history_retention = event_history_retention_read
permission_for_operation update_event_history_retention = event_history_retention_write
permission_for_operation prune_event_history = event_history_retention_prune
permission_for_operation list_event_history_exports = event_history_exports_read
permission_for_operation read_event_history_export = event_history_exports_read
permission_for_operation create_event_history_export = event_history_exports_create
permission_for_operation download_event_history_export = event_history_exports_download
permission_for_operation prune_event_history_exports = event_history_exports_prune

unfoldable pub role_has_permission : Role → Permission → Bool
unfolding str_eq
role_has_permission role permission = includes_permission (role_permissions role) permission
