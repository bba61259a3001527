-- ===== src/Access/Examples.antt =====
-- A power operator who asks for a shutdown, and an administrator who reads an export.
use atlas_manager.Base.{
  ◌≡◌, refl, ◌⊎◌, ◌↔◌, true, false, List, [], ◌∷◌, Str, lit, str_eq, some, none, ok,
}
use atlas_manager.Base.Int.{pos}
use atlas_manager.Base.Values.{Value, Fields}
use atlas_manager.Base.Platform.{Dates, is_canonical_timestamp}
use atlas_manager.Access.Role.{Role, power_operator, auditor, administrator}
use atlas_manager.Access.Operation.{
  create_operation, permission_for_operation, role_has_permission, request_machine_shutdown,
  read_event_history_export,
}
use atlas_manager.Access.Principal.{Principal, human, create_principal}
use atlas_manager.Access.Authorize.{allowed, Assignment, assigned, decide, authorize}
use atlas_manager.Access.Authorize.Laws.{
  Among, here, there, Grants, authorize-administrator, authorize-allowed, authorize-shutdown,
}

abbrev id : Str
id = lit "01234567-89ab-4cde-8f01-23456789abcd"

abbrev principal : Value
principal = Value.object true (Fields.field (lit "principalId") (Value.string id) Fields.end)

abbrev known : Principal
known = record { principal_id = id; kind = human }

abbrev at : Str
at = lit "2026-01-01T00:00:00.000Z"

abbrev dates : Dates
dates = record {
  parse = λ s. elim (str_eq s at) [ true ↦ some (pos 1767225600000) | false ↦ none ];
  to_iso = λ t. at;
}

abbrev operators : Principal → Assignment
operators p = assigned (auditor ∷ power_operator ∷ [])

abbrev administrators : Principal → Assignment
administrators p = assigned (auditor ∷ administrator ∷ [])

abbrev shutdown : Value
shutdown = Value.string (lit "request_machine_shutdown")

abbrev export : Value
export = Value.string (lit "read_event_history_export")

shutdown_decided :
    authorize dates operators principal shutdown at
    ≡ ok (decide operators known request_machine_shutdown at)
unfolding authorize create_principal create_operation is_canonical_timestamp
shutdown_decided = refl

export_decided :
    authorize dates administrators principal export at
    ≡ ok (decide administrators known read_event_history_export at)
unfolding authorize create_principal create_operation is_canonical_timestamp
export_decided = refl

shutdown_allowed : (decide operators known request_machine_shutdown at).outcome ≡ allowed
unfolding role_has_permission
shutdown_allowed = refl

authorize-allowed_example :
    (create_principal principal ≡ ok known)
    × (create_operation shutdown ≡ ok request_machine_shutdown)
    × (((decide operators known request_machine_shutdown at).outcome ≡ allowed)
        ↔ Grants (operators known) (permission_for_operation request_machine_shutdown))
authorize-allowed_example =
    authorize-allowed dates operators principal shutdown at
      (decide operators known request_machine_shutdown at) shutdown_decided

authorize-shutdown_example :
    (roles : List Role) × (operators known ≡ assigned roles)
    × (Among power_operator roles ⊎ Among administrator roles)
authorize-shutdown_example =
    authorize-shutdown dates operators principal shutdown at
      (decide operators known request_machine_shutdown at) shutdown_decided refl shutdown_allowed

authorize-administrator_example :
    authorize dates administrators principal export at
    ≡ ok (record {
      principal = known;
      operation = read_event_history_export;
      permission = permission_for_operation read_event_history_export;
      evaluated_at = at;
      outcome = allowed;
    })
unfolding create_principal create_operation is_canonical_timestamp
authorize-administrator_example =
    authorize-administrator dates administrators principal export at known read_event_history_export
      (auditor ∷ administrator ∷ []) refl refl refl refl
      (there administrator auditor (administrator ∷ []) (here administrator []))
