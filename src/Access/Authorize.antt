-- ===== src/Access/Authorize.antt =====
-- authorize-administrative-operation.ts, and the decisions of administrative-authorization-decision.ts.
pub mod Laws
use atlas_manager.Base.{
  ◌≡◌, Bool, true, false, not, List, [], ◌∷◌, Str, Option, some, none, Result, ok, err, ◌>>=◌, ◌>>◌,
  throw_if, any,
}
use atlas_manager.Base.Values.{Value}
use atlas_manager.Base.Platform.{Dates, is_canonical_timestamp}
use atlas_manager.Access.Errors.{AccessError, invalid_evaluation_timestamp}
use atlas_manager.Access.Permission.{Permission}
use atlas_manager.Access.Role.{Role}
use atlas_manager.Access.Operation.{
  Operation, create_operation, permission_for_operation, role_has_permission,
}
use atlas_manager.Access.Principal.{Principal, create_principal}

pub data DenyReason : Type 0 where
  principal_unknown permission_denied : DenyReason
  role_assignment_unavailable authorization_policy_unavailable : DenyReason

pub data Outcome : Type 0 where
  allowed : Outcome
  denied : DenyReason → Outcome

pub record Decision : Type 0 where
  pub principal : Principal
  pub operation : Operation
  pub permission : Permission
  pub evaluated_at : Str
  pub outcome : Outcome

-- What the reader of the role assignments answers; `rejected` is a promise that is rejected.
pub data Assignment : Type 0 where
  rejected unknown_principal unavailable : Assignment
  assigned : List Role → Assignment

-- `roles.some((role) => roleHasAdministrativePermission(role, permission))`.
abbrev pub some_role_has : List Role → Permission → Bool
some_role_has roles permission = any (λ r. role_has_permission r permission) roles

abbrev pub outcome_of : Permission → Assignment → Outcome
outcome_of permission rejected = denied role_assignment_unavailable
outcome_of permission unknown_principal = denied principal_unknown
outcome_of permission unavailable = denied role_assignment_unavailable
outcome_of permission (assigned roles) = elim (some_role_has roles permission) [
  | true ↦ allowed
  | false ↦ denied permission_denied
]

abbrev pub decide : (Principal → Assignment) → Principal → Operation → Str → Decision
decide read principal operation evaluated_at = record {
  principal = principal;
  operation = operation;
  permission = permission_for_operation operation;
  evaluated_at = evaluated_at;
  outcome = outcome_of (permission_for_operation operation) (read principal);
}

unfoldable pub authorize :
    Dates → (Principal → Assignment) → Value → Value → Str → Result AccessError Decision
authorize d read principal_input operation_input evaluated_at = do
  principal ← create_principal principal_input
  operation ← create_operation operation_input
  throw_if (not (is_canonical_timestamp d (Value.string evaluated_at))) invalid_evaluation_timestamp
  ok (decide read principal operation evaluated_at)
