-- ===== src/Access/Role.antt =====
-- administrative-role.ts.
use atlas_manager.Base.{
  Bool, List, [], ◌∷◌, Str, lit, str_eq, some, none, Result, ok, err, ◌==◌, ◌||◌, any,
  if◌then◌else◌, length, ltb, not, throw_if, map_result, ◌>>=◌, ◌>>◌,
}
use atlas_manager.Base.Values.{Value, find_name, list_values}
use atlas_manager.Access.Errors.{AccessError, invalid_role, invalid_role_collection}

pub data Role : Type 0 where
  power_operator scheduler_operator auditor : Role
  service_operator backup_operator audit_operator : Role
  administrator : Role

abbrev pub role_name : Role → Str
role_name power_operator = lit "power_operator"
role_name scheduler_operator = lit "scheduler_operator"
role_name auditor = lit "auditor"
role_name service_operator = lit "service_operator"
role_name backup_operator = lit "backup_operator"
role_name audit_operator = lit "audit_operator"
role_name administrator = lit "administrator"

abbrev pub role_allowlist : List (Str × Role)
role_allowlist =
    (lit "power_operator", power_operator)
    ∷ (lit "scheduler_operator", scheduler_operator)
    ∷ (lit "auditor", auditor)
    ∷ (lit "service_operator", service_operator)
    ∷ (lit "backup_operator", backup_operator)
    ∷ (lit "audit_operator", audit_operator)
    ∷ (lit "administrator", administrator)
    ∷ []

unfoldable pub create_role : Value → Result AccessError Role
unfolding str_eq
create_role (Value.string s) = elim (find_name role_allowlist s) [
  | some x ↦ ok x
  | none ↦ err invalid_role
]
create_role v = err invalid_role

abbrev pub role_eq : Role → Role → Bool
role_eq r q = str_eq (role_name r) (role_name q)

-- `new Set(roles)`, in the order of insertion.
abbrev pub role_set : List Role → List Role → List Role
role_set seen [] = seen
role_set seen (r ∷ rs) =
    if any (λ q. role_eq q r) seen then role_set seen rs else role_set (r ∷ seen) rs

unfoldable pub distinct_roles : List Role → Result AccessError (List Role)
distinct_roles rs = do
  throw_if (not (length (role_set [] rs) == length rs)) invalid_role_collection
  ok rs

unfoldable pub create_role_collection : Value → Result AccessError (List Role)
unfolding create_role distinct_roles
create_role_collection (Value.array vs) = do
  throw_if (ltb (length (list_values vs)) 1 || ltb 7 (length (list_values vs)))
      invalid_role_collection
  rs ← map_result create_role (list_values vs)
  distinct_roles rs
create_role_collection v = err invalid_role_collection
