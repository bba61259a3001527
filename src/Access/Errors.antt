-- ===== src/Access/Errors.antt =====
-- The errors of src/access-control that carry a code, and the plain errors of the authorization.
pub data AccessError : Type 0 where
  invalid_permission invalid_operation invalid_role invalid_role_collection : AccessError
  invalid_principal invalid_evaluation_timestamp : AccessError
