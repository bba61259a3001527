-- ===== src/Access.antt =====
-- src/access-control: who may run which administrative operation.
pub mod Errors
pub mod Permission
pub mod Role
pub mod Operation
pub mod Tables
pub mod Principal
pub mod Authorize
pub mod Examples
