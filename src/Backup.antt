-- ===== src/Backup.antt =====
-- src/backup-management: which backups of a target are kept.
pub mod Retention
pub mod Examples
