-- ===== src/Admin.antt =====
-- modules/admin: the accounts of admins and the audit log.
pub mod Users
pub mod AuditLogs
pub mod Lockout
