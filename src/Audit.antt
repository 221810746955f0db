-- ===== src/Audit.antt =====
-- features/audit: the audit log, its pages and its exports.
pub mod Model
pub mod Server
pub mod Laws
mod Tests
