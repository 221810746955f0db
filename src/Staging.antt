-- ===== src/Staging.antt =====
-- features/authz-model/server.ts: the live model of a tenant and its draft.
pub mod Server
pub mod Laws
mod Tests
