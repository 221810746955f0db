-- ===== src/Spec.antt =====
-- features/spec: the versions of a tenant's specification.
pub mod Model
pub mod Save
pub mod Laws
pub mod History
pub mod Restore
mod Tests
