-- ===== src/Relations.antt =====
-- features/relations: the tenant's tuple store.
pub mod Model
pub mod Write
pub mod Batch
pub mod Account
pub mod Allowed
pub mod Effect
pub mod Replay
pub mod Listing
pub mod Paging
mod Tests
