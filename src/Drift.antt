-- ===== src/Drift.antt =====
-- features/drift: the findings of the drift check, their healing and acknowledgement.
pub mod Model
pub mod Heal
pub mod List
pub mod Heals
pub mod Laws
pub mod Order
mod Tests
