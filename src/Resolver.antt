-- ===== src/Resolver.antt =====
-- web/src/features/playground/resolver.ts: the relationship resolver of the permission playground.
--
-- `Model` has the data, `Evaluate` the recursion, `Explain` the answer with its reason and the batch;
-- the other modules prove.
pub mod Model
pub mod Evaluate
pub mod Explain
pub mod Grants
pub mod Iterate
pub mod Expand
pub mod Sound
pub mod Keeps
pub mod Complete
pub mod Evidence
pub mod Attribution
pub mod Decides
mod Tests
