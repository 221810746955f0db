-- ===== src/Reconcile.antt =====
-- features/reconcile: the runs of the reconciler, their live progress and their retries.
pub mod Model
pub mod Advance
pub mod Retry
pub mod Script
pub mod Polls
pub mod Settle
pub mod Track
pub mod Runs
pub mod Cells
pub mod Pages
mod Tests
