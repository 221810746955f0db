-- ===== src/Diff.antt =====
-- web/src/features/spec/diff.ts: the line diff of two spec bodies.
--
-- `Types` has `DiffOp` and the helpers on texts, `Align` the LCS alignment, `Pairs` the collapse into
-- changed pairs, `Views` the summary and the two views; the other modules prove.
pub mod Types
pub mod Align
pub mod Lcs
pub mod Recover
pub mod Optimal
pub mod Pairs
pub mod Runs
pub mod Collapse
pub mod Views
pub mod Summary
pub mod Panes
mod Tests
