-- ===== src/Workflow/Graph.antt =====
-- packages/workflow/src/graph.ts: which nodes of a workflow may start, and which are skipped.
pub mod Data
pub mod Sort
pub mod Activity
pub mod Split
mod Rounds
mod Counts
mod Start
mod Order
pub mod Sorted
pub mod Returns
mod Results
mod Tests
