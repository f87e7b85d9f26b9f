-- ===== src/Core/Fold.antt =====
-- packages/core/src/fold.ts: a run's state as a fold of its events. The children hold the parts of
-- one fold step, in the order in which the step runs them, and the theorems.
pub mod Changes
pub mod Executions
pub mod Protocol
pub mod Reconcile
pub mod Deliver
pub mod Step
pub mod Frame
pub mod Keys
pub mod Replay
pub mod Keyed
pub mod Settled
pub mod Launched
pub mod Consistent
pub mod Terminal
pub mod Mapping
pub mod Ending
pub mod Waiting
pub mod Progress
pub mod Tests
