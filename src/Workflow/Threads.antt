-- ===== src/Workflow/Threads.antt =====
-- packages/workflow/src/threads.ts: the thread that drives a workflow.
pub mod Data
pub mod Invocations
pub mod Effects
pub mod Pending
pub mod Nodes
pub mod Requests
pub mod Answers
pub mod Step
pub mod Flight
pub mod Bounds
pub mod Dropped
pub mod Recorded
pub mod Steps
pub mod Reachable
pub mod Ordered
pub mod Children
pub mod Stopped
pub mod Ending
mod Tests
