-- ===== src/Workflow.antt =====
-- packages/workflow/src: workflows as graphs of nodes.
pub mod Graph
pub mod Threads
pub mod Scheduler
