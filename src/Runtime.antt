-- ===== src/Runtime.antt =====
-- packages/runtime/src: the host that drives a run.
pub mod Waits
pub mod Retry
pub mod Cascade
pub mod Synthesis
