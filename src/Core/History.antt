-- ===== src/Core/History.antt =====
-- packages/core/src: what is read off the history of a run.
pub mod Cursor
pub mod Snapshots
pub mod Replay
pub mod Attempts
mod Counting
mod Resume
mod Stepping
mod Superseded
mod Tracking
mod Tests
