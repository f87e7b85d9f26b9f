-- ===== src/Schedule.antt =====
-- packages/schedule/src: the threads that start runs at planned times.
pub mod Specs
pub mod Gaps
pub mod Data
pub mod Next
pub mod Fire
pub mod Update
pub mod Step
pub mod Earliest
pub mod Updated
pub mod Capped
pub mod Fired
pub mod Armed
mod Tests
