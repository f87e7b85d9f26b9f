-- ===== src/Core/Store.antt =====
-- packages/core/src/store.ts: the in-memory event store.
pub mod Log
pub mod Reads
mod Steps
pub mod Ordered
pub mod Append
mod Retry
mod Subscribe
mod Trim
mod Tests
