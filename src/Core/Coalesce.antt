-- ===== src/Core/Coalesce.antt =====
-- packages/core/src/coalesce.ts: the coalescing append buffer.
pub mod Key
mod Steps
mod Sound
mod Taking
mod Coherent
mod Poisoned
mod Draining
mod Tests
