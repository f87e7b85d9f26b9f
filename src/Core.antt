-- ===== src/Core.antt =====
-- packages/core/src: the event-sourced kernel.
pub mod Json
pub mod Ids
pub mod Envelope
pub mod Effects
pub mod Wire
pub mod Equality
pub mod Thread
pub mod State
pub mod Fold
pub mod Store
pub mod History
pub mod Fork
pub mod Match
pub mod Coalesce
