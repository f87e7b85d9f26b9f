-- ===== src/Core/Fork.antt =====
-- packages/core/src/fork.ts: a new run that goes on where another ended.
pub mod Scan
pub mod Plan
mod Trace
mod Ends
mod Scanned
mod Causes
mod Walk
mod Rewound
mod Within
mod Origin
mod Numbering
mod Forked
mod Refused
mod Tests
