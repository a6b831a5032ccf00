-- ===== src/Processing.antt =====
-- src/processEventQueue.js: a run of one event type, from the lock to its release.
pub mod Preparation
pub mod Gate
pub mod Transactions
pub mod Overwritten
pub mod Run
pub mod Periodic
mod Examples
