-- ===== src/Processor.antt =====
-- src/EventQueueProcessorBase.js: the parts of the processor that works on one chunk of events.
pub mod Status
pub mod Persist
pub mod EventLock
pub mod Select
pub mod Retry
pub mod KeepAlive
mod Examples
