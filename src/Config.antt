-- ===== src/Config.antt =====
-- src/config.js: the configurations of the events.
pub mod Event
pub mod EventMap
pub mod Registered
pub mod Applications
pub mod Names
pub mod Access
mod Examples
