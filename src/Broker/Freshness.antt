-- ===== src/Broker/Freshness.antt =====
-- The age of the groups of subscribers, through the handlers and the event loop.
pub mod Keeps
pub mod Handlers
pub mod Subscribing
pub mod Publishing
pub mod Delivering
pub mod Signs
pub mod Rounds
pub mod Whole
mod Runs
