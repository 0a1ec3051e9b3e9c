-- ===== src/Broker/Safety.antt =====
-- Proofs on the handlers and the event loop, a file for each group of handlers.
pub mod Subscribing
pub mod Matching
pub mod Forwarding
pub mod Publishing
pub mod Members
pub mod Receiving
pub mod Starting
