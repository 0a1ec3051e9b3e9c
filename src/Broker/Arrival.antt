-- ===== src/Broker/Arrival.antt =====
-- What `handlePublish` as a whole sends, to the subscribers of a name and to the other brokers.
pub mod Alike
pub mod Read
pub mod Group
pub mod Route
pub mod Sent
pub mod Joining
pub mod Journey
mod Runs
