-- ===== src/Broker.antt =====
-- The broker: broker/broker.h and broker/broker.cpp.
pub mod State
pub mod Brake
pub mod Window
pub mod Valid
pub mod Match
pub mod Send
pub mod Subscribe
pub mod Publication
pub mod Publish
pub mod Membership
pub mod Service
pub mod EventLoop
pub mod Safety
pub mod Expiry
pub mod Delivery
pub mod Forwards
pub mod Isolation
pub mod Startup
pub mod Keys
pub mod Config
pub mod Program
pub mod Setters
pub mod Settings
pub mod Dispatch
pub mod Refusals
pub mod Relay
pub mod Descent
pub mod Coverage
pub mod Nearest
pub mod Freshness
pub mod Arrival
pub mod Links
mod Samples
mod Trials
mod Runs
