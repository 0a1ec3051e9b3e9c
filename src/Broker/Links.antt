-- ===== src/Broker/Links.antt =====
-- Two brokers together: what one sends, as the other one receives it.
pub mod Wire
pub mod Hello
pub mod RegionFrame
pub mod Regions
pub mod Interest
pub mod Report
mod Runs
