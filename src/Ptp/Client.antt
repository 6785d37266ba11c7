-- ===== src/Ptp/Client.antt =====
-- ptp/simpleclient: the unicast client.
pub mod Requests
pub mod Acknowledge
pub mod Measurements
pub mod Session
mod Examples
