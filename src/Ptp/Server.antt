-- ===== src/Ptp/Server.antt =====
-- ptp/ptp4u/server: the unicast server.
pub mod Subscription
pub mod Sending
pub mod Clients
pub mod Handlers
pub mod Ticker
pub mod Examples
