-- ===== src/Ntp.antt =====
-- The NTP side of the repository.
pub mod Packet
pub mod Clock
pub mod Responder
pub mod Control
pub mod Chrony
mod Examples
