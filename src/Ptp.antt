-- ===== src/Ptp.antt =====
-- The PTP side of the repository.
pub mod MessageType
pub mod TlvType
pub mod Types
pub mod Header
pub mod Messages
pub mod Signaling
pub mod Announce
pub mod Management
pub mod Server
pub mod Client
pub mod Handshake
mod Examples
