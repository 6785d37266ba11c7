-- ===== src/Ntp/Chrony.antt =====
-- The client of chronyd, ntp/chrony.
pub mod Helpers
pub mod Replies
pub mod Usable
pub mod Packets
pub mod Numbers
pub mod Meaning
pub mod Decoding
pub mod Refusals
mod Examples
