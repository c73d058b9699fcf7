-- ===== src/Relay.antt =====
-- The relay hbbr (src/relay_server).
pub mod Ticket
pub mod Pairing
pub mod Forwarding
pub mod Settings
pub mod Console
