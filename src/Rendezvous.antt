-- ===== src/Rendezvous.antt =====
-- The rendezvous server hbbs (src/peer.rs, src/database.rs, src/rendezvous_server).
pub mod Peers
pub mod Blocker
pub mod Register
pub mod PunchSessions
pub mod RelayServers
pub mod Messages
pub mod Punch
pub mod Online
pub mod TcpPeers
pub mod Udp
pub mod Tcp
pub mod Console
pub mod SecondListener
