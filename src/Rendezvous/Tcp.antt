-- ===== src/Rendezvous/Tcp.antt =====
-- The connections of hbbs over TCP and WebSocket (src/rendezvous_server/tcp.rs, tcp_register.rs,
-- punch.rs, secure.rs and io.rs). `Wire` has the messages and the state, `Replies` and `Handlers` the
-- handlers with the dispatch of one message, and `Connection` the life of a connection; the other
-- modules are about them.
pub mod Wire
pub mod Replies
pub mod Handlers
pub mod Sending
pub mod Secure
pub mod Connection
pub mod Owning
pub mod Keeping
pub mod Owners
pub mod Issuing
pub mod Preserving
pub mod Silent
pub mod Pushes
pub mod Granting
pub mod PeerInitiated
