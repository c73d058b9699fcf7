-- ===== src/Start.antt =====
-- The start of the programs: their arguments, ports and sockets (src/main.rs, src/common and
-- src/rendezvous_server/mod.rs), and the key pairs of src/utils.rs.
pub mod Arguments
pub mod Listening
pub mod Server
pub mod KeyPair
