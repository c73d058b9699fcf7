-- ===== src/Lib.antt =====
-- A model of openuu-server: the account service, the rendezvous server hbbs and the relay hbbr.
--
-- The program. hbbs (src/rendezvous_server) keeps the peers that registered with it, over UDP or TCP,
-- in a map over a SQLite table (src/peer.rs, src/database.rs), and introduces a controller to the peer
-- it asks for. The account service (src/account) keeps accounts, their sessions and one-time relay
-- tickets in another database, which its HTTP handlers, hbbs and the relay hbbr use.
--
-- The files.
--   Prelude and its children: names of the libraries, Boolean tests on numbers, tables with a key
--     (Prelude.Table), hash maps (Prelude.Map), texts (Prelude.Text).
--   Net: addresses, and what the program takes from hbb_common about them. Net.Proxy: the address of a
--     WebSocket client, of src/rendezvous_server/io.rs.
--   Account.Tables, Account.Store: src/account/store.rs, a method as an action on the tables.
--   Account.Invariant, Account.Tickets, Account.Sessions, Account.Revocation: on these actions.
--   Account.Spent: a ticket over later calls. Account.Admin and Account.Admin.Listing: the command line,
--     src/account_main.rs.
--   Account.RateLimit and Account.RateLimit.Window: the counters of src/account/api.rs and
--     src/account/audit.rs.
--   Account.Api and Account.Api.Answers: the handlers of src/account/api.rs and
--     src/account/internal.rs, and the calls that hbbs and hbbr make of src/account/mod.rs.
--   Account.Audit and Account.Audit.Records: conn of src/account/audit.rs.
--   Account.Wol, Account.Wol.Lease and Account.Wol.Apart: wake on LAN, src/account/wol.rs.
--   Relay.Ticket and Relay.Ticket.Http: the relay's ticket check, src/relay_server/ticket.rs, against
--     the internal endpoint.
--   Relay.Pairing and Relay.Pairing.Waiting: make_pair_ of src/relay_server/connection.rs.
--   Relay.Forwarding and its children: relay of src/relay_server/connection.rs.
--   Relay.Settings: the globals, list files and parameters of src/relay_server/mod.rs.
--   Relay.Console and its children: src/relay_server/console.rs, and handle_connection of
--     src/relay_server/connection.rs.
--   Rendezvous.Udp and Rendezvous.Udp.Dispatch: handle_udp of src/rendezvous_server/udp.rs.
--   Rendezvous.Peers and its children: src/peer.rs over src/database.rs.
--   Rendezvous.Blocker: check_ip_blocker of src/rendezvous_server/relay.rs.
--   Rendezvous.Register: register_peer_response and register_pk_result of
--     src/rendezvous_server/udp.rs. Rendezvous.Register.Halves and its children: register_pk_result in
--     its two halves, with other tasks between them.
--   Rendezvous.PunchSessions: src/rendezvous_server/sessions.rs.
--   Rendezvous.RelayServers: the choice of a relay of src/rendezvous_server/relay.rs.
--   Rendezvous.Messages, Rendezvous.Punch, Rendezvous.Online: handle_punch_hole_request and
--     handle_online_request of src/rendezvous_server/punch.rs.
--   Rendezvous.TcpPeers and its children: the sinks of src/rendezvous_server/tcp_register.rs.
--   Rendezvous.Tcp.Wire, Rendezvous.Tcp.Replies, Rendezvous.Tcp.Handlers: handle_tcp of
--     src/rendezvous_server/tcp.rs with its handlers there, in punch.rs and in tcp_register.rs, on the
--     state TcpServer and the connection Conn, whose `out` lists what is sent.
--   Rendezvous.Tcp.Sending, Owning, Keeping, Silent, Issuing, Preserving: what these leave alone. Owners, Pushes, Granting,
--     PeerInitiated: on handle_tcp.
--   Rendezvous.Tcp.Secure: src/rendezvous_server/secure.rs.
--   Rendezvous.Tcp.Connection and its children: handle_listener_inner of
--     src/rendezvous_server/io.rs, from the first frame to the clean-up.
--   Rendezvous.Console and Rendezvous.Console.Relays: src/rendezvous_server/console.rs, and the data that
--     the loop of src/rendezvous_server/io.rs takes from it.
--   Rendezvous.SecondListener: handle_listener2 of src/rendezvous_server/io.rs.
--   System: io_loop of src/rendezvous_server/io.rs, with all that the events above do, on one state,
--     and the account service beside it. System.Database, Peers, Tickets, Relays, Clones and
--     Handing: on its runs.
--   Start.Arguments: src/common/args.rs. Start.Listening: ports and sockets, of
--     src/common/mod.rs and src/rendezvous_server/mod.rs. Start.Server: the state in which hbbs
--     starts. Start.KeyPair: validate_keypair of src/utils.rs.
--   Desktop and its children: the presenter, the service and the view of ui/src.
--   Keys and Keys.Agreement: src/common/keys.rs, and get_server_sk of
--     src/rendezvous_server/tcp.rs and src/relay_server/mod.rs.
--   Tests: runs of these definitions on data.
--
-- How code is modelled. A method is a function from the state that it reads to its answer and the
-- state that it leaves, one statement after the other; a table or a hash map is a list, and a
-- failed statement leaves what was written before it. A method is taken as one step, also where the
-- source gives up a lock on the way and other tasks could run, except in three places: in
-- Rendezvous.TcpPeers and Relay.Pairing an operation is a step for each time that it takes its lock,
-- and in Rendezvous.Register.Halves and System a registration is two, up to the comparison of the uuid
-- and after it, and steps of others come between. A load of a peer from the database is
-- always one step. An operation reads
-- the clock once. In Rendezvous.Tcp the messages of one connection are handled in turn with no
-- other connection between, a send takes one step and succeeds, and the encryption of what is
-- written is left out. A relay is a list of events, and a connection a list of frames, so their
-- loops are recursion on it. Instants of the monotonic clock are milliseconds, and seconds are
-- rounded down from them; the account service counts Unix seconds. A 32-bit or 64-bit counter
-- wraps. Random values (tokens, salts, guids) are arguments. The flag `available` of a database is
-- false while it cannot be used, and then every statement fails.
--
-- What is a parameter. SHA-256 and bcrypt (`Crypto`), the address functions of hbb_common
-- (`AddrTools`), serde_json on PeerInfo (`InfoCodec`), the resolver, reqwest, the parsed form of a
-- request, protobuf, sodiumoxide and `Encrypt` (`Codec`, `Sodium`, `KeyTools`, `Signing`), f64 (`Floats`),
-- serde_json::Value (`Json`), the case tables of Unicode (`Cases`), the collation of SQLite, the local
-- machine (`Machine`), and nssm with the service manager (`Windows`).
--
-- The loop of the HTTP redemption runs on the number of attempts that are left, two at first, as its
-- range says; the choice of a key pair runs on the 300 tries of its range.
--
-- In System an event (a message, a packet, a connection to the second port, something of the channel, a
-- tick, the end of a check, a call of the account service, half a registration) runs to its end, and a
-- run is a list of events, so every interleaving of whole events is one. A TCP connection keeps the clone
-- of the server that it was accepted with: relay servers, serial and rendezvous servers are those of
-- that time, and all else is shared. The rounds of the presenter are a list of
-- times with what arrives before each.
--
-- What is not modelled: sockets and the loops that accept connections, the text of the consoles, the
-- command line of hbbr, signals, the doctor of openuu-utils, the look for a new version, and of the
-- desktop front end the building of the menu, the visibility of the window and the file watcher.
mod Prelude
pub mod Net
pub mod Keys
pub mod Account
pub mod Rendezvous
pub mod System
pub mod Start
pub mod Desktop
pub mod Relay
mod Tests
