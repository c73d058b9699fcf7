-- ===== src/Rendezvous/Tcp/Wire.antt =====
-- What the TCP handlers of hbbs read and write: the messages, the state of the server beside the sink
-- of the connection, and the ways of sending (`send_to_sink`, `send_to_tcp` and `send_to_tcp_sync` of
-- src/rendezvous_server/tcp.rs; `send_to_tcp_peer` and `reply_on_connection` of tcp_register.rs).
-- A sink goes by a number. A send is one step here, and it succeeds.
use openuu_server.Prelude.{ℕ, String, Bool, Option, none, some, List, ◌∷◌, Bytes}
use openuu_server.Prelude.Map.{get, insert, remove}
use openuu_server.Net.{SocketAddr, SocketAddr-discrete, AddrTools}
use openuu_server.Account.Store.{Crypto}
use openuu_server.Account.Tables.{Accounts}
use openuu_server.Rendezvous.Messages.{NatType, PunchHoleRequest, Message}
use openuu_server.Rendezvous.Peers.{PeerMap, InfoCodec, RegisterResult}
use openuu_server.Rendezvous.Punch.{PunchServer, PunchReqEntry}
use openuu_server.Rendezvous.PunchSessions.{PunchSessions}
use openuu_server.Rendezvous.Register.{RegisterPk, Registry}
use openuu_server.Rendezvous.RelayServers.{RelayServers}
use openuu_server.Rendezvous.TcpPeers.{Sink, stream, closed}

-- `rest` is what hbbs passes on unread.
pub record RequestRelay : Type 0 where
  pub id : String
  pub uuid : String
  pub token : String
  pub socket_addr : Bytes
  pub relay_server : String
  pub rest : Bytes

-- the union of RelayResponse
pub data PeerKey : Type 0 where
  id : String → PeerKey
  pk : Bytes → PeerKey
  unset : PeerKey

pub record RelayResponse : Type 0 where
  pub socket_addr : Bytes
  pub uuid : String
  pub relay_server : String
  pub peer : PeerKey
  pub version : String
  pub refuse_reason : String

-- PunchHoleSent; `nat_type` is its `enum_value()`
pub record PunchHoleSent : Type 0 where
  pub socket_addr : Bytes
  pub id : String
  pub relay_server : String
  pub nat_type : Option NatType
  pub version : String

pub record LocalAddr : Type 0 where
  pub socket_addr : Bytes
  pub local_addr : Bytes
  pub relay_server : String
  pub id : String
  pub version : String

-- the union of RendezvousMessage, as far as the handler tells its cases apart
pub data TcpMessage : Type 0 where
  punch_hole_request : PunchHoleRequest → TcpMessage
  request_relay : RequestRelay → TcpMessage
  relay_response : RelayResponse → TcpMessage
  punch_hole_sent : PunchHoleSent → TcpMessage
  local_addr : LocalAddr → TcpMessage
  test_nat_request : ℕ → TcpMessage
  -- id and serial
  register_peer : String → ℕ → TcpMessage
  register_pk : RegisterPk → TcpMessage
  other_message : TcpMessage

-- PunchHoleResponse, where it is no failure
pub record PunchHoleResponse : Type 0 where
  pub socket_addr : Bytes
  pub pk : Bytes
  pub relay_server : String
  pub nat_type : NatType
  pub is_local : Bool

pub data Outgoing : Type 0 where
  punch : Message → Outgoing
  punch_hole_response : PunchHoleResponse → Outgoing
  forward_relay : RequestRelay → Outgoing
  -- the RequestRelay that goes back to a peer: uuid and ticket
  grant_relay : String → String → Outgoing
  forward_response : RelayResponse → Outgoing
  test_nat_response : ℕ → Option (ℕ × List String) → Outgoing
  register_peer_result : Bool → Outgoing
  register_pk_response : RegisterResult → Outgoing
  config_update : ℕ → List String → Outgoing
  -- KeyExchange with the signed public key
  key_exchange : Bytes → Outgoing

pub data Effect : Type 0 where
  -- written to a sink
  written : ℕ → Outgoing → Effect
  -- `tx.send(Data::Msg(..))`: pushed to a peer, over its connection or over UDP
  pushed : SocketAddr → Outgoing → Effect

-- `accounts` is the database of src/account, which hbbs opens too; `sk` is the signing key.
pub record TcpServer : Type 0 where
  pub registry : Registry
  pub punch_reqs : List PunchReqEntry
  pub relays : RelayServers
  pub always_use_relay : Bool
  pub mask : Option (ℕ → Bool)
  pub local_ip : String
  pub punch_sessions : PunchSessions
  pub tcp_punch : List (SocketAddr × ℕ)
  pub tcp_peers : List (SocketAddr × Sink)
  pub accounts : Accounts
  pub serial : ℕ
  pub rendezvous_servers : List String
  pub sk : Option Bytes

-- A connection: its sink until it moves into a map, what was sent (the last first), and the server.
pub record Conn : Type 0 where
  pub sink : Option ℕ
  pub out : List Effect
  pub server : TcpServer

-- What the handlers take from outside: libraries, the clocks (milliseconds of the monotonic one, and
-- Unix seconds), and random values.
pub record Outside : Type 0 where
  pub net : AddrTools
  pub codec : InfoCodec
  pub crypto : Crypto
  -- sign::sign of an IdPk by the key
  pub sign_id_pk : Bytes → String → Bytes → Bytes
  pub now : ℕ
  pub unix_now : ℕ
  pub new_guid : Bytes
  pub new_ticket : String

-- What changes from message to message.
pub record Moment : Type 0 where
  pub now : ℕ
  pub unix_now : ℕ
  pub new_guid : Bytes
  pub new_ticket : String

abbrev pub at : Moment → Outside → Outside
at m x = record x {
  now = m.now;
  unix_now = m.unix_now;
  new_guid = m.new_guid;
  new_ticket = m.new_ticket;
}

abbrev pub pm_of : TcpServer → PeerMap
pm_of s = s.registry.pm

abbrev pub with_pm : PeerMap → TcpServer → TcpServer
with_pm pm s = record s { registry = record s.registry { pm = pm } }

-- the fields that `handle_punch_hole_request` works on
abbrev pub punch_view : TcpServer → PunchServer
punch_view s = record {
  pm = pm_of s;
  punch_reqs = s.punch_reqs;
  relays = s.relays;
  always_use_relay = s.always_use_relay;
  mask = s.mask;
  local_ip = s.local_ip;
}

abbrev pub with_punch : PunchServer → TcpServer → TcpServer
with_punch p s = record (with_pm p.pm s) { punch_reqs = p.punch_reqs; relays = p.relays }

abbrev pub emit : Effect → Conn → Conn
emit e c = record c { out = e ∷ c.out }

abbrev pub serve : (TcpServer → TcpServer) → Conn → Conn
serve f c = record c { server = f c.server }

abbrev pub write_to_peer : Option Sink → Outgoing → Conn → Conn
write_to_peer none msg c = c
write_to_peer (some closed) msg c = c
write_to_peer (some (stream n)) msg c = emit (written n msg) c

abbrev pub to_punch : Option ℕ → SocketAddr → Conn → Conn
to_punch none k c = c
to_punch (some n) k c = record c {
  sink = none;
  server = record c.server { tcp_punch = insert SocketAddr-discrete k n c.server.tcp_punch };
}

abbrev pub to_peers : Option ℕ → SocketAddr → Conn → Conn
to_peers none k c = c
to_peers (some n) k c = record c {
  sink = none;
  server = record c.server {
    tcp_peers = insert SocketAddr-discrete k (stream n) c.server.tcp_peers;
  };
}

module _ (x : Outside) where
  -- `if let Some(sink) = sink.take()`, into `tcp_punch` and into `tcp_peers`
  unfoldable pub move_to_punch : SocketAddr → Conn → Conn
  move_to_punch addr c = to_punch c.sink (x.net.try_into_v4 addr) c

  unfoldable pub move_to_peers : SocketAddr → Conn → Conn
  move_to_peers addr c = to_peers c.sink (x.net.try_into_v4 addr) c

  -- send_to_tcp_peer, with nothing between its steps
  unfoldable pub send_to_tcp_peer : SocketAddr → Outgoing → Conn → Conn
  send_to_tcp_peer addr msg c =
      write_to_peer (get SocketAddr-discrete (x.net.try_into_v4 addr) c.server.tcp_peers) msg c

  abbrev pub write_once : SocketAddr → Option ℕ → Outgoing → Conn → Conn
  write_once addr none msg c = send_to_tcp_peer addr msg c
  write_once addr (some n) msg c = emit (written n msg) (
      serve
        (λ s. record s {
          tcp_punch = remove SocketAddr-discrete (x.net.try_into_v4 addr) s.tcp_punch;
        })
        c)

  -- send_to_tcp and send_to_tcp_sync: a sink of tcp_punch is used once
  unfoldable pub send_to_tcp : SocketAddr → Outgoing → Conn → Conn
  unfolding send_to_tcp_peer
  send_to_tcp addr msg c =
      write_once addr (get SocketAddr-discrete (x.net.try_into_v4 addr) c.server.tcp_punch) msg c

  abbrev pub reply_by : Option ℕ → SocketAddr → Outgoing → Conn → Conn
  reply_by (some n) addr msg c = emit (written n msg) c
  reply_by none addr msg c = send_to_tcp_peer addr msg c

  unfoldable pub reply_on_connection : SocketAddr → Outgoing → Conn → Conn
  unfolding send_to_tcp_peer
  reply_on_connection addr msg c = reply_by c.sink addr msg c
