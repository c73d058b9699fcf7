-- ===== src/Rendezvous/Tcp/Replies.antt =====
-- The answers that peers send through hbbs to the controllers: PunchHoleSent, LocalAddr and RelayResponse
-- (`handle_hole_sent` and `handle_local_addr` of src/rendezvous_server/punch.rs, `get_pk`, the
-- RelayResponse arm of `handle_tcp` and `answer_peer_initiated_relay` of tcp.rs).
use openuu_server.Prelude.{String, true, false, Option, none, some, [], if◌then◌else◌, Bytes}
use openuu_server.Prelude.Text.{is_empty_text}
use openuu_server.Net.{SocketAddr}
use openuu_server.Account.Api.{peer_ticket}
use openuu_server.Account.Tables.{Accounts}
use openuu_server.Rendezvous.Messages.{NatType, other}
use openuu_server.Rendezvous.Peers.{Peer, get_or_load, string_eq}
use openuu_server.Rendezvous.Punch.{is_lan}
use openuu_server.Rendezvous.PunchSessions.{token_for}
use openuu_server.Rendezvous.RelayServers.{get_relay_server}
use openuu_server.Rendezvous.Tcp.Wire.{
  RelayResponse, PeerKey, id, pk, unset, PunchHoleSent, LocalAddr, punch_hole_response, grant_relay,
  forward_response, TcpServer, Conn, Outside, pm_of, with_pm, punch_view, serve, send_to_tcp,
  reply_on_connection,
}

-- rr.id()
abbrev pub id_of : PeerKey → String
id_of (id i) = i
id_of (pk b) = ""
id_of unset = ""

abbrev pub or_none : Option NatType → NatType
or_none none = other 0
or_none (some n) = n

module _ (x : Outside) where
  abbrev pub signed : Bytes → String → Option Peer → Bytes
  signed sk i none = []
  signed sk i (some p) = x.sign_id_pk sk i p.pk

  abbrev pub sign_pk : Option Bytes → String → TcpServer → Bytes × TcpServer
  sign_pk none i s = ([], s)
  sign_pk (some sk) i s =
      let (found, pm) = get_or_load x.codec x.now i (pm_of s) in (signed sk i found, with_pm pm s)

  unfoldable pub get_pk : String → String → TcpServer → Bytes × TcpServer
  get_pk version i s = if is_empty_text version then ([], s) else sign_pk s.sk i s

  unfoldable pub handle_hole_sent : PunchHoleSent → SocketAddr → Conn → Conn
  unfolding get_pk send_to_tcp
  handle_hole_sent phs addr c =
      let (key, s) = get_pk phs.version phs.id c.server in
      send_to_tcp x (x.net.decode phs.socket_addr)
        (punch_hole_response (record {
          socket_addr = x.net.encode addr;
          pk = key;
          relay_server = phs.relay_server;
          nat_type = or_none phs.nat_type;
          is_local = false;
        }))
        (record c { server = s })

  unfoldable pub handle_local_addr : LocalAddr → SocketAddr → Conn → Conn
  unfolding get_pk send_to_tcp
  handle_local_addr la addr c =
      let (key, s) = get_pk la.version la.id c.server in
      send_to_tcp x (x.net.decode la.socket_addr)
        (punch_hole_response (record {
          socket_addr = la.local_addr;
          pk = key;
          relay_server = la.relay_server;
          nat_type = other 0;
          is_local = true;
        }))
        (record c { server = s })

  abbrev pub grant : RelayResponse → SocketAddr → Option String × Accounts → Conn → Conn
  grant rr from (none, db) c = serve (λ s. record s { accounts = db }) c
  grant rr from (some ticket, db) c =
      reply_on_connection x from (grant_relay rr.uuid ticket)
        (serve (λ s. record s { accounts = db }) c)

  abbrev pub answer_session : RelayResponse → SocketAddr → Option String → Conn → Conn
  answer_session rr from none c = c
  answer_session rr from (some token) c =
      grant rr from (peer_ticket x.crypto x.unix_now x.new_ticket token rr.uuid c.server.accounts) c

  unfoldable pub answer_peer_initiated_relay : RelayResponse → SocketAddr → SocketAddr → Conn → Conn
  unfolding reply_on_connection
  answer_peer_initiated_relay rr controller from c =
      if is_empty_text rr.uuid
      then c
      else answer_session rr from
          (token_for x.net x.now controller (id_of rr.peer) c.server.punch_sessions) c

  -- what RelayResponse becomes on its way to the controller `addr_b`
  abbrev pub with_key : RelayResponse → TcpServer → RelayResponse × TcpServer
  with_key rr s =
      if is_empty_text (id_of rr.peer)
      then (rr, s)
      else (let (key, s') = get_pk rr.version (id_of rr.peer) s in
          (record rr { peer = pk key }, s'))

  abbrev pub with_relay : SocketAddr → RelayResponse → TcpServer → RelayResponse × TcpServer
  with_relay addr_b rr s =
      if is_empty_text rr.relay_server
      then (rr, s)
      else if is_lan (punch_view s) addr_b
      then (record rr { relay_server = s.local_ip }, s)
      else if string_eq rr.relay_server s.local_ip
      then (let (relay, relays) = get_relay_server s.relays in
          (record rr { relay_server = relay }, record s { relays = relays }))
      else (rr, s)

  unfoldable pub handle_relay_response : RelayResponse → SocketAddr → Conn → Conn
  unfolding answer_peer_initiated_relay get_pk send_to_tcp
  handle_relay_response rr addr c =
      let addr_b = x.net.decode rr.socket_addr in
      let c₁ = answer_peer_initiated_relay rr addr_b addr c in
      let (keyed, s₂) = with_key (record rr { socket_addr = [] }) c₁.server in
      let (routed, s₃) = with_relay addr_b keyed s₂ in
      send_to_tcp x addr_b (forward_response routed) (record c₁ { server = s₃ })
