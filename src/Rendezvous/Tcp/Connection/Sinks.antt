-- ===== src/Rendezvous/Tcp/Connection/Sinks.antt =====
-- Where the handlers of a connection leave its sink (`handle_tcp` of src/rendezvous_server/tcp.rs).
use openuu_server.Prelude.{
  ℕ, String, Bool, true, false, ◌||◌, Option, none, some, [], refl, ◌∙◌, arith, Bool-cases, inl,
  inr, if◌then◌else◌, ltb, is_empty,
}
use openuu_server.Prelude.Text.{is_empty_text}
use openuu_server.Net.{SocketAddr}
use openuu_server.Account.Api.{authorized, peer_ticket}
use openuu_server.Account.Tables.{Accounts}
use openuu_server.Rendezvous.Messages.{Message, other}
use openuu_server.Rendezvous.Peers.{Peer, get_in_memory}
use openuu_server.Rendezvous.Punch.{PunchServer, handle_punch_hole_request}
use openuu_server.Rendezvous.PunchSessions.{token_for}
use openuu_server.Rendezvous.Register.{RegisterPk, register_peer_response, register_pk_result}
use openuu_server.Rendezvous.Tcp.Wire.{
  RequestRelay, RelayResponse, PunchHoleSent, LocalAddr, TcpMessage, punch_hole_request,
  request_relay, relay_response, punch_hole_sent, local_addr, test_nat_request, register_peer,
  register_pk, other_message, punch, punch_hole_response, grant_relay, forward_response,
  test_nat_response, register_peer_result, register_pk_response, config_update, TcpServer, Conn,
  Outside, pm_of, with_pm, with_punch, punch_view, serve, move_to_punch, move_to_peers,
  send_to_tcp_peer,
}
use openuu_server.Rendezvous.Tcp.Replies.{
  or_none, get_pk, grant, answer_session, answer_peer_initiated_relay, with_key, with_relay, id_of,
  handle_hole_sent, handle_local_addr, handle_relay_response,
}
use openuu_server.Rendezvous.Tcp.Handlers.{
  answer_punch, handle_tcp_punch_hole_request, forward, handle_request_relay,
  handle_tcp_register_peer, handle_tcp_register_pk, remembered, handle_tcp, or_empty,
}
use openuu_server.Rendezvous.Tcp.Owning.{
  Mine, SameSinks, send_to_tcp_peer-Mine, send_to_tcp-Mine, reply_on_connection-Mine,
  move_to_punch-Mine, move_to_peers-Mine, get_pk-SameSinks,
}

module _ (x : Outside) (addr : SocketAddr) (n : ℕ) where
  abbrev pub Stays : Conn → Type 0
  Stays c = Mine n (x.net.try_into_v4 addr) c

  moved_on :
      (c : Conn) (s : TcpServer) → SameSinks c.server s → Stays c → Stays (record c { server = s })
  moved_on c s (e, e') h = rw (e, e') h

  answered :
      (r : (Message × Option SocketAddr) × PunchServer) (c : Conn)
      → Stays c
      → Stays (answer_punch x addr r c)
  answered ((msg, none), p) c h =
      send_to_tcp-Mine n (x.net.try_into_v4 addr) x addr (punch msg) (serve (with_punch p) c) h
  answered ((msg, some a), p) c h = h

  handle_hole_sent-Stays :
      (phs : PunchHoleSent) (c : Conn) → Stays c → Stays (handle_hole_sent x phs addr c)
  unfolding handle_hole_sent
  handle_hole_sent-Stays phs c h =
      let (key, s) = get_pk x phs.version phs.id c.server in
      send_to_tcp-Mine n (x.net.try_into_v4 addr) x (x.net.decode phs.socket_addr)
        (punch_hole_response (record {
          socket_addr = x.net.encode addr;
          pk = key;
          relay_server = phs.relay_server;
          nat_type = or_none phs.nat_type;
          is_local = false;
        }))
        (record c { server = s }) (moved_on c s (get_pk-SameSinks x phs.version phs.id c.server) h)

  handle_local_addr-Stays :
      (la : LocalAddr) (c : Conn) → Stays c → Stays (handle_local_addr x la addr c)
  unfolding handle_local_addr
  handle_local_addr-Stays la c h =
      let (key, s) = get_pk x la.version la.id c.server in
      send_to_tcp-Mine n (x.net.try_into_v4 addr) x (x.net.decode la.socket_addr)
        (punch_hole_response (record {
          socket_addr = la.local_addr;
          pk = key;
          relay_server = la.relay_server;
          nat_type = other 0;
          is_local = true;
        }))
        (record c { server = s }) (moved_on c s (get_pk-SameSinks x la.version la.id c.server) h)

  granted :
      (rr : RelayResponse) (r : Option String × Accounts) (c : Conn)
      → Stays c
      → Stays (grant x rr addr r c)
  granted rr (none, db) c h = h
  granted rr (some ticket, db) c h =
      reply_on_connection-Mine n (x.net.try_into_v4 addr) x addr (grant_relay rr.uuid ticket)
        (serve (λ s. record s { accounts = db }) c) h

  session_answered :
      (rr : RelayResponse) (o : Option String) (c : Conn)
      → Stays c
      → Stays (answer_session x rr addr o c)
  session_answered rr none c h = h
  session_answered rr (some token) c h =
      granted rr (peer_ticket x.crypto x.unix_now x.new_ticket token rr.uuid c.server.accounts) c h

  answer_peer_initiated_relay-Stays :
      (rr : RelayResponse) (controller : SocketAddr) (c : Conn)
      → Stays c
      → Stays (answer_peer_initiated_relay x rr controller addr c)
  unfolding answer_peer_initiated_relay
  answer_peer_initiated_relay-Stays rr controller c h = elim (Bool-cases (is_empty_text rr.uuid)) [
    | inl none_given ↦ rw none_given h
    | inr given ↦ rw given (
        session_answered rr
          (token_for x.net x.now controller (id_of rr.peer) c.server.punch_sessions) c h)
  ]

  keyed_same : (rr : RelayResponse) (s : TcpServer) → SameSinks s (with_key x rr s).1
  keyed_same rr s = elim (Bool-cases (is_empty_text (id_of rr.peer))) [
    | inl none_given ↦ rw none_given (refl, refl)
    | inr given ↦ rw given (get_pk-SameSinks x rr.version (id_of rr.peer) s)
  ]

  routed_same :
      (addr_b : SocketAddr) (rr : RelayResponse) (s : TcpServer)
      → SameSinks s (with_relay x addr_b rr s).1
  routed_same addr_b rr s = (ground arith, ground arith)

  handle_relay_response-Stays :
      (rr : RelayResponse) (c : Conn) → Stays c → Stays (handle_relay_response x rr addr c)
  unfolding handle_relay_response
  handle_relay_response-Stays rr c h =
      let addr_b = x.net.decode rr.socket_addr in
      let c₁ = answer_peer_initiated_relay x rr addr_b addr c in
      let bare = record rr { socket_addr = [] } in
      let (keyed, s₂) = with_key x bare c₁.server in
      let (routed, s₃) = with_relay x addr_b keyed s₂ in
      let (punch₂, peers₂) = keyed_same bare c₁.server in
      let (punch₃, peers₃) = routed_same addr_b keyed s₂ in
      send_to_tcp-Mine n (x.net.try_into_v4 addr) x addr_b (forward_response routed)
        (record c₁ { server = s₃ })
        (moved_on c₁ s₃ (punch₃ ∙ punch₂, peers₃ ∙ peers₂)
          (answer_peer_initiated_relay-Stays rr addr_b c h))

  forwarded :
      (rf : RequestRelay) (o : Option Peer) (c : Conn) → Stays c → Stays (forward x rf addr o c)
  forwarded rf none c h = h
  forwarded rf (some p) c h = h

  handle_request_relay-Stays :
      (rf : RequestRelay) (c : Conn) → Stays c → Stays (handle_request_relay x rf addr c)
  unfolding handle_request_relay
  handle_request_relay-Stays rf c h =
      let r = peer_ticket x.crypto x.unix_now x.new_ticket rf.token rf.uuid c.server.accounts in
      let c₀ = serve (λ s. record s { accounts = r.1 }) c in
      forwarded (record rf { token = or_empty r.0 })
        (get_in_memory rf.id (pm_of (move_to_punch x addr c₀).server)) (move_to_punch x addr c₀)
        (move_to_punch-Mine x addr n c₀ h)

  handle_tcp_register_peer-Stays :
      (i : String) (serial : ℕ) (c : Conn)
      → Stays c
      → Stays (handle_tcp_register_peer x i serial addr c)
  unfolding handle_tcp_register_peer
  handle_tcp_register_peer-Stays i serial c h = elim (Bool-cases (is_empty_text i)) [
    | inl none_given ↦ rw none_given h
    | inr given ↦
        let c₁ = move_to_peers x addr c in
        let r = register_peer_response x.net x.now i addr (pm_of c₁.server) in
        let c₂ = send_to_tcp_peer x addr (register_peer_result r.0) (serve (with_pm r.1) c₁) in
        let h₂ : Stays c₂ =
          send_to_tcp_peer-Mine n (x.net.try_into_v4 addr) x addr (register_peer_result r.0)
            (serve (with_pm r.1) c₁) (move_to_peers-Mine x addr n c h) in
        let update = config_update c₂.server.serial c₂.server.rendezvous_servers in
        rw given (elim (Bool-cases (ltb serial c₂.server.serial)) [
          | inl older ↦
              rw older (send_to_tcp_peer-Mine n (x.net.try_into_v4 addr) x addr update c₂ h₂)
          | inr current ↦ rw current h₂
        ])
  ]

  handle_tcp_register_pk-Stays :
      (rk : RegisterPk) (c : Conn) → Stays c → Stays (handle_tcp_register_pk x rk addr c)
  unfolding handle_tcp_register_pk
  handle_tcp_register_pk-Stays rk c h = elim (Bool-cases (is_empty rk.uuid || is_empty rk.pk)) [
    | inl bad ↦ rw bad h
    | inr good ↦
        let c₁ = move_to_peers x addr c in
        let r = register_pk_result x.net x.codec x.now x.new_guid rk addr c₁.server.registry in
        rw good (
          send_to_tcp_peer-Mine n (x.net.try_into_v4 addr) x addr (register_pk_response r.0)
            (serve (λ s. record s { registry = r.1 }) c₁) (move_to_peers-Mine x addr n c h))
  ]

  -- A message leaves the sink of its connection with the connection or under its address.
  pub handle_tcp-Stays :
      (m : TcpMessage) (key : String) (ws : Bool) (c : Conn)
      → Stays c
      → Stays (handle_tcp x m addr key ws c).1
  unfolding handle_tcp handle_tcp_punch_hole_request
  handle_tcp-Stays (punch_hole_request ph) key ws c h =
      elim (Bool-cases (authorized x.crypto x.unix_now ph.token c.server.accounts)) [
        | inr refused ↦ rw refused h
        | inl good ↦
            let c₁ = serve (remembered x addr ph) (move_to_punch x addr c) in
            rw good (
              answered
                (handle_punch_hole_request x.net x.codec x.now addr ph key ws
                  (punch_view c₁.server))
                c₁ (move_to_punch-Mine x addr n c h))
      ]
  handle_tcp-Stays (request_relay rf) key ws c h =
      elim (Bool-cases (authorized x.crypto x.unix_now rf.token c.server.accounts)) [
        | inr refused ↦ rw refused h
        | inl good ↦ rw good (handle_request_relay-Stays rf c h)
      ]
  handle_tcp-Stays (relay_response rr) key ws c h = handle_relay_response-Stays rr c h
  handle_tcp-Stays (punch_hole_sent phs) key ws c h = handle_hole_sent-Stays phs c h
  handle_tcp-Stays (local_addr la) key ws c h = handle_local_addr-Stays la c h
  handle_tcp-Stays (test_nat_request serial) key ws c h =
      reply_on_connection-Mine n (x.net.try_into_v4 addr) x addr
        (test_nat_response addr.port (
          if ltb serial c.server.serial
          then some (c.server.serial, c.server.rendezvous_servers)
          else none))
        c h
  handle_tcp-Stays (register_peer i serial) key ws c h = handle_tcp_register_peer-Stays i serial c h
  handle_tcp-Stays (register_pk rk) key ws c h = handle_tcp_register_pk-Stays rk c h
  handle_tcp-Stays other_message key ws c h = h
