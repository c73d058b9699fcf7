-- ===== src/Rendezvous/Tcp/Handlers.antt =====
-- The requests to hbbs over TCP, and `handle_tcp` (src/rendezvous_server/tcp.rs, punch.rs and
-- tcp_register.rs). The Boolean of a handler says whether the connection goes on.
use openuu_server.Prelude.{
  ℕ, String, Bool, true, false, not, ◌||◌, Option, none, some, ltb, if◌then◌else◌, is_empty,
}
use openuu_server.Prelude.Map.{contains_key}
use openuu_server.Prelude.Text.{is_empty_text}
use openuu_server.Net.{SocketAddr, SocketAddr-discrete}
use openuu_server.Account.Api.{authorized, peer_ticket}
use openuu_server.Rendezvous.Messages.{PunchHoleRequest, Message}
use openuu_server.Rendezvous.Peers.{Peer, get_in_memory}
use openuu_server.Rendezvous.Punch.{PunchServer, handle_punch_hole_request}
use openuu_server.Rendezvous.PunchSessions.{remember}
use openuu_server.Rendezvous.Register.{RegisterPk, register_peer_response, register_pk_result}
use openuu_server.Rendezvous.Tcp.Wire.{
  RequestRelay, TcpMessage, punch_hole_request, request_relay, relay_response, punch_hole_sent,
  local_addr, test_nat_request, register_peer, register_pk, other_message, punch, forward_relay,
  test_nat_response, register_peer_result, register_pk_response, config_update, pushed, TcpServer,
  Conn, Outside, pm_of, with_pm, punch_view, with_punch, emit, serve, move_to_punch, move_to_peers,
  send_to_tcp_peer, send_to_tcp, reply_on_connection,
}
use openuu_server.Rendezvous.Tcp.Replies.{
  handle_hole_sent, handle_local_addr, handle_relay_response,
}

abbrev pub or_empty : Option String → String
or_empty none = ""
or_empty (some t) = t

module _ (x : Outside) where
  abbrev pub answer_punch : SocketAddr → (Message × Option SocketAddr) × PunchServer → Conn → Conn
  answer_punch addr ((msg, some to), p) c = emit (pushed to (punch msg)) (serve (with_punch p) c)
  answer_punch addr ((msg, none), p) c = send_to_tcp x addr (punch msg) (serve (with_punch p) c)

  unfoldable pub handle_tcp_punch_hole_request :
      SocketAddr → PunchHoleRequest → String → Bool → Conn → Conn
  unfolding send_to_tcp
  handle_tcp_punch_hole_request addr ph key ws c =
      answer_punch addr
        (handle_punch_hole_request x.net x.codec x.now addr ph key ws (punch_view c.server)) c

  abbrev pub forward : RequestRelay → SocketAddr → Option Peer → Conn → Conn
  forward rf addr none c = c
  forward rf addr (some peer) c =
      emit (pushed peer.socket_addr (forward_relay (record rf { socket_addr = x.net.encode addr })))
        c

  unfoldable pub handle_request_relay : RequestRelay → SocketAddr → Conn → Conn
  unfolding move_to_punch
  handle_request_relay rf addr c =
      let (ticket, db) =
        peer_ticket x.crypto x.unix_now x.new_ticket rf.token rf.uuid c.server.accounts in
      let c₁ = move_to_punch x addr (serve (λ s. record s { accounts = db }) c) in
      forward (record rf { token = or_empty ticket }) addr (get_in_memory rf.id (pm_of c₁.server))
        c₁

  unfoldable pub handle_tcp_register_peer : String → ℕ → SocketAddr → Conn → Conn
  unfolding move_to_peers send_to_tcp_peer
  handle_tcp_register_peer i serial addr c =
      if is_empty_text i
      then c
      else (let c₁ = move_to_peers x addr c in
          let (request_pk, pm) = register_peer_response x.net x.now i addr (pm_of c₁.server) in
          let c₂ =
            send_to_tcp_peer x addr (register_peer_result request_pk) (serve (with_pm pm) c₁) in
          if ltb serial c₂.server.serial
          then send_to_tcp_peer x addr (config_update c₂.server.serial c₂.server.rendezvous_servers)
              c₂
          else c₂)

  unfoldable pub handle_tcp_register_pk : RegisterPk → SocketAddr → Conn → Conn
  unfolding move_to_peers send_to_tcp_peer
  handle_tcp_register_pk rk addr c =
      if is_empty rk.uuid || is_empty rk.pk
      then c
      else (let c₁ = move_to_peers x addr c in
          let (r, registry) =
            register_pk_result x.net x.codec x.now x.new_guid rk addr c₁.server.registry in
          send_to_tcp_peer x addr (register_pk_response r)
            (serve (λ s. record s { registry = registry }) c₁))

  -- is_tcp_peer
  unfoldable pub goes_on : SocketAddr → Conn → Bool
  unfolding contains_key
  goes_on addr c = contains_key SocketAddr-discrete (x.net.try_into_v4 addr) c.server.tcp_peers

  abbrev pub then_closes : SocketAddr → Conn → Bool × Conn
  then_closes addr c = (goes_on addr c, c)

  abbrev pub remembered : SocketAddr → PunchHoleRequest → TcpServer → TcpServer
  remembered addr ph s = record s {
    punch_sessions = remember x.net x.now addr ph.id ph.token s.punch_sessions;
  }

  -- `key` is the server's key, `ws` whether the connection is a WebSocket
  unfoldable pub handle_tcp : TcpMessage → SocketAddr → String → Bool → Conn → Bool × Conn
  unfolding handle_hole_sent handle_local_addr handle_tcp_punch_hole_request handle_relay_response
      handle_request_relay handle_tcp_register_peer handle_tcp_register_pk reply_on_connection
      move_to_punch goes_on
  handle_tcp (punch_hole_request ph) addr key ws c =
      if not (authorized x.crypto x.unix_now ph.token c.server.accounts) then (false, c) else (
        true,
        handle_tcp_punch_hole_request addr ph key ws
            (serve (remembered addr ph) (move_to_punch x addr c)),
      )
  handle_tcp (request_relay rf) addr key ws c =
      if not (authorized x.crypto x.unix_now rf.token c.server.accounts)
      then (false, c)
      else (true, handle_request_relay rf addr c)
  handle_tcp (relay_response rr) addr key ws c =
      then_closes addr (handle_relay_response x rr addr c)
  handle_tcp (punch_hole_sent phs) addr key ws c = then_closes addr (handle_hole_sent x phs addr c)
  handle_tcp (local_addr la) addr key ws c = then_closes addr (handle_local_addr x la addr c)
  handle_tcp (test_nat_request serial) addr key ws c = then_closes addr (
      reply_on_connection x addr
        (test_nat_response addr.port (
          if ltb serial c.server.serial
          then some (c.server.serial, c.server.rendezvous_servers)
          else none))
        c)
  handle_tcp (register_peer i serial) addr key ws c =
      (true, handle_tcp_register_peer i serial addr c)
  handle_tcp (register_pk rk) addr key ws c = (true, handle_tcp_register_pk rk addr c)
  handle_tcp other_message addr key ws c = then_closes addr c
