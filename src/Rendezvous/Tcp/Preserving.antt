-- ===== src/Rendezvous/Tcp/Preserving.antt =====
-- Properties of the server that the single writes of a TCP message keep, and the ways of sending
-- (src/rendezvous_server/tcp.rs and tcp_register.rs).
pub mod Answers
pub mod Messages
use openuu_server.Prelude.{
  ℕ, String, Bool, ◌||◌, not, ◌&&◌, Option, none, some, Bytes, [], List, inl, inr, ltb, is_empty,
  Bool-cases, leb, ◌-◌,
}
use openuu_server.Prelude.Text.{is_empty_text}
use openuu_server.Net.{SocketAddr}
use openuu_server.Account.Api.{authorized, peer_ticket}
use openuu_server.Account.Tables.{Accounts}
use openuu_server.Rendezvous.Messages.{PunchHoleRequest, Message}
use openuu_server.Rendezvous.Peers.{Peer, get_in_memory, get_or_load, string_eq}
use openuu_server.Rendezvous.Punch.{
  PunchServer, PunchReqEntry, handle_punch_hole_request, to_peer, reg_timeout, is_lan,
}
use openuu_server.Rendezvous.PunchSessions.{PunchSessions}
use openuu_server.Rendezvous.Register.{
  RegisterPk, Registry, register_peer_response, register_pk_result,
}
use openuu_server.Rendezvous.RelayServers.{get_relay_server}
use openuu_server.Rendezvous.TcpPeers.{Sink, stream, closed}
use openuu_server.Rendezvous.Tcp.Wire.{
  RequestRelay, RelayResponse, PunchHoleSent, LocalAddr, TcpMessage, punch_hole_request,
  request_relay, relay_response, punch_hole_sent, local_addr, test_nat_request, register_peer,
  register_pk, other_message, TcpServer, Conn, Outside, Outgoing, grant_relay, pm_of, with_pm,
  serve, punch, punch_view, with_punch, register_peer_result, register_pk_response, move_to_punch,
  move_to_peers, send_to_tcp_peer, send_to_tcp, reply_on_connection, write_to_peer, write_once,
  reply_by, to_punch, to_peers, forward_response,
}
use openuu_server.Rendezvous.Tcp.Replies.{
  id_of, get_pk, sign_pk, grant, answer_session, answer_peer_initiated_relay, with_key, with_relay,
  handle_hole_sent, handle_local_addr, handle_relay_response,
}
use openuu_server.Rendezvous.Tcp.Handlers.{
  answer_punch, handle_tcp_punch_hole_request, forward, handle_request_relay, or_empty,
  handle_tcp_register_peer, handle_tcp_register_pk, remembered, handle_tcp,
}

module _ (x : Outside) (P : TcpServer → Type 0) where
  -- the writes that a message is made of
  pub record IsKept : Type 0 where
    pub tcp_punch :
        (s : TcpServer) (m : List (SocketAddr × ℕ)) → P s → P (record s { tcp_punch = m })
    pub tcp_peers :
        (s : TcpServer) (m : List (SocketAddr × Sink)) → P s → P (record s { tcp_peers = m })
    pub sessions : (s : TcpServer) (m : PunchSessions) → P s → P (record s { punch_sessions = m })
    pub registry : (s : TcpServer) (r : Registry) → P s → P (record s { registry = r })
    pub punch_reqs :
        (s : TcpServer) (q : List PunchReqEntry) → P s → P (record s { punch_reqs = q })
    pub rotation : (s : TcpServer) → P s → P (record s { relays = (get_relay_server s.relays).1 })
    pub accounts :
        (s : TcpServer) (token uuid : String)
        → P s
        → P (record s {
          accounts = (peer_ticket x.crypto x.unix_now x.new_ticket token uuid s.accounts).1;
        })

  module _ (kept : IsKept) (addr : SocketAddr) where
    write_to_peer_kept :
        (o : Option Sink) (msg : Outgoing) (c : Conn)
        → P c.server
        → P (write_to_peer o msg c).server
    write_to_peer_kept none msg c h = h
    write_to_peer_kept (some closed) msg c h = h
    write_to_peer_kept (some (stream n)) msg c h = h

    pub send_peer_kept :
        (to : SocketAddr) (msg : Outgoing) (c : Conn)
        → P c.server
        → P (send_to_tcp_peer x to msg c).server
    unfolding send_to_tcp_peer
    send_peer_kept to msg c h = write_to_peer_kept _ msg c h

    write_once_kept :
        (to : SocketAddr) (o : Option ℕ) (msg : Outgoing) (c : Conn)
        → P c.server
        → P (write_once x to o msg c).server
    write_once_kept to none msg c h = send_peer_kept to msg c h
    write_once_kept to (some n) msg c h = kept.tcp_punch c.server _ h

    pub send_kept :
        (to : SocketAddr) (msg : Outgoing) (c : Conn)
        → P c.server
        → P (send_to_tcp x to msg c).server
    unfolding send_to_tcp
    send_kept to msg c h = write_once_kept to _ msg c h

    reply_by_kept :
        (o : Option ℕ) (msg : Outgoing) (c : Conn) → P c.server → P (reply_by x o addr msg c).server
    reply_by_kept none msg c h = send_peer_kept addr msg c h
    reply_by_kept (some n) msg c h = h

    pub reply_kept :
        (msg : Outgoing) (c : Conn) → P c.server → P (reply_on_connection x addr msg c).server
    unfolding reply_on_connection
    reply_kept msg c h = reply_by_kept c.sink msg c h

    to_punch_kept :
        (o : Option ℕ) (k : SocketAddr) (c : Conn) → P c.server → P (to_punch o k c).server
    to_punch_kept none k c h = h
    to_punch_kept (some n) k c h = kept.tcp_punch c.server _ h

    to_peers_kept :
        (o : Option ℕ) (k : SocketAddr) (c : Conn) → P c.server → P (to_peers o k c).server
    to_peers_kept none k c h = h
    to_peers_kept (some n) k c h = kept.tcp_peers c.server _ h

    pub move_punch_kept : (c : Conn) → P c.server → P (move_to_punch x addr c).server
    unfolding move_to_punch
    move_punch_kept c h = to_punch_kept c.sink _ c h

    pub move_peers_kept : (c : Conn) → P c.server → P (move_to_peers x addr c).server
    unfolding move_to_peers
    move_peers_kept c h = to_peers_kept c.sink _ c h
