-- ===== src/Rendezvous/Tcp/Preserving/Answers.antt =====
-- What punch-hole requests, the answers of peers and relay requests keep (src/rendezvous_server/tcp.rs
-- and punch.rs).
use openuu_server.Prelude.{
  String, Bool, not, ◌&&◌, Option, none, some, Bytes, [], List, inl, inr, Bool-cases, leb, ◌-◌,
}
use openuu_server.Prelude.Text.{is_empty_text}
use openuu_server.Net.{SocketAddr}
use openuu_server.Account.Api.{peer_ticket}
use openuu_server.Account.Tables.{Accounts}
use openuu_server.Rendezvous.Messages.{PunchHoleRequest, Message}
use openuu_server.Rendezvous.Peers.{Peer, get_in_memory, get_or_load, string_eq}
use openuu_server.Rendezvous.Punch.{
  PunchServer, PunchReqEntry, handle_punch_hole_request, to_peer, reg_timeout, is_lan,
}
use openuu_server.Rendezvous.RelayServers.{get_relay_server}
use openuu_server.Rendezvous.Tcp.Wire.{
  RequestRelay, RelayResponse, PunchHoleSent, LocalAddr, TcpServer, Conn, Outside, grant_relay,
  pm_of, with_pm, serve, punch, punch_view, with_punch, move_to_punch, forward_response,
}
use openuu_server.Rendezvous.Tcp.Replies.{
  id_of, get_pk, sign_pk, grant, answer_session, answer_peer_initiated_relay, with_key, with_relay,
  handle_hole_sent, handle_local_addr, handle_relay_response,
}
use openuu_server.Rendezvous.Tcp.Handlers.{
  answer_punch, handle_tcp_punch_hole_request, forward, handle_request_relay, or_empty,
}
use openuu_server.Rendezvous.Tcp.Preserving.{IsKept, send_kept, reply_kept, move_punch_kept}

module _ (x : Outside) (P : TcpServer → Type 0) (kept : IsKept x P) (addr : SocketAddr) where
  to_peer_kept :
      (ph : PunchHoleRequest) (ws : Bool) (o : Option Peer) (p : PunchServer) (s : TcpServer)
      → P (with_punch p s)
      → ((q : List PunchReqEntry)
          → P (record (with_punch p s) { punch_reqs = q; relays = (get_relay_server p.relays).1 }))
      → P (with_punch (to_peer x.net x.now addr ph ws o p).1 s)
  to_peer_kept ph ws none p s h more = h
  to_peer_kept ph ws (some peer) p s h more =
      elim (Bool-cases (leb reg_timeout (x.now - peer.last_reg_time))) [
        | inl late ↦ rw late h
        | inr online ↦ rw online (more _)
      ]

  found_kept :
      (ph : PunchHoleRequest) (key : String) (ws : Bool) (s : TcpServer)
      → P s
      → P (
          with_punch
            (handle_punch_hole_request x.net x.codec x.now addr ph key ws (punch_view s)).1
            s)
  unfolding handle_punch_hole_request
  found_kept ph key ws s h =
      elim (Bool-cases (not (is_empty_text key) && not (string_eq ph.licence_key key))) [
        | inl bad ↦ rw bad h
        | inr good ↦
            let r = get_or_load x.codec x.now ph.id (pm_of s) in
            let s₁ = with_pm r.1 s in
            let h₁ : P s₁ = kept.registry s _ h in
            rw good (
              to_peer_kept ph ws r.0 (record (punch_view s) { pm = r.1 }) s h₁
                λ q.
                  kept.punch_reqs (record s₁ { relays = (get_relay_server s.relays).1 }) q
                    (kept.rotation s₁ h₁))
      ]

  answer_punch_kept :
      (r : (Message × Option SocketAddr) × PunchServer) (c : Conn)
      → P (with_punch r.1 c.server)
      → P (answer_punch x addr r c).server
  answer_punch_kept ((msg, some to), p) c h = h
  answer_punch_kept ((msg, none), p) c h =
      send_kept x P kept addr addr (punch msg) (serve (with_punch p) c) h

  pub punch_kept :
      (ph : PunchHoleRequest) (key : String) (ws : Bool) (c : Conn)
      → P c.server
      → P (handle_tcp_punch_hole_request x addr ph key ws c).server
  unfolding handle_tcp_punch_hole_request
  punch_kept ph key ws c h = answer_punch_kept _ c (found_kept ph key ws c.server h)

  sign_pk_kept : (o : Option Bytes) (i : String) (s : TcpServer) → P s → P (sign_pk x o i s).1
  sign_pk_kept none i s h = h
  sign_pk_kept (some sk) i s h = kept.registry s _ h

  get_pk_kept : (version i : String) (s : TcpServer) → P s → P (get_pk x version i s).1
  unfolding get_pk
  get_pk_kept version i s h = elim (Bool-cases (is_empty_text version)) [
    | inl none_given ↦ rw none_given h
    | inr given ↦ rw given (sign_pk_kept s.sk i s h)
  ]

  pub hole_sent_kept :
      (phs : PunchHoleSent) (c : Conn) → P c.server → P (handle_hole_sent x phs addr c).server
  unfolding handle_hole_sent
  hole_sent_kept phs c h =
      send_kept x P kept addr _ _ (record c { server = (get_pk x phs.version phs.id c.server).1 })
        (get_pk_kept phs.version phs.id c.server h)

  pub local_addr_kept :
      (la : LocalAddr) (c : Conn) → P c.server → P (handle_local_addr x la addr c).server
  unfolding handle_local_addr
  local_addr_kept la c h =
      send_kept x P kept addr _ _ (record c { server = (get_pk x la.version la.id c.server).1 })
        (get_pk_kept la.version la.id c.server h)

  grant_kept :
      (rr : RelayResponse) (r : Option String × Accounts) (c : Conn)
      → P (record c.server { accounts = r.1 })
      → P (grant x rr addr r c).server
  grant_kept rr (none, db) c h = h
  grant_kept rr (some t, db) c h =
      reply_kept x P kept addr (grant_relay rr.uuid t) (serve (λ s. record s { accounts = db }) c) h

  session_kept :
      (rr : RelayResponse) (o : Option String) (c : Conn)
      → P c.server
      → P (answer_session x rr addr o c).server
  session_kept rr none c h = h
  session_kept rr (some token) c h = grant_kept rr _ c (kept.accounts c.server token rr.uuid h)

  peer_initiated_kept :
      (rr : RelayResponse) (controller : SocketAddr) (c : Conn)
      → P c.server
      → P (answer_peer_initiated_relay x rr controller addr c).server
  unfolding answer_peer_initiated_relay
  peer_initiated_kept rr controller c h = elim (Bool-cases (is_empty_text rr.uuid)) [
    | inl none_given ↦ rw none_given h
    | inr given ↦ rw given (session_kept rr _ c h)
  ]

  with_key_kept : (rr : RelayResponse) (s : TcpServer) → P s → P (with_key x rr s).1
  with_key_kept rr s h = elim (Bool-cases (is_empty_text (id_of rr.peer))) [
    | inl none_given ↦ rw none_given h
    | inr given ↦ rw given (get_pk_kept rr.version (id_of rr.peer) s h)
  ]

  with_relay_kept :
      (addr_b : SocketAddr) (rr : RelayResponse) (s : TcpServer)
      → P s
      → P (with_relay x addr_b rr s).1
  with_relay_kept addr_b rr s h = elim (Bool-cases (is_empty_text rr.relay_server)) [
    | inl none_given ↦ rw none_given h
    | inr given ↦ elim (Bool-cases (is_lan (punch_view s) addr_b)) [
      | inl lan ↦ rw (given, lan) h
      | inr wan ↦ elim (Bool-cases (string_eq rr.relay_server s.local_ip)) [
        | inl local ↦ rw (given, wan, local) (kept.rotation s h)
        | inr named ↦ rw (given, wan, named) h
      ]
    ]
  ]

  pub response_kept :
      (rr : RelayResponse) (c : Conn) → P c.server → P (handle_relay_response x rr addr c).server
  unfolding handle_relay_response
  response_kept rr c h =
      let addr_b = x.net.decode rr.socket_addr in
      let c₁ = answer_peer_initiated_relay x rr addr_b addr c in
      let (keyed, s₂) = with_key x (record rr { socket_addr = [] }) c₁.server in
      let (routed, s₃) = with_relay x addr_b keyed s₂ in
      send_kept x P kept addr addr_b (forward_response routed) (record c₁ { server = s₃ })
        (with_relay_kept addr_b keyed s₂ (
          with_key_kept (record rr { socket_addr = [] }) c₁.server
            (peer_initiated_kept rr addr_b c h)))

  forward_kept :
      (rf : RequestRelay) (o : Option Peer) (c : Conn)
      → P c.server
      → P (forward x rf addr o c).server
  forward_kept rf none c h = h
  forward_kept rf (some q) c h = h

  pub request_kept :
      (rf : RequestRelay) (c : Conn) → P c.server → P (handle_request_relay x rf addr c).server
  unfolding handle_request_relay
  request_kept rf c h =
      let (t, db) =
        peer_ticket x.crypto x.unix_now x.new_ticket rf.token rf.uuid c.server.accounts in
      let c₁ = serve (λ s. record s { accounts = db }) c in
      let c₂ = move_to_punch x addr c₁ in
      forward_kept (record rf { token = or_empty t }) (get_in_memory rf.id (pm_of c₂.server)) c₂
        (move_punch_kept x P kept addr c₁ (kept.accounts c.server rf.token rf.uuid h))
