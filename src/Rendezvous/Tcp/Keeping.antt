-- ===== src/Rendezvous/Tcp/Keeping.antt =====
-- The handlers that do not register leave the peers in memory (src/rendezvous_server/tcp.rs and
-- punch.rs).
use openuu_server.Prelude.{
  ℕ, String, Bool, not, ◌&&◌, Option, none, some, [], ◌≡◌, inl, inr, refl, ap, arith, ◌∙◌, leb, ◌-◌,
  Bytes, Bool-cases,
}
use openuu_server.Prelude.Text.{is_empty_text}
use openuu_server.Net.{SocketAddr, AddrTools}
use openuu_server.Account.Api.{peer_ticket}
use openuu_server.Account.Tables.{Accounts}
use openuu_server.Rendezvous.Messages.{PunchHoleRequest, Message}
use openuu_server.Rendezvous.Peers.{Peer, get_in_memory, get_or_load, string_eq}
use openuu_server.Rendezvous.Peers.Lookup.{get_or_load_keeps}
use openuu_server.Rendezvous.Punch.{PunchServer, handle_punch_hole_request, to_peer, reg_timeout}
use openuu_server.Rendezvous.Tcp.Wire.{
  RequestRelay, RelayResponse, PunchHoleSent, LocalAddr, forward_response, TcpServer, Conn, Outside,
  pm_of, punch_view,
}
use openuu_server.Rendezvous.Tcp.Sending.{
  Quiet, send_to_tcp-Quiet, reply_on_connection-Quiet, move_to_punch-Quiet,
}
use openuu_server.Rendezvous.Tcp.Replies.{
  sign_pk, get_pk, grant, answer_session, answer_peer_initiated_relay, with_key, with_relay, id_of,
  handle_hole_sent, handle_local_addr, handle_relay_response,
}
use openuu_server.Rendezvous.Tcp.Handlers.{
  answer_punch, handle_tcp_punch_hole_request, forward, handle_request_relay, or_empty,
}

module _ (j : String) (p : Peer) where
  abbrev pub There : TcpServer → Type 0
  There s = get_in_memory j (pm_of s) ≡ some p

  pub after : {c c' : Conn} → Quiet c c' → There c.server → There c'.server
  after q h = ap (λ r. get_in_memory j r.pm) q.registry ∙ h

  to_peer_keeps :
      (net : AddrTools) (now : ℕ) (addr : SocketAddr) (ph : PunchHoleRequest) (ws : Bool)
      (o : Option Peer) (s : PunchServer)
      → (to_peer net now addr ph ws o s).1.pm ≡ s.pm
  to_peer_keeps net now addr ph ws none s = refl
  to_peer_keeps net now addr ph ws (some q) s =
      elim (Bool-cases (leb reg_timeout (now - q.last_reg_time))) [
        | inl late ↦ rw late refl
        | inr fresh ↦ rw fresh refl
      ]

  module _ (x : Outside) (addr : SocketAddr) where
    punch_keeps :
        (ph : PunchHoleRequest) (key : String) (ws : Bool) (s : PunchServer)
        → get_in_memory j s.pm ≡ some p
        → get_in_memory j (handle_punch_hole_request x.net x.codec x.now addr ph key ws s).1.pm
          ≡ some p
    unfolding handle_punch_hole_request
    punch_keeps ph key ws s h =
        elim (Bool-cases (not (is_empty_text key) && not (string_eq ph.licence_key key))) [
          | inl bad ↦ rw bad h
          | inr good ↦
              let r = get_or_load x.codec x.now ph.id s.pm in
              rw good (
                ap (get_in_memory j)
                  (to_peer_keeps x.net x.now addr ph ws r.0 (record s { pm = r.1 }))
                ∙ get_or_load_keeps j p x.codec x.now ph.id s.pm h)
        ]

    answer_punch_keeps :
        (r : (Message × Option SocketAddr) × PunchServer) (c : Conn)
        → get_in_memory j r.1.pm ≡ some p
        → There (answer_punch x addr r c).server
    answer_punch_keeps ((msg, some to), s) c h = h
    answer_punch_keeps ((msg, none), s) c h = after (send_to_tcp-Quiet x addr _ _) h

    pub handle_tcp_punch_hole_request_keeps :
        (ph : PunchHoleRequest) (key : String) (ws : Bool) (c : Conn)
        → There c.server
        → There (handle_tcp_punch_hole_request x addr ph key ws c).server
    unfolding handle_tcp_punch_hole_request
    handle_tcp_punch_hole_request_keeps ph key ws c h =
        answer_punch_keeps _ c (punch_keeps ph key ws (punch_view c.server) h)

    sign_pk_keeps :
        (sk : Option Bytes) (i : String) (s : TcpServer) → There s → There (sign_pk x sk i s).1
    sign_pk_keeps none i s h = h
    sign_pk_keeps (some sk) i s h = get_or_load_keeps j p x.codec x.now i (pm_of s) h

    get_pk_keeps : (version i : String) (s : TcpServer) → There s → There (get_pk x version i s).1
    unfolding get_pk
    get_pk_keeps version i s h = elim (Bool-cases (is_empty_text version)) [
      | inl none_given ↦ rw none_given h
      | inr given ↦ rw given (sign_pk_keeps s.sk i s h)
    ]

    pub handle_hole_sent_keeps :
        (phs : PunchHoleSent) (c : Conn)
        → There c.server
        → There (handle_hole_sent x phs addr c).server
    unfolding handle_hole_sent
    handle_hole_sent_keeps phs c h =
        after (send_to_tcp-Quiet x _ _ _) (get_pk_keeps phs.version phs.id c.server h)

    pub handle_local_addr_keeps :
        (la : LocalAddr) (c : Conn) → There c.server → There (handle_local_addr x la addr c).server
    unfolding handle_local_addr
    handle_local_addr_keeps la c h =
        after (send_to_tcp-Quiet x _ _ _) (get_pk_keeps la.version la.id c.server h)

    grant_keeps :
        (rr : RelayResponse) (r : Option String × Accounts) (c : Conn)
        → There c.server
        → There (grant x rr addr r c).server
    grant_keeps rr (none, db) c h = h
    grant_keeps rr (some ticket, db) c h = after (reply_on_connection-Quiet x addr _ _) h

    answer_session_keeps :
        (rr : RelayResponse) (o : Option String) (c : Conn)
        → There c.server
        → There (answer_session x rr addr o c).server
    answer_session_keeps rr none c h = h
    answer_session_keeps rr (some token) c h = grant_keeps rr _ c h

    answer_peer_initiated_relay_keeps :
        (rr : RelayResponse) (controller : SocketAddr) (c : Conn)
        → There c.server
        → There (answer_peer_initiated_relay x rr controller addr c).server
    unfolding answer_peer_initiated_relay
    answer_peer_initiated_relay_keeps rr controller c h =
        elim (Bool-cases (is_empty_text rr.uuid)) [
          | inl none_given ↦ rw none_given h
          | inr given ↦ rw given (answer_session_keeps rr _ c h)
        ]

    with_key_keeps : (rr : RelayResponse) (s : TcpServer) → There s → There (with_key x rr s).1
    with_key_keeps rr s h = elim (Bool-cases (is_empty_text (id_of rr.peer))) [
      | inl none_given ↦ rw none_given h
      | inr given ↦ rw given (get_pk_keeps rr.version (id_of rr.peer) s h)
    ]

    with_relay_keeps :
        (addr_b : SocketAddr) (rr : RelayResponse) (s : TcpServer)
        → (with_relay x addr_b rr s).1.registry ≡ s.registry
    with_relay_keeps addr_b rr s = ground arith

    pub handle_relay_response_keeps :
        (rr : RelayResponse) (c : Conn)
        → There c.server
        → There (handle_relay_response x rr addr c).server
    unfolding handle_relay_response
    handle_relay_response_keeps rr c h =
        let addr_b = x.net.decode rr.socket_addr in
        let c₁ = answer_peer_initiated_relay x rr addr_b addr c in
        let (keyed, s₂) = with_key x (record rr { socket_addr = [] }) c₁.server in
        let (routed, s₃) = with_relay x addr_b keyed s₂ in
        after (send_to_tcp-Quiet x addr_b (forward_response routed) (record c₁ { server = s₃ })) (
          ap (λ r. get_in_memory j r.pm) (with_relay_keeps addr_b keyed s₂)
          ∙ with_key_keeps (record rr { socket_addr = [] }) c₁.server
              (answer_peer_initiated_relay_keeps rr addr_b c h))

    forward_keeps :
        (rf : RequestRelay) (o : Option Peer) (c : Conn)
        → There c.server
        → There (forward x rf addr o c).server
    forward_keeps rf none c h = h
    forward_keeps rf (some q) c h = h

    pub handle_request_relay_keeps :
        (rf : RequestRelay) (c : Conn)
        → There c.server
        → There (handle_request_relay x rf addr c).server
    unfolding handle_request_relay
    handle_request_relay_keeps rf c h =
        forward_keeps
          (record rf {
            token =
                or_empty
                  (peer_ticket x.crypto x.unix_now x.new_ticket rf.token rf.uuid
                    c.server.accounts).0;
          })
          _ _ (after (move_to_punch-Quiet x addr _) h)
