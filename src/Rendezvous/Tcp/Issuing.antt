-- ===== src/Rendezvous/Tcp/Issuing.antt =====
-- What a TCP message does to the accounts (`handle_tcp` of src/rendezvous_server/tcp.rs and its
-- handlers).
use openuu_server.Prelude.{
  ℕ, String, Bool, ◌||◌, Option, none, some, Bytes, [], ◌≡◌, ◌⊎◌, inl, inr, refl, subst, sym, ◌∙◌,
  ltb, is_empty, Bool-cases, arith, arith,
}
use openuu_server.Prelude.Text.{is_empty_text}
use openuu_server.Net.{SocketAddr}
use openuu_server.Account.Api.{authorized, peer_ticket}
use openuu_server.Account.Tables.{Accounts}
use openuu_server.Account.Store.{ticket}
use openuu_server.Rendezvous.Messages.{PunchHoleRequest, Message}
use openuu_server.Rendezvous.Peers.{Peer, get_in_memory}
use openuu_server.Rendezvous.Punch.{PunchServer}
use openuu_server.Rendezvous.Register.{RegisterPk, register_peer_response, register_pk_result}
use openuu_server.Rendezvous.Tcp.Wire.{
  RequestRelay, RelayResponse, PunchHoleSent, LocalAddr, TcpMessage, punch_hole_request,
  request_relay, relay_response, punch_hole_sent, local_addr, test_nat_request, register_peer,
  register_pk, other_message, TcpServer, Conn, Outside, grant_relay, pm_of, with_pm, serve, punch,
  with_punch, register_peer_result, register_pk_response, config_update, move_to_punch,
  move_to_peers, send_to_tcp_peer, forward_response,
}
use openuu_server.Rendezvous.Tcp.Sending.{
  Quiet, send_to_tcp-Quiet, send_to_tcp_peer-Quiet, reply_on_connection-Quiet, move_to_punch-Quiet,
  move_to_peers-Quiet,
}
use openuu_server.Rendezvous.Tcp.Replies.{
  id_of, get_pk, sign_pk, grant, answer_session, answer_peer_initiated_relay, with_key, with_relay,
  handle_hole_sent, handle_local_addr, handle_relay_response,
}
use openuu_server.Rendezvous.Tcp.Handlers.{
  answer_punch, handle_tcp_punch_hole_request, forward, handle_request_relay, or_empty,
  handle_tcp_register_peer, handle_tcp_register_pk, remembered, handle_tcp,
}

module _ (x : Outside) where
  -- The accounts after at most one call of `ticket`, for the new ticket of the message.
  abbrev pub Issues : Accounts → Accounts → Type 0
  Issues db db' =
      (db' ≡ db)
      ⊎ ((token : String) × (uuid : String) × (db'
            ≡ (ticket x.crypto x.unix_now x.new_ticket token uuid db).1))

  ticket_Issues :
      (token uuid : String) (db : Accounts)
      → Issues db (peer_ticket x.crypto x.unix_now x.new_ticket token uuid db).1
  unfolding peer_ticket
  ticket_Issues token uuid db = inr (token, uuid, refl)

  module _ (addr : SocketAddr) where
    quietly : {c c' : Conn} → Quiet c c' → Issues c.server.accounts c'.server.accounts
    quietly q = inl q.accounts

    answer_punch_accounts :
        (r : (Message × Option SocketAddr) × PunchServer) (c : Conn)
        → (answer_punch x addr r c).server.accounts ≡ c.server.accounts
    answer_punch_accounts ((msg, some to), p) c = refl
    answer_punch_accounts ((msg, none), p) c =
        (send_to_tcp-Quiet x addr (punch msg) (serve (with_punch p) c)).accounts

    punch_accounts :
        (ph : PunchHoleRequest) (key : String) (ws : Bool) (c : Conn)
        → (handle_tcp_punch_hole_request x addr ph key ws c).server.accounts ≡ c.server.accounts
    unfolding handle_tcp_punch_hole_request
    punch_accounts ph key ws c = answer_punch_accounts _ c

    sign_pk_accounts :
        (o : Option Bytes) (i : String) (s : TcpServer) → (sign_pk x o i s).1.accounts ≡ s.accounts
    sign_pk_accounts none i s = refl
    sign_pk_accounts (some sk) i s = refl

    get_pk_accounts :
        (version i : String) (s : TcpServer) → (get_pk x version i s).1.accounts ≡ s.accounts
    unfolding get_pk
    get_pk_accounts version i s = elim (Bool-cases (is_empty_text version)) [
      | inl none_given ↦ rw none_given refl
      | inr given ↦ rw given (sign_pk_accounts s.sk i s)
    ]

    hole_sent_accounts :
        (phs : PunchHoleSent) (c : Conn)
        → (handle_hole_sent x phs addr c).server.accounts ≡ c.server.accounts
    unfolding handle_hole_sent
    hole_sent_accounts phs c =
        let q =
          send_to_tcp-Quiet x _ _
            (record c { server = (get_pk x phs.version phs.id c.server).1 }) in
        q.accounts ∙ get_pk_accounts phs.version phs.id c.server

    local_addr_accounts :
        (la : LocalAddr) (c : Conn)
        → (handle_local_addr x la addr c).server.accounts ≡ c.server.accounts
    unfolding handle_local_addr
    local_addr_accounts la c =
        let q =
          send_to_tcp-Quiet x _ _ (record c { server = (get_pk x la.version la.id c.server).1 }) in
        q.accounts ∙ get_pk_accounts la.version la.id c.server

    grant_accounts :
        (rr : RelayResponse) (r : Option String × Accounts) (c : Conn)
        → (grant x rr addr r c).server.accounts ≡ r.1
    grant_accounts rr (none, db) c = refl
    grant_accounts rr (some t, db) c =
        let q =
          reply_on_connection-Quiet x addr (grant_relay rr.uuid t)
            (serve (λ s. record s { accounts = db }) c) in
        q.accounts

    session_Issues :
        (rr : RelayResponse) (o : Option String) (c : Conn)
        → Issues c.server.accounts (answer_session x rr addr o c).server.accounts
    session_Issues rr none c = inl refl
    session_Issues rr (some token) c =
        rw
          (grant_accounts rr
            (peer_ticket x.crypto x.unix_now x.new_ticket token rr.uuid c.server.accounts) c)
          (ticket_Issues token rr.uuid c.server.accounts)

    peer_initiated_Issues :
        (rr : RelayResponse) (controller : SocketAddr) (c : Conn)
        → Issues c.server.accounts
            (answer_peer_initiated_relay x rr controller addr c).server.accounts
    unfolding answer_peer_initiated_relay
    peer_initiated_Issues rr controller c = elim (Bool-cases (is_empty_text rr.uuid)) [
      | inl none_given ↦ rw none_given (inl refl)
      | inr given ↦ rw given (session_Issues rr _ c)
    ]

    with_key_accounts :
        (rr : RelayResponse) (s : TcpServer) → (with_key x rr s).1.accounts ≡ s.accounts
    with_key_accounts rr s = elim (Bool-cases (is_empty_text (id_of rr.peer))) [
      | inl none_given ↦ rw none_given refl
      | inr given ↦ rw given (get_pk_accounts rr.version (id_of rr.peer) s)
    ]

    with_relay_accounts :
        (addr_b : SocketAddr) (rr : RelayResponse) (s : TcpServer)
        → (with_relay x addr_b rr s).1.accounts ≡ s.accounts
    with_relay_accounts addr_b rr s = ground arith

    response_Issues :
        (rr : RelayResponse) (c : Conn)
        → Issues c.server.accounts (handle_relay_response x rr addr c).server.accounts
    unfolding handle_relay_response
    response_Issues rr c =
        let addr_b = x.net.decode rr.socket_addr in
        let c₁ = answer_peer_initiated_relay x rr addr_b addr c in
        let (keyed, s₂) = with_key x (record rr { socket_addr = [] }) c₁.server in
        let (routed, s₃) = with_relay x addr_b keyed s₂ in
        let q = send_to_tcp-Quiet x addr_b (forward_response routed) (record c₁ { server = s₃ }) in
        let same =
          q.accounts
          ∙ with_relay_accounts addr_b keyed s₂
          ∙ with_key_accounts (record rr { socket_addr = [] }) c₁.server in
        rw same (peer_initiated_Issues rr addr_b c)

    forward_accounts :
        (rf : RequestRelay) (o : Option Peer) (c : Conn)
        → (forward x rf addr o c).server.accounts ≡ c.server.accounts
    forward_accounts rf none c = refl
    forward_accounts rf (some q) c = refl

    request_Issues :
        (rf : RequestRelay) (c : Conn)
        → Issues c.server.accounts (handle_request_relay x rf addr c).server.accounts
    unfolding handle_request_relay
    request_Issues rf c =
        let (t, db) =
          peer_ticket x.crypto x.unix_now x.new_ticket rf.token rf.uuid c.server.accounts in
        let c₁ = move_to_punch x addr (serve (λ s. record s { accounts = db }) c) in
        let q = move_to_punch-Quiet x addr (serve (λ s. record s { accounts = db }) c) in
        subst (Issues c.server.accounts)
          (sym (
            forward_accounts (record rf { token = or_empty t })
              (get_in_memory rf.id (pm_of c₁.server)) c₁
            ∙ q.accounts))
          (ticket_Issues rf.token rf.uuid c.server.accounts)

    heartbeat_accounts :
        (i : String) (serial : ℕ) (c : Conn)
        → (handle_tcp_register_peer x i serial addr c).server.accounts ≡ c.server.accounts
    unfolding handle_tcp_register_peer
    heartbeat_accounts i serial c = elim (Bool-cases (is_empty_text i)) [
      | inl none_given ↦ rw none_given refl
      | inr given ↦
          let c₁ = move_to_peers x addr c in
          let r = register_peer_response x.net x.now i addr (pm_of c₁.server) in
          let q =
            send_to_tcp_peer-Quiet x addr (register_peer_result r.0) (serve (with_pm r.1) c₁) in
          let c₂ = send_to_tcp_peer x addr (register_peer_result r.0) (serve (with_pm r.1) c₁) in
          let q' =
            send_to_tcp_peer-Quiet x addr
              (config_update c₂.server.serial c₂.server.rendezvous_servers) c₂ in
          let same = q.accounts ∙ (move_to_peers-Quiet x addr c).accounts in
          rw given (elim (Bool-cases (ltb serial c₂.server.serial)) [
            | inl older ↦ rw older (q'.accounts ∙ same)
            | inr current ↦ rw current same
          ])
    ]

    registration_accounts :
        (rk : RegisterPk) (c : Conn)
        → (handle_tcp_register_pk x rk addr c).server.accounts ≡ c.server.accounts
    unfolding handle_tcp_register_pk
    registration_accounts rk c = elim (Bool-cases (is_empty rk.uuid || is_empty rk.pk)) [
      | inl bad ↦ rw bad refl
      | inr good ↦
          let c₁ = move_to_peers x addr c in
          let r = register_pk_result x.net x.codec x.now x.new_guid rk addr c₁.server.registry in
          let q =
            send_to_tcp_peer-Quiet x addr (register_pk_response r.0)
              (serve (λ s. record s { registry = r.1 }) c₁) in
          rw good (q.accounts ∙ (move_to_peers-Quiet x addr c).accounts)
    ]

    -- Whatever a TCP message is, the accounts are as before, or as after one call of `ticket` with
    -- the new ticket of the message.
    pub handle_tcp-Issues :
        (m : TcpMessage) (key : String) (ws : Bool) (c : Conn)
        → Issues c.server.accounts (handle_tcp x m addr key ws c).1.server.accounts
    unfolding handle_tcp
    handle_tcp-Issues (punch_hole_request ph) key ws c =
        elim (Bool-cases (authorized x.crypto x.unix_now ph.token c.server.accounts)) [
          | inr refused ↦ rw refused (inl refl)
          | inl admitted ↦
              let c₁ = serve (remembered x addr ph) (move_to_punch x addr c) in
              rw admitted
                (inl (punch_accounts ph key ws c₁ ∙ (move_to_punch-Quiet x addr c).accounts))
        ]
    handle_tcp-Issues (request_relay rf) key ws c =
        elim (Bool-cases (authorized x.crypto x.unix_now rf.token c.server.accounts)) [
          | inr refused ↦ rw refused (inl refl)
          | inl admitted ↦ rw admitted (request_Issues rf c)
        ]
    handle_tcp-Issues (relay_response rr) key ws c = response_Issues rr c
    handle_tcp-Issues (punch_hole_sent phs) key ws c = inl (hole_sent_accounts phs c)
    handle_tcp-Issues (local_addr la) key ws c = inl (local_addr_accounts la c)
    handle_tcp-Issues (test_nat_request serial) key ws c =
        quietly (reply_on_connection-Quiet x addr _ c)
    handle_tcp-Issues (register_peer i serial) key ws c = inl (heartbeat_accounts i serial c)
    handle_tcp-Issues (register_pk rk) key ws c = inl (registration_accounts rk c)
    handle_tcp-Issues other_message key ws c = inl refl
