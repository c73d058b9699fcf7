-- ===== src/Rendezvous/Tcp/Pushes.antt =====
-- What the TCP handlers push to peers, and for whom (`handle_tcp` of src/rendezvous_server/tcp.rs).
use openuu_server.Prelude.{
  ◌-◌, ◌<◌, String, Bool, true, ◌||◌, Option, none, some, ◌∷◌, ◌≡◌, ◌⊎◌, inl, inr, refl, ◌∙◌, ap,
  sym, Bool-cases,
}
use openuu_server.Prelude.Text.{is_empty_text}
use openuu_server.Net.{SocketAddr}
use openuu_server.Account.Api.{authorized, peer_ticket}
use openuu_server.Rendezvous.Messages.{PunchHoleRequest, Message}
use openuu_server.Rendezvous.Peers.{Peer, get_in_memory, get_or_load, string_eq}
use openuu_server.Rendezvous.Punch.{PunchServer, reg_timeout, handle_punch_hole_request}
use openuu_server.Rendezvous.Punch.Routing.{Introduces, handle_punch_hole_request_pushes}
use openuu_server.Rendezvous.Tcp.Wire.{
  RequestRelay, TcpMessage, punch_hole_request, request_relay, relay_response, punch_hole_sent,
  local_addr, test_nat_request, register_peer, register_pk, other_message, Effect, pushed, punch,
  forward_relay, with_punch, Conn, Outside, pm_of, punch_view, serve, move_to_punch,
}
use openuu_server.Rendezvous.Tcp.Sending.{
  pushes, send_to_tcp-Quiet, reply_on_connection-Quiet, move_to_punch-Quiet,
}
use openuu_server.Rendezvous.Tcp.Replies.{handle_hole_sent, handle_local_addr}
use openuu_server.Rendezvous.Tcp.Handlers.{
  answer_punch, handle_tcp_punch_hole_request, forward, handle_request_relay, remembered,
  handle_tcp, or_empty,
}
use openuu_server.Rendezvous.Tcp.Silent.{
  handle_relay_response_quiet, heartbeat_quiet, registration_quiet, hole_sent_quiet,
  local_addr_quiet,
}

module _ (x : Outside) (addr : SocketAddr) where
  -- A push that a message may cause: the session's token in the message is good, the push goes to
  -- the address on record of the peer that the message names, and tells it who asks.
  pub data Sends (key : String) (c : Conn) : TcpMessage → Effect → Type 0 where
    introduces :
        (ph : PunchHoleRequest) (p : Peer) (msg : Message)
        → authorized x.crypto x.unix_now ph.token c.server.accounts ≡ true
        → (is_empty_text key || string_eq ph.licence_key key) ≡ true
        → (get_or_load x.codec x.now ph.id (pm_of c.server)).0 ≡ some p
        → x.now - p.last_reg_time < reg_timeout
        → Introduces x.net addr msg
        → Sends key c (punch_hole_request ph) (pushed p.socket_addr (punch msg))
    relays :
        (rf : RequestRelay) (p : Peer)
        → authorized x.crypto x.unix_now rf.token c.server.accounts ≡ true
        → get_in_memory rf.id (pm_of c.server) ≡ some p
        → Sends key c (request_relay rf) (
            pushed p.socket_addr (
              forward_relay (record rf {
                token =
                    or_empty
                      (peer_ticket x.crypto x.unix_now x.new_ticket rf.token rf.uuid
                        c.server.accounts).0;
                socket_addr = x.net.encode addr;
              })))

  abbrev AtMost : String → TcpMessage → Conn → Conn → Type 0
  AtMost key m c c' =
      (pushes c' ≡ pushes c) ⊎ ((e : Effect) × Sends key c m e × (pushes c' ≡ e ∷ pushes c))

  answered :
      (ph : PunchHoleRequest) (key : String) (ws : Bool) (c c₁ : Conn)
      → authorized x.crypto x.unix_now ph.token c.server.accounts ≡ true
      → c₁.server.registry ≡ c.server.registry
      → pushes c₁ ≡ pushes c
      → (r : (Message × Option SocketAddr) × PunchServer)
      → handle_punch_hole_request x.net x.codec x.now addr ph key ws (punch_view c₁.server) ≡ r
      → AtMost key (punch_hole_request ph) c (answer_punch x addr r c₁)
  unfolding pushes
  answered ph key ws c c₁ good peers same ((msg, none), s) e =
      inl ((send_to_tcp-Quiet x addr (punch msg) (serve (with_punch s) c₁)).same_pushes ∙ same)
  answered ph key ws c c₁ good peers same ((msg, some a), s) e =
      let (p, found, at, fresh, intro, licensed) =
        handle_punch_hole_request_pushes x.net x.codec x.now addr ph key ws (punch_view c₁.server)
          e in
      inr (
        pushed p.socket_addr (punch msg),
        introduces ph p msg good licensed
            (ap (λ r. (get_or_load x.codec x.now ph.id r.pm).0) (sym peers) ∙ found) fresh intro,
        ap (λ b. pushed b (punch msg) ∷ pushes c₁) at
            ∙ ap (λ rest. pushed p.socket_addr (punch msg) ∷ rest) same,
      )

  forwarded :
      (rf : RequestRelay) (key : String) (c c₁ : Conn)
      → authorized x.crypto x.unix_now rf.token c.server.accounts ≡ true
      → c₁.server.registry ≡ c.server.registry
      → pushes c₁ ≡ pushes c
      → (o : Option Peer) → get_in_memory rf.id (pm_of c.server) ≡ o
      → AtMost key (request_relay rf) c (
          forward x
            (record rf {
              token =
                  or_empty
                    (peer_ticket x.crypto x.unix_now x.new_ticket rf.token rf.uuid
                      c.server.accounts).0;
            })
            addr
            o
            c₁)
  unfolding pushes
  forwarded rf key c c₁ good peers same none e = inl same
  forwarded rf key c c₁ good peers same (some p) e =
      let sent = record rf {
        token =
            or_empty
              (peer_ticket x.crypto x.unix_now x.new_ticket rf.token rf.uuid c.server.accounts).0;
        socket_addr = x.net.encode addr;
      } in
      inr (
        pushed p.socket_addr (forward_relay sent),
        relays rf p good e,
        ap (λ rest. pushed p.socket_addr (forward_relay sent) ∷ rest) same,
      )

  -- A TCP message pushes nothing to a peer, or one message: a punch-hole request or a relay request
  -- with the token of a live session does, to the address on record of the peer that it names, and
  -- what is pushed introduces the sender.
  pub handle_tcp-pushes :
      (m : TcpMessage) (key : String) (ws : Bool) (c : Conn)
      → (pushes (handle_tcp x m addr key ws c).1 ≡ pushes c)
        ⊎ ((e : Effect) × Sends key c m e
            × (pushes (handle_tcp x m addr key ws c).1 ≡ e ∷ pushes c))
  unfolding handle_tcp handle_tcp_punch_hole_request handle_request_relay handle_hole_sent
      handle_local_addr pushes
  handle_tcp-pushes (punch_hole_request ph) key ws c =
      elim (Bool-cases (authorized x.crypto x.unix_now ph.token c.server.accounts)) [
        | inr refused ↦ rw refused (inl refl)
        | inl good ↦
            let q = move_to_punch-Quiet x addr c in
            let c₁ = serve (remembered x addr ph) (move_to_punch x addr c) in
            rw good (answered ph key ws c c₁ good q.registry q.same_pushes _ refl)
      ]
  handle_tcp-pushes (request_relay rf) key ws c =
      elim (Bool-cases (authorized x.crypto x.unix_now rf.token c.server.accounts)) [
        | inr refused ↦ rw refused (inl refl)
        | inl good ↦
            let r =
              peer_ticket x.crypto x.unix_now x.new_ticket rf.token rf.uuid c.server.accounts in
            let c₀ = serve (λ s. record s { accounts = r.1 }) c in
            let q = move_to_punch-Quiet x addr c₀ in
            rw good (
              forwarded rf key c (move_to_punch x addr c₀) good q.registry q.same_pushes
                (get_in_memory rf.id (pm_of (move_to_punch x addr c₀).server))
                (ap (λ g. get_in_memory rf.id g.pm) (sym q.registry)))
      ]
  handle_tcp-pushes (relay_response rr) key ws c = inl (handle_relay_response_quiet x addr rr c)
  handle_tcp-pushes (punch_hole_sent phs) key ws c = inl (hole_sent_quiet x addr phs c)
  handle_tcp-pushes (local_addr la) key ws c = inl (local_addr_quiet x addr la c)
  handle_tcp-pushes (test_nat_request serial) key ws c =
      inl (reply_on_connection-Quiet x addr _ c).same_pushes
  handle_tcp-pushes (register_peer i serial) key ws c = inl (heartbeat_quiet x addr i serial c)
  handle_tcp-pushes (register_pk rk) key ws c = inl (registration_quiet x addr rk c)
  handle_tcp-pushes other_message key ws c = inl refl
