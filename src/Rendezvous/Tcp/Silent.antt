-- ===== src/Rendezvous/Tcp/Silent.antt =====
-- The TCP handlers that push nothing to a peer (src/rendezvous_server/tcp.rs, punch.rs and
-- tcp_register.rs).
use openuu_server.Prelude.{
  ℕ, String, true, false, ◌||◌, Option, none, some, ◌≡◌, inl, inr, refl, ◌∙◌, [], ltb, is_empty,
  Bool-cases,
}
use openuu_server.Prelude.Text.{is_empty_text}
use openuu_server.Net.{SocketAddr}
use openuu_server.Account.Tables.{Accounts}
use openuu_server.Rendezvous.Messages.{other}
use openuu_server.Rendezvous.Register.{RegisterPk, register_peer_response, register_pk_result}
use openuu_server.Rendezvous.Tcp.Wire.{
  RelayResponse, PunchHoleSent, LocalAddr, punch_hole_response, forward_response,
  register_peer_result, register_pk_response, config_update, with_pm, grant_relay, Conn, Outside,
  pm_of, serve, move_to_peers, send_to_tcp_peer,
}
use openuu_server.Rendezvous.Tcp.Sending.{
  pushes, send_to_tcp-Quiet, send_to_tcp_peer-Quiet, reply_on_connection-Quiet, move_to_peers-Quiet,
}
use openuu_server.Rendezvous.Tcp.Replies.{
  get_pk, or_none, grant, answer_session, answer_peer_initiated_relay, with_key, with_relay,
  handle_hole_sent, handle_local_addr, handle_relay_response,
}
use openuu_server.Rendezvous.Tcp.Handlers.{handle_tcp_register_peer, handle_tcp_register_pk}

module _ (x : Outside) (addr : SocketAddr) where
  grant_quiet :
      (rr : RelayResponse) (r : Option String × Accounts) (c : Conn)
      → pushes (grant x rr addr r c) ≡ pushes c
  unfolding pushes
  grant_quiet rr (none, db) c = refl
  grant_quiet rr (some ticket, db) c =
      (reply_on_connection-Quiet x addr (grant_relay rr.uuid ticket)
        (serve (λ s. record s { accounts = db }) c)).same_pushes

  answer_session_quiet :
      (rr : RelayResponse) (o : Option String) (c : Conn)
      → pushes (answer_session x rr addr o c) ≡ pushes c
  answer_session_quiet rr none c = refl
  answer_session_quiet rr (some token) c = grant_quiet rr _ c

  answer_peer_initiated_relay_quiet :
      (rr : RelayResponse) (controller : SocketAddr) (c : Conn)
      → pushes (answer_peer_initiated_relay x rr controller addr c) ≡ pushes c
  unfolding answer_peer_initiated_relay
  answer_peer_initiated_relay_quiet rr controller c = elim (Bool-cases (is_empty_text rr.uuid)) [
    | inl none_given ↦ rw none_given refl
    | inr given ↦ rw given (answer_session_quiet rr _ c)
  ]

  pub handle_relay_response_quiet :
      (rr : RelayResponse) (c : Conn) → pushes (handle_relay_response x rr addr c) ≡ pushes c
  unfolding handle_relay_response pushes
  handle_relay_response_quiet rr c =
      let addr_b = x.net.decode rr.socket_addr in
      let c₁ = answer_peer_initiated_relay x rr addr_b addr c in
      let (keyed, s₂) = with_key x (record rr { socket_addr = [] }) c₁.server in
      let (routed, s₃) = with_relay x addr_b keyed s₂ in
      (send_to_tcp-Quiet x addr_b (forward_response routed) (record c₁ { server = s₃ })).same_pushes
      ∙ answer_peer_initiated_relay_quiet rr addr_b c

  pub heartbeat_quiet :
      (i : String) (serial : ℕ) (c : Conn)
      → pushes (handle_tcp_register_peer x i serial addr c) ≡ pushes c
  unfolding handle_tcp_register_peer pushes
  heartbeat_quiet i serial c = elim (Bool-cases (is_empty_text i)) [
    | inl none_given ↦ rw none_given refl
    | inr given ↦
        let c₁ = move_to_peers x addr c in
        let r = register_peer_response x.net x.now i addr (pm_of c₁.server) in
        let c₂ = send_to_tcp_peer x addr (register_peer_result r.0) (serve (with_pm r.1) c₁) in
        let quiet : pushes c₂ ≡ pushes c =
          (send_to_tcp_peer-Quiet x addr (register_peer_result r.0)
            (serve (with_pm r.1) c₁)).same_pushes
          ∙ (move_to_peers-Quiet x addr c).same_pushes in
        let update = config_update c₂.server.serial c₂.server.rendezvous_servers in
        rw given (elim (Bool-cases (ltb serial c₂.server.serial)) [
          | inl older ↦ rw older ((send_to_tcp_peer-Quiet x addr update c₂).same_pushes ∙ quiet)
          | inr current ↦ rw current quiet
        ])
  ]

  pub registration_quiet :
      (rk : RegisterPk) (c : Conn) → pushes (handle_tcp_register_pk x rk addr c) ≡ pushes c
  unfolding handle_tcp_register_pk pushes
  registration_quiet rk c = elim (Bool-cases (is_empty rk.uuid || is_empty rk.pk)) [
    | inl bad ↦ rw bad refl
    | inr good ↦
        let c₁ = move_to_peers x addr c in
        let r = register_pk_result x.net x.codec x.now x.new_guid rk addr c₁.server.registry in
        rw good (
          (send_to_tcp_peer-Quiet x addr (register_pk_response r.0)
            (serve (λ s. record s { registry = r.1 }) c₁)).same_pushes
          ∙ (move_to_peers-Quiet x addr c).same_pushes)
  ]

  pub hole_sent_quiet :
      (phs : PunchHoleSent) (c : Conn) → pushes (handle_hole_sent x phs addr c) ≡ pushes c
  unfolding handle_hole_sent pushes
  hole_sent_quiet phs c =
      let (key, s) = get_pk x phs.version phs.id c.server in
      (send_to_tcp-Quiet x (x.net.decode phs.socket_addr)
        (punch_hole_response (record {
          socket_addr = x.net.encode addr;
          pk = key;
          relay_server = phs.relay_server;
          nat_type = or_none phs.nat_type;
          is_local = false;
        }))
        (record c { server = s })).same_pushes

  pub local_addr_quiet :
      (la : LocalAddr) (c : Conn) → pushes (handle_local_addr x la addr c) ≡ pushes c
  unfolding handle_local_addr pushes
  local_addr_quiet la c =
      let (key, s) = get_pk x la.version la.id c.server in
      (send_to_tcp-Quiet x (x.net.decode la.socket_addr)
        (punch_hole_response (record {
          socket_addr = la.local_addr;
          pk = key;
          relay_server = la.relay_server;
          nat_type = other 0;
          is_local = true;
        }))
        (record c { server = s })).same_pushes
