-- ===== src/Rendezvous/Tcp/Preserving/Messages.antt =====
-- What every TCP message keeps: `handle_tcp` of src/rendezvous_server/tcp.rs.
use openuu_server.Prelude.{ℕ, String, Bool, ◌||◌, inl, inr, ltb, is_empty, Bool-cases}
use openuu_server.Prelude.Text.{is_empty_text}
use openuu_server.Net.{SocketAddr}
use openuu_server.Account.Api.{authorized}
use openuu_server.Rendezvous.Register.{RegisterPk, register_peer_response, register_pk_result}
use openuu_server.Rendezvous.Tcp.Wire.{
  TcpMessage, punch_hole_request, request_relay, relay_response, punch_hole_sent, local_addr,
  test_nat_request, register_peer, register_pk, other_message, TcpServer, Conn, Outside, pm_of,
  with_pm, serve, register_peer_result, register_pk_response, move_to_punch, move_to_peers,
  send_to_tcp_peer,
}
use openuu_server.Rendezvous.Tcp.Handlers.{
  handle_tcp_register_peer, handle_tcp_register_pk, remembered, handle_tcp,
}
use openuu_server.Rendezvous.Tcp.Preserving.{
  IsKept, send_peer_kept, reply_kept, move_punch_kept, move_peers_kept,
}
use openuu_server.Rendezvous.Tcp.Preserving.Answers.{
  punch_kept, hole_sent_kept, local_addr_kept, response_kept, request_kept,
}

module _ (x : Outside) (P : TcpServer → Type 0) (kept : IsKept x P) (addr : SocketAddr) where
  heartbeat_kept :
      (i : String) (serial : ℕ) (c : Conn)
      → P c.server
      → P (handle_tcp_register_peer x i serial addr c).server
  unfolding handle_tcp_register_peer
  heartbeat_kept i serial c h = elim (Bool-cases (is_empty_text i)) [
    | inl none_given ↦ rw none_given h
    | inr given ↦
        let c₁ = move_to_peers x addr c in
        let r = register_peer_response x.net x.now i addr (pm_of c₁.server) in
        let c₂ = send_to_tcp_peer x addr (register_peer_result r.0) (serve (with_pm r.1) c₁) in
        let h₂ : P c₂.server =
          send_peer_kept x P kept addr addr (register_peer_result r.0) (serve (with_pm r.1) c₁)
            (kept.registry c₁.server _ (move_peers_kept x P kept addr c h)) in
        rw given (elim (Bool-cases (ltb serial c₂.server.serial)) [
          | inl older ↦ rw older (send_peer_kept x P kept addr addr _ c₂ h₂)
          | inr current ↦ rw current h₂
        ])
  ]

  registration_kept :
      (rk : RegisterPk) (c : Conn) → P c.server → P (handle_tcp_register_pk x rk addr c).server
  unfolding handle_tcp_register_pk
  registration_kept rk c h = elim (Bool-cases (is_empty rk.uuid || is_empty rk.pk)) [
    | inl bad ↦ rw bad h
    | inr good ↦
        let c₁ = move_to_peers x addr c in
        let r = register_pk_result x.net x.codec x.now x.new_guid rk addr c₁.server.registry in
        rw good (
          send_peer_kept x P kept addr addr (register_pk_response r.0)
            (serve (λ s. record s { registry = r.1 }) c₁)
            (kept.registry c₁.server r.1 (move_peers_kept x P kept addr c h)))
  ]

  -- A property that the single writes keep is kept by every TCP message.
  pub handle_tcp_kept :
      (m : TcpMessage) (key : String) (ws : Bool) (c : Conn)
      → P c.server
      → P (handle_tcp x m addr key ws c).1.server
  unfolding handle_tcp
  handle_tcp_kept (punch_hole_request ph) key ws c h =
      elim (Bool-cases (authorized x.crypto x.unix_now ph.token c.server.accounts)) [
        | inr refused ↦ rw refused h
        | inl admitted ↦
            let c₁ = move_to_punch x addr c in
            rw admitted (
              punch_kept x P kept addr ph key ws (serve (remembered x addr ph) c₁)
                (kept.sessions c₁.server _ (move_punch_kept x P kept addr c h)))
      ]
  handle_tcp_kept (request_relay rf) key ws c h =
      elim (Bool-cases (authorized x.crypto x.unix_now rf.token c.server.accounts)) [
        | inr refused ↦ rw refused h
        | inl admitted ↦ rw admitted (request_kept x P kept addr rf c h)
      ]
  handle_tcp_kept (relay_response rr) key ws c h = response_kept x P kept addr rr c h
  handle_tcp_kept (punch_hole_sent phs) key ws c h = hole_sent_kept x P kept addr phs c h
  handle_tcp_kept (local_addr la) key ws c h = local_addr_kept x P kept addr la c h
  handle_tcp_kept (test_nat_request serial) key ws c h = reply_kept x P kept addr _ c h
  handle_tcp_kept (register_peer i serial) key ws c h = heartbeat_kept i serial c h
  handle_tcp_kept (register_pk rk) key ws c h = registration_kept rk c h
  handle_tcp_kept other_message key ws c h = h
