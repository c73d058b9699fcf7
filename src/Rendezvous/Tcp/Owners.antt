-- ===== src/Rendezvous/Tcp/Owners.antt =====
-- Who can change a registered peer over TCP (`handle_tcp` of src/rendezvous_server/tcp.rs).
use openuu_server.Prelude.{
  ℕ, String, Bool, false, ◌||◌, some, ◌≡◌, ◌⊎◌, inl, inr, refl, ap, ◌∙◌, ltb, is_empty, Bool-cases,
}
use openuu_server.Prelude.Text.{is_empty_text}
use openuu_server.Net.{SocketAddr, AddrTools}
use openuu_server.Account.Api.{authorized}
use openuu_server.Rendezvous.Peers.{Peer, get_in_memory}
use openuu_server.Rendezvous.Register.{RegisterPk, register_peer_response, register_pk_result}
use openuu_server.Rendezvous.Register.Heartbeat.{register_peer_response_keeps}
use openuu_server.Rendezvous.Register.Ownership.{KeepsOwner, register_pk_result-KeepsOwner}
use openuu_server.Rendezvous.Tcp.Wire.{
  TcpMessage, punch_hole_request, request_relay, relay_response, punch_hole_sent, local_addr,
  test_nat_request, register_peer, register_pk, other_message, TcpServer, Conn, Outside,
  register_peer_result, register_pk_response, config_update, with_pm, pm_of, serve, move_to_punch,
  move_to_peers, send_to_tcp_peer,
}
use openuu_server.Rendezvous.Tcp.Sending.{
  Quiet, send_to_tcp_peer-Quiet, reply_on_connection-Quiet, move_to_punch-Quiet,
  move_to_peers-Quiet,
}
use openuu_server.Rendezvous.Tcp.Handlers.{
  handle_tcp_register_peer, handle_tcp_register_pk, remembered, handle_tcp,
}
use openuu_server.Rendezvous.Tcp.Keeping.{
  There, after, handle_tcp_punch_hole_request_keeps, handle_hole_sent_keeps,
  handle_local_addr_keeps, handle_relay_response_keeps, handle_request_relay_keeps,
}

-- A message that may give a peer another key: it registers this peer with the stored uuid, from
-- the address on record.
pub data Renews (net : AddrTools) (j : String) (p : Peer) (addr : SocketAddr)
    : TcpMessage → Type 0 where
  renews :
      (rk : RegisterPk)
      → j ≡ rk.id
      → rk.uuid ≡ p.uuid
      → p.info_ip ≡ net.ip_text addr.ip
      → Renews net j p addr (register_pk rk)

module _ (j : String) (p : Peer) (x : Outside) (addr : SocketAddr) where
  abbrev Keeps : TcpMessage → TcpServer → Type 0
  Keeps m s =
      (q : Peer) × (get_in_memory j (pm_of s) ≡ some q)
      × (q.uuid ≡ p.uuid)
      × ((q.pk ≡ p.pk) ⊎ Renews x.net j p addr m)

  quietly : {m : TcpMessage} {c c' : Conn} → Quiet c c' → Keeps m c.server → Keeps m c'.server
  quietly q (r, found, u, k) = (r, ap (λ g. get_in_memory j g.pm) q.registry ∙ found, u, k)

  heartbeat-Keeps :
      (i : String) (serial : ℕ) (c : Conn)
      → There j p c.server
      → Keeps (register_peer i serial) (handle_tcp_register_peer x i serial addr c).server
  unfolding handle_tcp_register_peer
  heartbeat-Keeps i serial c h = elim (Bool-cases (is_empty_text i)) [
    | inl none_given ↦ rw none_given (p, h, refl, inl refl)
    | inr given ↦
        let c₁ = move_to_peers x addr c in
        let (q, found, uuid, key) =
          register_peer_response_keeps x.net x.now i addr (pm_of c₁.server) p j
            (after j p (move_to_peers-Quiet x addr c) h) in
        let r = register_peer_response x.net x.now i addr (pm_of c₁.server) in
        let c₂ = send_to_tcp_peer x addr (register_peer_result r.0) (serve (with_pm r.1) c₁) in
        let kept : Keeps (register_peer i serial) c₂.server =
          quietly
            (send_to_tcp_peer-Quiet x addr (register_peer_result r.0) (serve (with_pm r.1) c₁))
            (q, found, uuid, inl key) in
        rw given (elim (Bool-cases (ltb serial c₂.server.serial)) [
          | inl older ↦ rw older (
              quietly
                (send_to_tcp_peer-Quiet x addr
                  (config_update c₂.server.serial c₂.server.rendezvous_servers) c₂)
                kept)
          | inr current ↦ rw current kept
        ])
  ]

  registration-Keeps :
      (rk : RegisterPk) (c : Conn)
      → is_empty p.uuid ≡ false
      → There j p c.server
      → Keeps (register_pk rk) (handle_tcp_register_pk x rk addr c).server
  unfolding handle_tcp_register_pk
  registration-Keeps rk c full h = elim (Bool-cases (is_empty rk.uuid || is_empty rk.pk)) [
    | inl bad ↦ rw bad (p, h, refl, inl refl)
    | inr good ↦
        let c₁ = move_to_peers x addr c in
        let (q, found, kept) =
          register_pk_result-KeepsOwner x.net x.codec x.now x.new_guid rk addr j p full
            c₁.server.registry (after j p (move_to_peers-Quiet x addr c) h) in
        let r = register_pk_result x.net x.codec x.now x.new_guid rk addr c₁.server.registry in
        rw good (
          quietly
            (send_to_tcp_peer-Quiet x addr (register_pk_response r.0)
              (serve (λ s. record s { registry = r.1 }) c₁))
            (q, found, (by_owner q kept).0, (by_owner q kept).1))
  ]
    where
      by_owner :
          (q : Peer)
          → KeepsOwner x.net rk (x.net.ip_text addr.ip) j p q
          → (q.uuid ≡ p.uuid) × ((q.pk ≡ p.pk) ⊎ Renews x.net j p addr (register_pk rk))
      by_owner q (u, inl k) = (u, inl k)
      by_owner q (u, inr (is, uuid, ip, pk)) = (u, inr (renews rk is uuid ip))

  -- Whatever a TCP message is and whoever sends it, a registered peer in memory stays there with its
  -- uuid, and with its key unless the message registers it with that uuid from the address on record.
  pub handle_tcp_keeps :
      (m : TcpMessage) (key : String) (ws : Bool) (c : Conn)
      → is_empty p.uuid ≡ false
      → get_in_memory j (pm_of c.server) ≡ some p
      → (q : Peer) × (get_in_memory j (pm_of (handle_tcp x m addr key ws c).1.server) ≡ some q)
        × (q.uuid ≡ p.uuid)
        × ((q.pk ≡ p.pk) ⊎ Renews x.net j p addr m)
  unfolding handle_tcp
  handle_tcp_keeps (punch_hole_request ph) key ws c full h =
      elim (Bool-cases (authorized x.crypto x.unix_now ph.token c.server.accounts)) [
        | inr refused ↦ rw refused (p, h, refl, inl refl)
        | inl admitted ↦ rw admitted (
          p,
          handle_tcp_punch_hole_request_keeps j p x addr ph key ws
              (serve (remembered x addr ph) (move_to_punch x addr c))
              (after j p (move_to_punch-Quiet x addr c) h),
          refl,
          inl refl,
        )
      ]
  handle_tcp_keeps (request_relay rf) key ws c full h =
      elim (Bool-cases (authorized x.crypto x.unix_now rf.token c.server.accounts)) [
        | inr refused ↦ rw refused (p, h, refl, inl refl)
        | inl admitted ↦
            rw admitted (p, handle_request_relay_keeps j p x addr rf c h, refl, inl refl)
      ]
  handle_tcp_keeps (relay_response rr) key ws c full h =
      (p, handle_relay_response_keeps j p x addr rr c h, refl, inl refl)
  handle_tcp_keeps (punch_hole_sent phs) key ws c full h =
      (p, handle_hole_sent_keeps j p x addr phs c h, refl, inl refl)
  handle_tcp_keeps (local_addr la) key ws c full h =
      (p, handle_local_addr_keeps j p x addr la c h, refl, inl refl)
  handle_tcp_keeps (test_nat_request serial) key ws c full h =
      (p, after j p (reply_on_connection-Quiet x addr _ c) h, refl, inl refl)
  handle_tcp_keeps (register_peer i serial) key ws c full h = heartbeat-Keeps i serial c h
  handle_tcp_keeps (register_pk rk) key ws c full h = registration-Keeps rk c full h
  handle_tcp_keeps other_message key ws c full h = (p, h, refl, inl refl)
