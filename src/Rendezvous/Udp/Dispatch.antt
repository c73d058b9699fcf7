-- ===== src/Rendezvous/Udp/Dispatch.antt =====
-- What one UDP message can change (`handle_udp` of src/rendezvous_server/udp.rs).
use openuu_server.Prelude.{
  ℕ, ◌<◌, String, Bool, true, false, ◌&&◌, ◌||◌, some, List, ◌≡◌, ◌⊎◌, inl, inr, refl, arith, ltb,
  Bytes, is_empty, Bool-cases,
}
use openuu_server.Prelude.Text.{is_empty_text}
use openuu_server.Net.{SocketAddr, AddrTools, is_loopback}
use openuu_server.Rendezvous.Peers.{Peer, PeerMap, InfoCodec, get_in_memory}
use openuu_server.Rendezvous.Register.{RegisterPk, register_pk_result}
use openuu_server.Rendezvous.Register.Heartbeat.{register_peer_response_keeps}
use openuu_server.Rendezvous.Register.Ownership.{KeepsOwner, register_pk_result-KeepsOwner}
use openuu_server.Rendezvous.Udp.{
  UdpMessage, register_peer, register_pk, test_nat_request, punch_hole_request, punch_hole_sent,
  local_addr, configure_update, software_update, other_message, UdpServer, handle_udp, configured,
}

module _ (net : AddrTools) (codec : InfoCodec) (valid : String → Bool) (now : ℕ)
    (new_guid : Bytes) where
  -- the server after a message
  abbrev pub served : UdpMessage → SocketAddr → UdpServer → UdpServer
  served m addr s = (handle_udp net codec valid now new_guid m addr s).1

  configured_only :
      (serial : ℕ) (servers : List String) (addr : SocketAddr) (s : UdpServer)
      → let s' = configured net codec valid now new_guid serial servers addr s in
        ((s'.serial ≡ s.serial) × (s'.rendezvous_servers ≡ s.rendezvous_servers))
        ⊎ ((is_loopback (net.try_into_v4 addr).ip ≡ true) × (s.serial < s'.serial))
  configured_only serial servers addr s =
      elim (Bool-cases (is_loopback (net.try_into_v4 addr).ip && ltb s.serial serial)) [
        | inl on ↦ inr (ground (arith, on), ground (arith, on))
        | inr off ↦ inl (ground (arith, off), ground (arith, off))
      ]

  -- A UDP message leaves the serial and the rendezvous servers alone, unless it comes from the
  -- loopback address; then the serial grows if either changes.
  handle_udp_config :
      (m : UdpMessage) (addr : SocketAddr) (s : UdpServer)
      → (((served m addr s).serial ≡ s.serial)
          × ((served m addr s).rendezvous_servers ≡ s.rendezvous_servers))
        ⊎ ((is_loopback (net.try_into_v4 addr).ip ≡ true) × (s.serial < (served m addr s).serial))
  unfolding handle_udp
  handle_udp_config (register_peer id serial) addr s = inl (ground arith, ground arith)
  handle_udp_config (register_pk rk) addr s = inl (ground arith, ground arith)
  handle_udp_config (test_nat_request serial) addr s = inl (refl, refl)
  handle_udp_config punch_hole_request addr s = inl (refl, refl)
  handle_udp_config punch_hole_sent addr s = inl (refl, refl)
  handle_udp_config local_addr addr s = inl (refl, refl)
  handle_udp_config (configure_update serial servers) addr s = configured_only serial servers addr s
  handle_udp_config (software_update url) addr s = inl (refl, refl)
  handle_udp_config other_message addr s = inl (refl, refl)

  -- A message that may give a peer another key: it registers this peer with the stored uuid, from
  -- the address on record.
  pub data Renews (j : String) (p : Peer) (addr : SocketAddr) : UdpMessage → Type 0 where
    renews :
        (rk : RegisterPk)
        → j ≡ rk.id
        → rk.uuid ≡ p.uuid
        → p.info_ip ≡ net.ip_text addr.ip
        → Renews j p addr (register_pk rk)

  module _ (j : String) (p : Peer) where
    abbrev Keeps : UdpMessage → SocketAddr → PeerMap → Type 0
    Keeps m addr pm =
        (q : Peer) × (get_in_memory j pm ≡ some q)
        × (q.uuid ≡ p.uuid)
        × ((q.pk ≡ p.pk) ⊎ Renews j p addr m)

    from_owner :
        (rk : RegisterPk) (addr : SocketAddr) (pm : PeerMap) (q : Peer)
        → get_in_memory j pm ≡ some q
        → KeepsOwner net rk (net.ip_text addr.ip) j p q
        → Keeps (register_pk rk) addr pm
    from_owner rk addr pm q h (u, inl same) = (q, h, u, inl same)
    from_owner rk addr pm q h (u, inr (is, uuid, ip, pk)) = (q, h, u, inr (renews rk is uuid ip))

    -- Whatever a UDP message is and whoever sends it, a registered peer in memory stays there with
    -- its uuid, and with its key unless the message registers it with that uuid from the address on
    -- record.
    pub handle_udp_keeps :
        (m : UdpMessage) (addr : SocketAddr) (s : UdpServer)
        → is_empty p.uuid ≡ false
        → get_in_memory j s.registry.pm ≡ some p
        → (q : Peer) × (get_in_memory j (served m addr s).registry.pm ≡ some q)
          × (q.uuid ≡ p.uuid)
          × ((q.pk ≡ p.pk) ⊎ Renews j p addr m)
    unfolding handle_udp
    handle_udp_keeps (register_peer id serial) addr s full h =
        elim (Bool-cases (is_empty_text id)) [
          | inl none_given ↦ (p, ground (arith, h, none_given), refl, inl refl)
          | inr given ↦
              let (q, found, u, k) =
                register_peer_response_keeps net now id addr s.registry.pm p j h in
              rw (served, given) (q, found, u, inl k)
        ]
    handle_udp_keeps (register_pk rk) addr s full h =
        elim (Bool-cases (is_empty rk.uuid || is_empty rk.pk)) [
          | inl bad ↦ (p, ground (arith, h, bad), refl, inl refl)
          | inr good ↦
              let (q, found, kept) =
                register_pk_result-KeepsOwner net codec now new_guid rk addr j p full s.registry
                  h in
              rw (served, good)
                (from_owner rk addr
                  (register_pk_result net codec now new_guid rk addr s.registry).1.pm q found kept)
        ]
    handle_udp_keeps (test_nat_request serial) addr s full h = (p, h, refl, inl refl)
    handle_udp_keeps punch_hole_request addr s full h = (p, h, refl, inl refl)
    handle_udp_keeps punch_hole_sent addr s full h = (p, h, refl, inl refl)
    handle_udp_keeps local_addr addr s full h = (p, h, refl, inl refl)
    handle_udp_keeps (configure_update serial servers) addr s full h =
        (p, ground (arith, h), refl, inl refl)
    handle_udp_keeps (software_update url) addr s full h = (p, h, refl, inl refl)
    handle_udp_keeps other_message addr s full h = (p, h, refl, inl refl)
