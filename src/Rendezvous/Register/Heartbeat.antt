-- ===== src/Rendezvous/Register/Heartbeat.antt =====
-- What a heartbeat does (`register_peer_response` of src/rendezvous_server/udp.rs).
use openuu_server.Prelude.{
  ℕ, String, not, ◌&&◌, ◌||◌, some, ◌≡◌, refl, ap, arith, if◌then◌else◌, eqb, String_discrete,
  is_empty, Bool-cases, Option-cases, inl, inr,
}
use openuu_server.Net.{SocketAddr, AddrTools}
use openuu_server.Rendezvous.Peers.{Peer, PeerMap, get_in_memory}
use openuu_server.Rendezvous.Peers.Lookup.{get-set_peer}
use openuu_server.Rendezvous.Register.{register_peer_response, ip_change}

module _ (net : AddrTools) (now : ℕ) (id : String) (addr : SocketAddr) where
  -- A heartbeat of a peer in memory asks for the key again exactly if the peer has no key or the
  -- heartbeat came from a new address; then it changes no peer. Otherwise it moves the peer to the
  -- address of the heartbeat and marks it as seen now, and changes nothing else of it and of any
  -- other peer.
  register_peer_response-Peer :
      (pm : PeerMap) (p : Peer) (j : String)
      → get_in_memory id pm ≡ some p
      → let again = is_empty p.pk || ip_change net addr.ip p in
        ((register_peer_response net now id addr pm).0 ≡ again)
        × (get_in_memory j (register_peer_response net now id addr pm).1 ≡ (
            if not again && eqb String_discrete id j
            then some (record p { socket_addr = addr; last_reg_time = now })
            else get_in_memory j pm))
  unfolding register_peer_response
  register_peer_response-Peer pm p j h =
      let q = record p { socket_addr = addr; last_reg_time = now } in
      elim (Bool-cases (is_empty p.pk || ip_change net addr.ip p)) [
        | inl again ↦ (ground (arith, h, again), ground (arith, h, again))
        | inr same ↦ (ground (arith, h, same), ground (arith, h, same, get-set_peer id j q pm))
      ]

  -- A heartbeat of any peer leaves a peer in memory there, with its uuid and its key.
  pub register_peer_response_keeps :
      (pm : PeerMap) (p : Peer) (j : String)
      → get_in_memory j pm ≡ some p
      → (q : Peer) × (get_in_memory j (register_peer_response net now id addr pm).1 ≡ some q)
        × (q.uuid ≡ p.uuid)
        × (q.pk ≡ p.pk)
  unfolding register_peer_response
  register_peer_response_keeps pm p j h = elim (Option-cases (get_in_memory id pm)) [
    | inl e ↦ (p, ground (arith, h, e), refl, refl)
    | inr (old, e) ↦ elim (Bool-cases (is_empty old.pk || ip_change net addr.ip old)) [
      | inl again ↦ (p, ground (arith, h, e, again), refl, refl)
      | inr same ↦
          let new = record old { socket_addr = addr; last_reg_time = now } in
          elim (String_discrete id j) [
            | yes is ↦
                let old_p : old ≡ p = ground (arith, e, h, ap (λ x. get_in_memory x pm) is) in
                (
                  new,
                  ground (arith, e, same, get-set_peer id j new pm),
                  ap (λ (x : Peer). x.uuid) old_p,
                  ap (λ (x : Peer). x.pk) old_p,
                )
            | no other ↦ (p, ground (arith, h, e, same, get-set_peer id j new pm), refl, refl)
          ]
    ]
  ]
