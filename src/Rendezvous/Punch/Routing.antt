-- ===== src/Rendezvous/Punch/Routing.antt =====
-- To whom `handle_punch_hole_request` (src/rendezvous_server/punch.rs) sends what.
use openuu_server.Prelude.{
  ℕ, ◌-◌, ◌<◌, String, Bool, true, false, not, ◌&&◌, ◌||◌, Option, none, some, leb, if◌then◌else◌,
  Bool-cases, inl, inr, ◌≡◌, refl, arith, ap, subst, sym, ◌∙◌,
}
use openuu_server.Prelude.Text.{is_empty_text}
use openuu_server.Net.{SocketAddr, AddrTools}
use openuu_server.Rendezvous.Messages.{
  NatType, Failure, offline, license_mismatch, PunchHoleRequest, Message, punch_hole_failure,
  fetch_local_addr, punch_hole,
}
use openuu_server.Rendezvous.Peers.{Peer, InfoCodec, get_or_load, string_eq}
use openuu_server.Rendezvous.Punch.{
  PunchServer, handle_punch_hole_request, to_peer, route, reg_timeout,
}

module _ (net : AddrTools) where
  -- A message that lets the peer meet the requester at `addr`.
  pub data Introduces (addr : SocketAddr) : Message → Type 0 where
    by_local_addr : (relay : String) → Introduces addr (fetch_local_addr (net.encode addr) relay)
    by_punch :
        (nat_type : NatType) (relay : String)
        → Introduces addr (punch_hole (net.encode addr) nat_type relay)

  either-Introduces :
      (addr : SocketAddr) (b : Bool) (nat_type : NatType) (relay relay' : String)
      → Introduces addr (
          if b
          then fetch_local_addr (net.encode addr) relay
          else punch_hole (net.encode addr) nat_type relay')
  either-Introduces addr true nat_type relay relay' = by_local_addr relay
  either-Introduces addr false nat_type relay relay' = by_punch nat_type relay'

  route-Introduces :
      (addr : SocketAddr) (ph : PunchHoleRequest) (ws : Bool) (peer_addr : SocketAddr)
      (s : PunchServer)
      → Introduces addr (route net addr ph ws peer_addr s).0.0
  route-Introduces addr ph ws peer_addr s = either-Introduces addr _ _ _ _

  pushed_to_peer :
      (now : ℕ) (addr : SocketAddr) (ph : PunchHoleRequest) (ws : Bool) (o : Option Peer)
      (s : PunchServer) (a : SocketAddr)
      → (to_peer net now addr ph ws o s).0.1 ≡ some a
      → (p : Peer) × (o ≡ some p)
        × (a ≡ p.socket_addr)
        × (now - p.last_reg_time < reg_timeout)
        × Introduces addr (to_peer net now addr ph ws o s).0.0
  pushed_to_peer now addr ph ws none s a h = cc
  pushed_to_peer now addr ph ws (some p) s a h =
      elim (Bool-cases (leb reg_timeout (now - p.last_reg_time))) [
        | inl late ↦ absurd (ground arith)
        | inr fresh ↦ (
          p,
          refl,
          ground arith,
          ground arith,
          rw fresh (route-Introduces addr ph ws p.socket_addr _),
        )
      ]

  -- A message to a peer goes to the address that the requested peer last registered from, less than
  -- thirty seconds ago, introduces the requester to it, and needs the server's key.
  pub handle_punch_hole_request_pushes :
      (codec : InfoCodec) (now : ℕ) (addr : SocketAddr) (ph : PunchHoleRequest) (key : String)
      (ws : Bool) (s : PunchServer) {m : Message} {a : SocketAddr} {s' : PunchServer}
      → handle_punch_hole_request net codec now addr ph key ws s ≡ ((m, some a), s')
      → (p : Peer) × ((get_or_load codec now ph.id s.pm).0 ≡ some p)
        × (a ≡ p.socket_addr)
        × (now - p.last_reg_time < reg_timeout)
        × Introduces addr m
        × ((is_empty_text key || string_eq ph.licence_key key) ≡ true)
  unfolding handle_punch_hole_request
  handle_punch_hole_request_pushes codec now addr ph key ws s {m} {a} {s'} h =
      elim (Bool-cases (not (is_empty_text key) && not (string_eq ph.licence_key key))) [
        | inl bad ↦ absurd (ground arith)
        | inr good ↦
            let r = get_or_load codec now ph.id s.pm in
            let e = handled good in
            let (p, found, at, fresh, intro) =
              pushed_to_peer now addr ph ws r.0 (record s { pm = r.1 }) a (ap (λ x. x.0.1) e) in
            (p, found, at, fresh, subst (Introduces addr) (ap (λ x. x.0.0) e) intro, ground arith)
      ]
    where
      handled :
          (not (is_empty_text key) && not (string_eq ph.licence_key key)) ≡ false
          → to_peer net now addr ph ws
              (get_or_load codec now ph.id s.pm).0
              (record s { pm = (get_or_load codec now ph.id s.pm).1 })
            ≡ ((m, some a), s')
      handled good = ground (arith, good)

  refused_to_peer :
      (now : ℕ) (addr : SocketAddr) (ph : PunchHoleRequest) (ws : Bool) (o : Option Peer)
      (s : PunchServer)
      → (to_peer net now addr ph ws o s).0.1 ≡ none
      → (f : Failure) × ((to_peer net now addr ph ws o s).0.0 ≡ punch_hole_failure f)
        × ((to_peer net now addr ph ws o s).1 ≡ s)
  refused_to_peer now addr ph ws none s h = (_, refl, refl)
  refused_to_peer now addr ph ws (some p) s h =
      elim (Bool-cases (leb reg_timeout (now - p.last_reg_time))) [
        | inl late ↦ (offline, rw late, rw late)
        | inr fresh ↦ absurd (ground arith)
      ]

  -- An answer to the requester is a failure, and leaves the record of requests and the rotation of
  -- the relay servers alone.
  handle_punch_hole_request_refuses :
      (codec : InfoCodec) (now : ℕ) (addr : SocketAddr) (ph : PunchHoleRequest) (key : String)
      (ws : Bool) (s : PunchServer) {m : Message} {s' : PunchServer}
      → handle_punch_hole_request net codec now addr ph key ws s ≡ ((m, none), s')
      → (f : Failure) × (m ≡ punch_hole_failure f)
        × (s'.punch_reqs ≡ s.punch_reqs)
        × (s'.relays ≡ s.relays)
  unfolding handle_punch_hole_request
  handle_punch_hole_request_refuses codec now addr ph key ws s {m} {s'} h =
      elim (Bool-cases (not (is_empty_text key) && not (string_eq ph.licence_key key))) [
        | inl bad ↦
            (license_mismatch, ground (arith, bad), ground (arith, bad), ground (arith, bad))
        | inr good ↦
            let r = get_or_load codec now ph.id s.pm in
            let s₁ = record s { pm = r.1 } in
            let e : to_peer net now addr ph ws r.0 s₁ ≡ ((m, none), s') = ground (arith, good) in
            let (f, failed, same) = refused_to_peer now addr ph ws r.0 s₁ (ap (λ x. x.0.1) e) in
            (
              f,
              sym (ap (λ x. x.0.0) e) ∙ failed,
              ap (λ x. x.punch_reqs) (sym (ap (λ x. x.1) e) ∙ same),
              ap (λ x. x.relays) (sym (ap (λ x. x.1) e) ∙ same),
            )
      ]
