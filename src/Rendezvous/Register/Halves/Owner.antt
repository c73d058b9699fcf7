-- ===== src/Rendezvous/Register/Halves/Owner.antt =====
-- A registered peer while registrations of it are under way (`register_pk_result` of
-- src/rendezvous_server/udp.rs).
use Prim.Native.String.{len}
use openuu_server.Prelude.{
  ℕ, String, Bool, true, false, Option, none, some, [], ltb, Bytes, is_empty, String_discrete,
  Bool-cases, inl, inr, refl, ap, sym, arith, ◌≡◌, ◌≢◌, ◌⊎◌, ◌∙◌,
}
use openuu_server.Net.{SocketAddr, AddrTools}
use openuu_server.Rendezvous.Blocker.{check_ip_blocker}
use openuu_server.Rendezvous.Peers.{Peer, PeerMap, InfoCodec, get_in_memory, get_or, set_peer}
use openuu_server.Rendezvous.Peers.Lookup.{get-set_peer, get_or_lem, update_pk-Stores}
use openuu_server.Rendezvous.Register.{
  RegisterPk, Registry, compare_peer, count_reg_pk, counted, stored,
}
use openuu_server.Rendezvous.Register.Ownership.{compare_some, still_there}
use openuu_server.Rendezvous.Register.Halves.{
  Checked, refused, passed, checked, check_registration, finished, finish_registration,
}

module _ (net : AddrTools) (codec : InfoCodec) (now : ℕ) (rk : RegisterPk) (addr : SocketAddr)
    (j : String) (p : Peer) where
  -- What passes is for another peer, or presents the stored uuid.
  abbrev pub Presents : Checked → Type 0
  Presents (refused r) = Unit
  Presents (passed change) = j ≡ rk.id → rk.uuid ≡ p.uuid

  compared-Presents :
      (o : Option (Bool × Bool)) (peer : Peer)
      → is_empty p.uuid ≡ false
      → compare_peer net rk (net.ip_text addr.ip) peer ≡ o
      → (j ≡ rk.id → peer ≡ p)
      → Presents (checked net codec now o)
  compared-Presents none peer full h same = tt
  compared-Presents (some (changed, ip_changed)) peer full h same = λ is.
      sym
        (compare_some net rk (net.ip_text addr.ip) p changed ip_changed full
          (ap (compare_peer net rk (net.ip_text addr.ip)) (sym (same is)) ∙ h)).0

  pub check_registration_keeps :
      (s : Registry)
      → is_empty p.uuid ≡ false
      → get_in_memory j s.pm ≡ some p
      → (get_in_memory j (check_registration net codec now rk addr s).1.pm ≡ some p)
        × Presents (check_registration net codec now rk addr s).0
  unfolding check_registration
  check_registration_keeps s full h = elim (Bool-cases (ltb (len rk.id) 6)) [
    | inl short ↦ rw short (h, tt)
    | inr long ↦
        let b = check_ip_blocker now (net.ip_text addr.ip) rk.id s.ip_blocker in
        rw long (elim (Bool-cases b.1) [
          | inr turned_away ↦ rw turned_away (h, tt)
          | inl admitted ↦
              let (_, _, there) = get_or_lem codec now rk.id s.pm j in
              let r = get_or codec now rk.id s.pm in
              rw admitted (
                still_there net codec now [] rk addr j p full s.pm h,
                compared-Presents (compare_peer net rk (net.ip_text addr.ip) r.0) r.0 full refl
                    (λ is. (there p (ap (λ x. get_in_memory x s.pm) (sym is) ∙ h)).0),
              )
        ])
  ]

  module _ (new_guid : Bytes) where
    abbrev Kept : PeerMap → Type 0
    Kept pm =
        (q : Peer) × (get_in_memory j pm ≡ some q)
        × (q.uuid ≡ p.uuid)
        × ((q.pk ≡ p.pk) ⊎ ((j ≡ rk.id) × (rk.uuid ≡ p.uuid)))

    stored_keeps :
        (changed : Bool) (peer : Peer) (pm : PeerMap)
        → (j ≡ rk.id → rk.uuid ≡ p.uuid)
        → (j ≡ rk.id → (peer.uuid ≡ p.uuid) × (peer.pk ≡ p.pk))
        → get_in_memory rk.id pm ≡ some peer
        → (j ≢ rk.id → get_in_memory j pm ≡ some p)
        → Kept (stored net codec now new_guid rk addr (net.ip_text addr.ip) changed peer pm)
    stored_keeps changed peer pm shown same h g = elim (String_discrete j rk.id) [
      | yes is ↦ own changed is (same is)
      | no other ↦ foreign changed other
    ]
      where
        own :
            (changed : Bool)
            → j ≡ rk.id
            → (peer.uuid ≡ p.uuid) × (peer.pk ≡ p.pk)
            → Kept (stored net codec now new_guid rk addr (net.ip_text addr.ip) changed peer pm)
        own false is (u, k) = (peer, ap (λ x. get_in_memory x pm) is ∙ h, u, inl k)
        own true is (u, k) =
            let ip = net.ip_text addr.ip in
            let (q, w, found, _) =
              update_pk-Stores codec now new_guid rk.id peer addr rk.uuid rk.pk ip pm j in
            let after = stored net codec now new_guid rk addr ip true peer pm in
            (q, ap (λ x. get_in_memory x after) is ∙ found, w.0 ∙ shown is, inr (is, shown is))

        foreign :
            (changed : Bool)
            → j ≢ rk.id
            → Kept (stored net codec now new_guid rk addr (net.ip_text addr.ip) changed peer pm)
        foreign false other = (p, g other, refl, inl refl)
        foreign true other =
            let (q, _, _, same) =
              update_pk-Stores codec now new_guid rk.id peer addr rk.uuid rk.pk
                (net.ip_text addr.ip) pm j in
            (p, same other ∙ g other, refl, inl refl)

    counted_keeps :
        (change : Bool × Bool) (o : Option (ℕ × ℕ)) (peer : Peer) (s : Registry)
        → (j ≡ rk.id → rk.uuid ≡ p.uuid)
        → get_in_memory rk.id s.pm ≡ some peer
        → get_in_memory j s.pm ≡ some p
        → Kept (counted net codec now new_guid rk addr (net.ip_text addr.ip) change o peer s).1.pm
    counted_keeps change none peer s shown h g = (p, g, refl, inl refl)
    counted_keeps (changed, ip_changed) (some r) peer s shown h g =
        let peer' = record peer { reg_pk = r } in
        stored_keeps changed peer' (set_peer rk.id peer' s.pm) shown
          (λ is.
            let e : peer ≡ p = ground (arith, ap (λ x. get_in_memory x s.pm) is) in
            (ap (λ (x : Peer). x.uuid) e, ap (λ (x : Peer). x.pk) e))
          (ground (arith, get-set_peer rk.id rk.id peer' s.pm))
          (λ other. ground (arith, get-set_peer rk.id j peer' s.pm))

    pub finish_registration_keeps :
        (change : Bool × Bool) (s : Registry)
        → (j ≡ rk.id → rk.uuid ≡ p.uuid)
        → get_in_memory j s.pm ≡ some p
        → Kept (finish_registration net codec now new_guid rk addr change s).1.pm
    unfolding finish_registration
    finish_registration_keeps change s shown h = by_peer (get_in_memory rk.id s.pm) refl
      where
        by_peer :
            (o : Option Peer)
            → get_in_memory rk.id s.pm ≡ o
            → Kept (finished net codec now new_guid rk addr change o s).1.pm
        by_peer none e = (p, h, refl, inl refl)
        by_peer (some peer) e =
            counted_keeps change (count_reg_pk net now peer.reg_pk) peer s shown e h
