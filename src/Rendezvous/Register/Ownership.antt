-- ===== src/Rendezvous/Register/Ownership.antt =====
-- Who can change a registered peer (`register_pk_result` of src/rendezvous_server/udp.rs).
use Prim.Native.String.{len}
use openuu_server.Prelude.{
  ℕ, String, Bool, true, false, Option, none, some, ◌≡◌, ◌≢◌, ◌⊎◌, inl, inr, refl, ap, sym, ◌∙◌,
  arith, String_discrete, Bytes, is_empty, Bool-cases, ltb,
}
use openuu_server.Net.{SocketAddr, AddrTools}
use openuu_server.Rendezvous.Blocker.{check_ip_blocker}
use openuu_server.Rendezvous.Peers.{
  Peer, PeerMap, InfoCodec, set_peer, get_in_memory, get_or, update_pk,
}
use openuu_server.Rendezvous.Peers.Lookup.{get-set_peer, get_or_lem, update_pk-Stores}
use openuu_server.Rendezvous.Register.{
  RegisterPk, Registry, compare_peer, count_reg_pk, register_pk_result, compared, counted, stored,
}

module _ (net : AddrTools) where
  -- A comparison that goes on: the uuid is the stored one, and the key or the address is.
  pub compare_some :
      (rk : RegisterPk) (ip : String) (p : Peer) (changed ip_changed : Bool)
      → is_empty p.uuid ≡ false
      → compare_peer net rk ip p ≡ some (changed, ip_changed)
      → (p.uuid ≡ rk.uuid) × ((p.pk ≡ rk.pk) ⊎ (p.info_ip ≡ ip))
  unfolding compare_peer
  compare_some rk ip p changed ip_changed e h = ground arith

  pub compare_same :
      (rk : RegisterPk) (ip : String) (p : Peer) (ip_changed : Bool)
      → compare_peer net rk ip p ≡ some (false, ip_changed)
      → (p.uuid ≡ rk.uuid) × (p.pk ≡ rk.pk) × (p.info_ip ≡ ip)
  unfolding compare_peer
  compare_same rk ip p ip_changed h = ground arith

  -- How a registration may change an entry.
  abbrev pub KeepsOwner : RegisterPk → String → String → Peer → Peer → Type 0
  KeepsOwner rk ip j p q =
      (q.uuid ≡ p.uuid)
      × ((q.pk ≡ p.pk) ⊎ ((j ≡ rk.id) × (rk.uuid ≡ p.uuid) × (p.info_ip ≡ ip) × (q.pk ≡ rk.pk)))

  module _ (codec : InfoCodec) (now : ℕ) (new_guid : Bytes) (rk : RegisterPk)
      (addr : SocketAddr) where
    module _ (j : String) (p : Peer) (full : is_empty p.uuid ≡ false) where
      abbrev Kept : PeerMap → Type 0
      Kept pm =
          (q : Peer) × (get_in_memory j pm ≡ some q) × KeepsOwner rk (net.ip_text addr.ip) j p q

      stored_other :
          (changed : Bool) (peer : Peer) (pm : PeerMap)
          → j ≢ rk.id
          → get_in_memory j pm ≡ some p
          → Kept (stored net codec now new_guid rk addr (net.ip_text addr.ip) changed peer pm)
      stored_other false peer pm other h = (p, h, (refl, inl refl))
      stored_other true peer pm other h =
          let (q, _, _, same) =
            update_pk-Stores codec now new_guid rk.id peer addr rk.uuid rk.pk (net.ip_text addr.ip)
              pm j in
          (p, same other ∙ h, (refl, inl refl))

      stored_self :
          (changed ip_changed : Bool) (peer : Peer) (pm : PeerMap)
          → j ≡ rk.id
          → compare_peer net rk (net.ip_text addr.ip) p ≡ some (changed, ip_changed)
          → peer.uuid ≡ p.uuid
          → peer.pk ≡ p.pk
          → get_in_memory rk.id pm ≡ some peer
          → Kept (stored net codec now new_guid rk addr (net.ip_text addr.ip) changed peer pm)
      stored_self false ip_changed peer pm is e u k h =
          (peer, ap (λ x. get_in_memory x pm) is ∙ h, (u, inl k))
      stored_self true ip_changed peer pm is e u k h =
          let ip = net.ip_text addr.ip in
          let (q, w, found, _) =
            update_pk-Stores codec now new_guid rk.id peer addr rk.uuid rk.pk ip pm j in
          let (same, k') = compare_some rk ip p true ip_changed full e in
          (
            q,
            ap
                  (λ x.
                    get_in_memory x
                      (update_pk codec now new_guid rk.id peer addr rk.uuid rk.pk ip pm).1)
                  is
                ∙ found,
            (w.0 ∙ sym same, ground (arith, w.1)),
          )

      counted_keeps :
          (changed ip_changed : Bool) (o : Option (ℕ × ℕ)) (peer : Peer) (s : Registry)
          → compare_peer net rk (net.ip_text addr.ip) peer ≡ some (changed, ip_changed)
          → get_in_memory rk.id s.pm ≡ some peer
          → get_in_memory j s.pm ≡ some p
          → Kept
              (counted net codec now new_guid rk addr
                (net.ip_text addr.ip)
                (changed, ip_changed)
                o
                peer
                s).1.pm
      counted_keeps changed ip_changed none peer s e h g = (p, g, (refl, inl refl))
      counted_keeps changed ip_changed (some r) peer s e h g =
          let peer' = record peer { reg_pk = r } in
          let pm = set_peer rk.id peer' s.pm in
          elim (String_discrete j rk.id) [
            | no other ↦
                stored_other changed peer' pm other
                  (ground (arith, get-set_peer rk.id j peer' s.pm))
            | yes is ↦
                let same : peer ≡ p = ground (arith, ap (λ x. get_in_memory x s.pm) is) in
                stored_self changed ip_changed peer' pm is
                  (ap (compare_peer net rk (net.ip_text addr.ip)) (sym same) ∙ e)
                  (ap (λ (x : Peer). x.uuid) same) (ap (λ (x : Peer). x.pk) same)
                  (ground (arith, get-set_peer rk.id rk.id peer' s.pm))
          ]

      compared_keeps :
          (o : Option (Bool × Bool)) (peer : Peer) (s : Registry)
          → compare_peer net rk (net.ip_text addr.ip) peer ≡ o
          → get_in_memory rk.id s.pm ≡ some peer
          → get_in_memory j s.pm ≡ some p
          → Kept (compared net codec now new_guid rk addr (net.ip_text addr.ip) o peer s).1.pm
      compared_keeps none peer s e h g = (p, g, (refl, inl refl))
      compared_keeps (some (changed, ip_changed)) peer s e h g =
          counted_keeps changed ip_changed (count_reg_pk net now peer.reg_pk) peer s e h g

      pub still_there :
          (pm : PeerMap)
          → get_in_memory j pm ≡ some p
          → get_in_memory j (get_or codec now rk.id pm).1 ≡ some p
      still_there pm h = elim (String_discrete j rk.id) [
        | no other ↦ (get_or_lem codec now rk.id pm j).1 other ∙ h
        | yes is ↦
            let (_, _, there) = get_or_lem codec now rk.id pm j in
            ap (get_in_memory j) (there p (ap (λ x. get_in_memory x pm) (sym is) ∙ h)).1 ∙ h
      ]

      -- A registration never changes the uuid of a registered peer, and changes its key only if it
      -- names the peer, presents the stored uuid and comes from the address on record.
      pub register_pk_result-KeepsOwner :
          (s : Registry)
          → get_in_memory j s.pm ≡ some p
          → (q : Peer) × (get_in_memory j (register_pk_result net codec now new_guid rk addr s).1.pm
              ≡ some q)
            × KeepsOwner rk (net.ip_text addr.ip) j p q
      unfolding register_pk_result
      register_pk_result-KeepsOwner s h = elim (Bool-cases (ltb (len rk.id) 6)) [
        | inl short ↦ rw short (p, h, (refl, inl refl))
        | inr long ↦
            let b = check_ip_blocker now (net.ip_text addr.ip) rk.id s.ip_blocker in
            rw long (elim (Bool-cases b.1) [
              | inr refused ↦ rw refused (p, h, (refl, inl refl))
              | inl admitted ↦
                  let (found, _, _) = get_or_lem codec now rk.id s.pm j in
                  let r = get_or codec now rk.id s.pm in
                  rw admitted (
                    compared_keeps (compare_peer net rk (net.ip_text addr.ip) r.0) r.0
                      (record s { ip_blocker = b.0; pm = r.1 }) refl found (still_there s.pm h))
            ])
      ]
