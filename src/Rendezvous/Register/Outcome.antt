-- ===== src/Rendezvous/Register/Outcome.antt =====
-- What each answer of `register_pk_result` (src/rendezvous_server/udp.rs) says of the peers.
use Prim.Native.String.{len}
use openuu_server.Prelude.{
  ℕ, ◌≤◌, String, Bool, true, false, Option, none, some, ◌≡◌, inl, inr, refl, ap, sym, arith, Bytes,
  Bool-cases, ltb,
}
use openuu_server.Net.{SocketAddr, AddrTools}
use openuu_server.Rendezvous.Blocker.{check_ip_blocker}
use openuu_server.Rendezvous.Peers.{
  Peer, PeerMap, InfoCodec, RegisterResult, ok, set_peer, get_in_memory, get_or, update_pk,
}
use openuu_server.Rendezvous.Peers.Lookup.{get-set_peer, update_pk-Stores}
use openuu_server.Rendezvous.Register.{
  RegisterPk, Registry, compare_peer, count_reg_pk, register_pk_result, compared, counted, stored,
}
use openuu_server.Rendezvous.Register.Ownership.{compare_same}

module _ (net : AddrTools) (codec : InfoCodec) (now : ℕ) (new_guid : Bytes) (rk : RegisterPk)
    (addr : SocketAddr) where
  abbrev result : Registry → RegisterResult × Registry
  result s = register_pk_result net codec now new_guid rk addr s

  abbrev ip : String
  ip = net.ip_text addr.ip

  -- The peer that a successful registration leaves under its id.
  abbrev pub Registered : Peer → Option (ℕ × ℕ) → Type 0
  Registered q count =
      (q.uuid ≡ rk.uuid) × (q.pk ≡ rk.pk) × (q.info_ip ≡ ip) × (count ≡ some q.reg_pk)

  stored_ok :
      (changed ip_changed : Bool) (r : ℕ × ℕ) (peer : Peer) (pm : PeerMap)
      → compare_peer net rk ip peer ≡ some (changed, ip_changed)
      → get_in_memory rk.id pm ≡ some (record peer { reg_pk = r })
      → (q : Peer) × (get_in_memory rk.id
            (stored net codec now new_guid rk addr ip changed (record peer { reg_pk = r }) pm)
          ≡ some q)
        × Registered q (some r)
  stored_ok false ip_changed r peer pm e h =
      let (u, k, i) = compare_same net rk ip peer ip_changed e in
      (record peer { reg_pk = r }, h, (u, k, i, refl))
  stored_ok true ip_changed r peer pm e h =
      let (q, w, found, _) =
        update_pk-Stores codec now new_guid rk.id (record peer { reg_pk = r }) addr rk.uuid rk.pk ip
          pm rk.id in
      (q, found, (w.0, w.1, w.2, ap some (sym w.5)))

  counted_ok :
      (change : Bool × Bool) (o : Option (ℕ × ℕ)) (peer : Peer) (s : Registry)
      → compare_peer net rk ip peer ≡ some change
      → (counted net codec now new_guid rk addr ip change o peer s).0 ≡ ok
      → (q : Peer) × (get_in_memory rk.id
            (counted net codec now new_guid rk addr ip change o peer s).1.pm
          ≡ some q)
        × Registered q o
  counted_ok change none peer s e h = cc
  counted_ok (changed, ip_changed) (some r) peer s e h =
      stored_ok changed ip_changed r peer (set_peer rk.id (record peer { reg_pk = r }) s.pm) e
        (ground (arith, get-set_peer rk.id rk.id (record peer { reg_pk = r }) s.pm))

  compared_ok :
      (o : Option (Bool × Bool)) (peer : Peer) (s : Registry)
      → compare_peer net rk ip peer ≡ o
      → (compared net codec now new_guid rk addr ip o peer s).0 ≡ ok
      → (q : Peer) × (get_in_memory rk.id (compared net codec now new_guid rk addr ip o peer s).1.pm
          ≡ some q)
        × Registered q (count_reg_pk net now peer.reg_pk)
  compared_ok none peer s e h = cc
  compared_ok (some change) peer s e h =
      counted_ok change (count_reg_pk net now peer.reg_pk) peer s e h

  -- A registration that answers OK leaves the peer in memory with exactly the uuid, the key and the
  -- address that it came with, and counted it.
  register_pk_result_ok :
      (s : Registry)
      → (result s).0 ≡ ok
      → (q : Peer) × (get_in_memory rk.id (result s).1.pm ≡ some q)
        × Registered q (count_reg_pk net now (get_or codec now rk.id s.pm).0.reg_pk)
  unfolding register_pk_result
  register_pk_result_ok s h = elim (Bool-cases (ltb (len rk.id) 6)) [
    | inl short ↦ absurd (ground arith)
    | inr long ↦
        let b = check_ip_blocker now ip rk.id s.ip_blocker in
        elim (Bool-cases b.1) [
          | inr refused ↦ absurd (ground arith)
          | inl admitted ↦
              let r = get_or codec now rk.id s.pm in
              rw (long, admitted)
                (compared_ok (compare_peer net rk ip r.0) r.0
                  (record s { ip_blocker = b.0; pm = r.1 }) refl (ground arith))
        ]
  ]

  -- While the database cannot be used, a new peer that is admitted, with an
  -- id of six bytes or more, is told OK all the same, and no row is written:
  -- the SERVER_ERROR of update_pk is dropped.
  pub register_pk_result_unsaved :
      (s : Registry)
      → s.pm.db.available ≡ false
      → get_in_memory rk.id s.pm ≡ none
      → 6 ≤ len rk.id
      → (check_ip_blocker now ip rk.id s.ip_blocker).1 ≡ true
      → ((result s).0 ≡ ok) × ((result s).1.pm.db ≡ s.pm.db)
  unfolding register_pk_result get_or update_pk count_reg_pk
  register_pk_result_unsaved s down absent long admitted = (ground arith, ground arith)
