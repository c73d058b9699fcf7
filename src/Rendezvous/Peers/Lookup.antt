-- ===== src/Rendezvous/Peers/Lookup.antt =====
-- What the operations of src/peer.rs leave in the map, entry by entry.
use openuu_server.Prelude.{
  ap, Option-cases, ℕ, String, Bool, true, false, Option, none, some, ◌≡◌, ◌≢◌, inl, inr, refl,
  arith, if◌then◌else◌, eqb, String_discrete, Bytes, is_empty, Bool-cases,
}
use openuu_server.Prelude.Map.{get-insert}
use openuu_server.Net.{SocketAddr}
use openuu_server.Rendezvous.Peers.{
  Peer, PeerRow, PeerMap, InfoCodec, RegisterResult, Database, set_peer, get_in_memory, get_peer,
  get_or, get_or_load, update_pk, insert_peer, db_update_pk, default_peer, in_memory_or, or_default,
  from_row, written, inserted, updated, load,
}

pub get-set_peer :
    (id j : String) (p : Peer) (pm : PeerMap)
    → get_in_memory j (set_peer id p pm)
      ≡ (if eqb String_discrete id j then some p else get_in_memory j pm)
get-set_peer id j p pm = get-insert String_discrete id j p pm.map

module _ (j : String) (p : Peer) where
  load_keeps :
      (codec : InfoCodec) (now : ℕ) (id : String) (o : Option PeerRow) (pm : PeerMap)
      → get_in_memory id pm ≡ none
      → get_in_memory j pm ≡ some p
      → get_in_memory j (load codec now id o pm).1 ≡ some p
  load_keeps codec now id none pm free h = h
  load_keeps codec now id (some v) pm free h =
      let other : id ≢ j = λ is. absurd (cc (free, h, ap (λ x. get_in_memory x pm) is)) in
      ground (arith, get-set_peer id j (from_row codec now v) pm, h, other)

  -- Looking a peer up leaves a peer in memory as it is.
  pub get_or_load_keeps :
      (codec : InfoCodec) (now : ℕ) (id : String) (pm : PeerMap)
      → get_in_memory j pm ≡ some p
      → get_in_memory j (get_or_load codec now id pm).1 ≡ some p
  unfolding get_or_load
  get_or_load_keeps codec now id pm h = elim (Option-cases (get_in_memory id pm)) [
    | inl free ↦ rw free (load_keeps codec now id (get_peer id pm.db) pm free h)
    | inr (q, e) ↦ rw e h
  ]

module _ (codec : InfoCodec) (now : ℕ) (id : String) where
  or_default_row :
      (o : Option PeerRow) (pm : PeerMap) (j : String)
      → let r = or_default codec now id (load codec now id o pm) in
        (get_in_memory id r.1 ≡ some r.0) × ((j ≢ id) → get_in_memory j r.1 ≡ get_in_memory j pm)
  or_default_row none pm j = (
    ground (arith, get-set_peer id id (default_peer now) pm),
    λ other. ground (arith, get-set_peer id j (default_peer now) pm),
  )
  or_default_row (some v) pm j = (
    ground (arith, get-set_peer id id (from_row codec now v) pm),
    λ other. ground (arith, get-set_peer id j (from_row codec now v) pm),
  )

  or_default_found :
      (o : Option Peer) (pm : PeerMap) (j : String)
      → get_in_memory id pm ≡ o
      → let r = or_default codec now id (in_memory_or codec now id o pm) in
        (get_in_memory id r.1 ≡ some r.0)
        × ((j ≢ id) → get_in_memory j r.1 ≡ get_in_memory j pm)
        × ((p : Peer) → o ≡ some p → (r.0 ≡ p) × (r.1 ≡ pm))
  or_default_found none pm j e =
      let q = or_default_row (get_peer id pm.db) pm j in (q.0, q.1, λ p h. absurd (cc))
  or_default_found (some x) pm j e = (e, (λ other. refl), λ p h. (ground arith, refl))

  -- `get_or` gives the entry of the map, which it creates at need; no other entry changes, and an
  -- entry that is there is given as it is.
  pub get_or_lem :
      (pm : PeerMap) (j : String)
      → (get_in_memory id (get_or codec now id pm).1 ≡ some (get_or codec now id pm).0)
        × ((j ≢ id) → get_in_memory j (get_or codec now id pm).1 ≡ get_in_memory j pm)
        × ((p : Peer)
            → get_in_memory id pm ≡ some p
            → ((get_or codec now id pm).0 ≡ p) × ((get_or codec now id pm).1 ≡ pm))
  unfolding get_or
  get_or_lem pm j = or_default_found (get_in_memory id pm) pm j refl

module _ (codec : InfoCodec) (now : ℕ) (new_guid : Bytes) (id : String) (p : Peer)
    (addr : SocketAddr) (uuid pk : Bytes) (ip : String) where
  -- The peer that `update_pk` writes, apart from its guid, which only the database decides.
  abbrev pub Writes : Peer → Type 0
  Writes q =
      (q.uuid ≡ uuid)
      × (q.pk ≡ pk)
      × (q.info_ip ≡ ip)
      × (q.socket_addr ≡ addr)
      × (q.last_reg_time ≡ now)
      × (q.reg_pk ≡ p.reg_pk)

  abbrev Stores : RegisterResult × PeerMap → PeerMap → String → Type 0
  Stores r pm j =
      (q : Peer) × Writes q
      × (get_in_memory id r.1 ≡ some q)
      × ((j ≢ id) → get_in_memory j r.1 ≡ get_in_memory j pm)

  inserted-Stores :
      (o : Option Bytes × Database) (pm : PeerMap) (j : String)
      → Stores (inserted codec id (written codec now addr uuid pk ip p) o pm) pm j
  inserted-Stores (none, db) pm j =
      let w = written codec now addr uuid pk ip p in
      (
        w,
        (refl, refl, refl, refl, refl, refl),
        ground (arith, get-set_peer id id w pm),
        λ other. ground (arith, get-set_peer id j w pm),
      )
  inserted-Stores (some guid, db) pm j =
      let w = record (written codec now addr uuid pk ip p) { guid = guid } in
      (
        w,
        (refl, refl, refl, refl, refl, refl),
        ground (arith, get-set_peer id id w pm),
        λ other. ground (arith, get-set_peer id j w pm),
      )

  updated-Stores :
      (o : Bool × Database) (pm : PeerMap) (j : String)
      → Stores (updated codec id (written codec now addr uuid pk ip p) o pm) pm j
  updated-Stores (false, db) pm j =
      let w = written codec now addr uuid pk ip p in
      (
        w,
        (refl, refl, refl, refl, refl, refl),
        ground (arith, get-set_peer id id w pm),
        λ other. ground (arith, get-set_peer id j w pm),
      )
  updated-Stores (true, db) pm j =
      let w = written codec now addr uuid pk ip p in
      (
        w,
        (refl, refl, refl, refl, refl, refl),
        ground (arith, get-set_peer id id w pm),
        λ other. ground (arith, get-set_peer id j w pm),
      )

  pub update_pk-Stores :
      (pm : PeerMap) (j : String)
      → Stores (update_pk codec now new_guid id p addr uuid pk ip pm) pm j
  unfolding update_pk
  update_pk-Stores pm j = elim (Bool-cases (is_empty p.guid)) [
    | inl e ↦ rw e (inserted-Stores (insert_peer new_guid id uuid pk (codec.to_text ip) pm.db) pm j)
    | inr e ↦ rw e (updated-Stores (db_update_pk p.guid id pk (codec.to_text ip) pm.db) pm j)
  ]
