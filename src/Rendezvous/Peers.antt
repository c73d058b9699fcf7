-- ===== src/Rendezvous/Peers.antt =====
-- The peer map of src/peer.rs over the database of src/database.rs. Instants are milliseconds of
-- the monotonic clock. `Arc<RwLock<Peer>>` is the entry of the map: no operation ever takes one
-- out.
pub mod Lookup
use openuu_server.Prelude.{
  ℕ, ◌+◌, ◌-◌, ◌/◌, String, Bool, true, false, not, ◌&&◌, ◌||◌, Option, none, some, List, [], ◌∷◌,
  ltb, leb, ◌==◌, if◌then◌else◌, eqb, String_discrete, Bytes, Bytes-discrete, is_empty, any, find?,
  map,
}
use openuu_server.Prelude.Map.{get, contains_key, insert}
use openuu_server.Net.{IpAddr, v4, SocketAddr}

pub record Peer : Type 0 where
  pub socket_addr : SocketAddr
  pub last_reg_time : ℕ
  pub guid : Bytes
  pub uuid : Bytes
  pub pk : Bytes
  -- `info.ip`
  pub info_ip : String
  -- how often register_pk, and when last
  pub reg_pk : ℕ × ℕ

-- a row of the table `peer`, less the columns that the program never sets
pub record PeerRow : Type 0 where
  pub guid : Bytes
  pub id : String
  pub uuid : Bytes
  pub pk : Bytes
  pub info : String

-- `available` is false while the database file cannot be used.
pub record Database : Type 0 where
  pub rows : List PeerRow
  pub available : Bool

pub record PeerMap : Type 0 where
  pub map : List (String × Peer)
  pub db : Database

-- serde_json on PeerInfo
pub record InfoCodec : Type 0 where
  pub to_text : String → String
  pub from_text : String → Option String

-- register_pk_response::Result, as far as hbbs answers it
pub data RegisterResult : Type 0 where
  ok uuid_mismatch too_frequent server_error : RegisterResult

abbrev pub string_eq : String → String → Bool
string_eq = eqb String_discrete

-- common::get_expired_time
unfoldable pub get_expired_time : ℕ → ℕ
get_expired_time now = if leb 3600000 now then now - 3600000 else now

-- Peer::default, at a time
unfoldable pub default_peer : ℕ → Peer
unfolding get_expired_time
default_peer now = record {
  socket_addr = record { ip = v4 0; port = 0 };
  last_reg_time = get_expired_time now;
  guid = [];
  uuid = [];
  pk = [];
  info_ip = "";
  reg_pk = (0, get_expired_time now);
}

-- Database::get_peer; `none` also for an error, which its only caller treats alike
unfoldable pub get_peer : String → Database → Option PeerRow
get_peer id db = if db.available then find? (λ r. string_eq r.id id) db.rows else none

-- Database::insert_peer: the new guid, unless the statement fails. `guid` is the random uuid.
unfoldable pub insert_peer :
    Bytes → String → Bytes → Bytes → String → Database → Option Bytes × Database
insert_peer guid id uuid pk info db =
    if not db.available || any (λ r. eqb Bytes-discrete r.guid guid || string_eq r.id id) db.rows
    then (none, db)
    else (
      some guid,
      record db {
        rows = record { guid = guid; id = id; uuid = uuid; pk = pk; info = info } ∷ db.rows;
      },
    )

-- Database::update_pk; false for an error. The index on `id` is unique; without a row of this guid the
-- statement changes nothing, and is no error.
unfoldable pub db_update_pk : Bytes → String → Bytes → String → Database → Bool × Database
db_update_pk guid id pk info db =
    if not db.available
      || any (λ r. eqb Bytes-discrete r.guid guid) db.rows
        && any (λ r. not (eqb Bytes-discrete r.guid guid) && string_eq r.id id) db.rows
    then (false, db)
    else (
      true,
      record db {
        rows =
            map
              (λ r.
                if eqb Bytes-discrete r.guid guid
                then record r { id = id; pk = pk; info = info }
                else r)
              db.rows;
      },
    )

abbrev pub set_peer : String → Peer → PeerMap → PeerMap
set_peer id p pm = record pm { map = insert String_discrete id p pm.map }

abbrev pub get_in_memory : String → PeerMap → Option Peer
get_in_memory id pm = get String_discrete id pm.map

unfoldable pub is_in_memory : String → PeerMap → Bool
unfolding contains_key
is_in_memory id pm = contains_key String_discrete id pm.map

module _ (codec : InfoCodec) where
  abbrev decoded_ip : Option String → String
  decoded_ip none = ""
  decoded_ip (some ip) = ip

  abbrev from_row : ℕ → PeerRow → Peer
  from_row now v = record (default_peer now) {
    guid = v.guid;
    uuid = v.uuid;
    pk = v.pk;
    info_ip = decoded_ip (codec.from_text v.info);
  }

  abbrev load : ℕ → String → Option PeerRow → PeerMap → Option Peer × PeerMap
  load now id none pm = (none, pm)
  load now id (some v) pm = (some (from_row now v), set_peer id (from_row now v) pm)

  abbrev in_memory_or : ℕ → String → Option Peer → PeerMap → Option Peer × PeerMap
  in_memory_or now id (some p) pm = (some p, pm)
  in_memory_or now id none pm = load now id (get_peer id pm.db) pm

  -- PeerMap::get
  unfoldable pub get_or_load : ℕ → String → PeerMap → Option Peer × PeerMap
  unfolding get_peer default_peer
  get_or_load now id pm = in_memory_or now id (get_in_memory id pm) pm

  abbrev or_default : ℕ → String → Option Peer × PeerMap → Peer × PeerMap
  or_default now id (some p, pm) = (p, pm)
  or_default now id (none, pm) = (default_peer now, set_peer id (default_peer now) pm)

  -- PeerMap::get_or
  unfoldable pub get_or : ℕ → String → PeerMap → Peer × PeerMap
  unfolding get_or_load
  get_or now id pm = or_default now id (get_or_load now id pm)

  abbrev pub written : ℕ → SocketAddr → Bytes → Bytes → String → Peer → Peer
  written now addr uuid pk ip p = record p {
    socket_addr = addr;
    uuid = uuid;
    pk = pk;
    last_reg_time = now;
    info_ip = ip;
  }

  abbrev pub inserted : String → Peer → Option Bytes × Database → PeerMap → RegisterResult × PeerMap
  inserted id p (none, db) pm = (server_error, record (set_peer id p pm) { db = db })
  inserted id p (some guid, db) pm =
      (ok, record (set_peer id (record p { guid = guid }) pm) { db = db })

  abbrev pub updated : String → Peer → Bool × Database → PeerMap → RegisterResult × PeerMap
  updated id p (false, db) pm = (server_error, record (set_peer id p pm) { db = db })
  updated id p (true, db) pm = (ok, record (set_peer id p pm) { db = db })

  -- PeerMap::update_pk, on the peer `p` that the map holds under `id`
  unfoldable pub update_pk :
      ℕ
      → Bytes
      → String
      → Peer
      → SocketAddr
      → Bytes
      → Bytes
      → String
      → PeerMap
      → RegisterResult × PeerMap
  unfolding insert_peer db_update_pk
  update_pk now new_guid id p addr uuid pk ip pm =
      let w = written now addr uuid pk ip p in
      if is_empty w.guid
      then inserted id w (insert_peer new_guid id uuid pk (codec.to_text ip) pm.db) pm
      else updated id w (db_update_pk w.guid id pk (codec.to_text ip) pm.db) pm

-- PeerMap::online_count, `timeout` in milliseconds
unfoldable pub online_count : ℕ → ℕ → List (String × Peer) → ℕ
online_count now timeout [] = 0
online_count now timeout ((id, p) ∷ m) =
    let rest = online_count now timeout m in
    if ltb (now - p.last_reg_time) timeout then rest + 1 else rest
