-- ===== src/Rendezvous/Register.antt =====
-- Registration of a peer: `register_peer_response` and `register_pk_result` of
-- src/rendezvous_server/udp.rs, which the UDP and the TCP path share.
pub mod Ownership
pub mod Outcome
pub mod Heartbeat
pub mod Halves
use Prim.Native.String.{len}
use openuu_server.Prelude.{
  ℕ, ◌+◌, ◌-◌, ◌/◌, ◌%◌, ◌^◌, String, Bool, true, false, not, ◌&&◌, ◌||◌, Option, none, some, List,
  [], ◌∷◌, ltb, leb, ◌==◌, if◌then◌else◌, eqb, String_discrete, Bytes, Bytes-discrete, is_empty,
}
use openuu_server.Prelude.Map.{get, insert}
use openuu_server.Net.{IpAddr, IpAddr-discrete, SocketAddr, AddrTools, is_loopback}
use openuu_server.Rendezvous.Blocker.{Blocker, elapsed_secs, check_ip_blocker}
use openuu_server.Rendezvous.Peers.{
  Peer, PeerMap, InfoCodec, RegisterResult, ok, uuid_mismatch, too_frequent, set_peer,
  get_in_memory, get_or, update_pk, string_eq,
}

-- what hbbs reads of the message RegisterPk
pub record RegisterPk : Type 0 where
  pub id : String
  pub uuid : Bytes
  pub pk : Bytes

-- IP_CHANGES of peer.rs: since when, and how often each address was seen (an i32, as its bit
-- pattern)
abbrev pub IpChanges : Type 0
IpChanges = List (String × (ℕ × List (String × ℕ)))

abbrev pub ip_change_dur : ℕ
ip_change_dur = 180

-- The peer map and the two tables beside it.
pub record Registry : Type 0 where
  pub pm : PeerMap
  pub ip_blocker : Blocker
  pub ip_changes : IpChanges

module _ (net : AddrTools) where
  -- `ip_change` of register_peer_response, before it is narrowed for the log
  abbrev pub ip_change : IpAddr → Peer → Bool
  ip_change ip old =
      (if not (old.socket_addr.port == 0)
        then not (eqb IpAddr-discrete ip old.socket_addr.ip)
        else not (string_eq (net.ip_text ip) old.info_ip))
      && not (is_loopback ip)

  abbrev pub refreshed : ℕ → SocketAddr → Peer → Peer
  refreshed now addr old = record old { socket_addr = addr; last_reg_time = now }

  abbrev pub respond : ℕ → String → SocketAddr → Option Peer → PeerMap → Bool × PeerMap
  respond now id addr none pm = (true, pm)
  respond now id addr (some old) pm =
      let request_pk = is_empty old.pk || ip_change addr.ip old in
      (request_pk, if request_pk then pm else set_peer id (refreshed now addr old) pm)

  -- register_peer_response: `request_pk` of the answer, and the peers
  unfoldable pub register_peer_response : ℕ → String → SocketAddr → PeerMap → Bool × PeerMap
  register_peer_response now id addr pm = respond now id addr (get_in_memory id pm) pm

  -- the read lock's block: none for UUID_MISMATCH, else (changed, ip_changed)
  unfoldable pub compare_peer : RegisterPk → String → Peer → Option (Bool × Bool)
  compare_peer rk ip peer =
      if is_empty peer.uuid
      then some (true, false)
      else if eqb Bytes-discrete peer.uuid rk.uuid
      then (if not (string_eq peer.info_ip ip) && not (eqb Bytes-discrete peer.pk rk.pk)
          then none
          else (let ip_changed = not (string_eq peer.info_ip ip) in
              some (
                not (eqb Bytes-discrete peer.uuid rk.uuid)
                    || not (eqb Bytes-discrete peer.pk rk.pk)
                    || ip_changed,
                ip_changed,
              )))
      else none

  abbrev first_ip : ℕ → String → ℕ × List (String × ℕ)
  first_ip now ip = (now, insert String_discrete ip 1 [])

  abbrev seen_again : String → Option ℕ → List (String × ℕ) → List (String × ℕ)
  seen_again ip (some v) ips = insert String_discrete ip ((v + 1) % 2 ^ 32) ips
  seen_again ip none ips = insert String_discrete ip 1 ips

  abbrev note_change : ℕ → String → Option (ℕ × List (String × ℕ)) → ℕ × List (String × ℕ)
  note_change now ip none = first_ip now ip
  note_change now ip (some (tm, ips)) =
      if ltb ip_change_dur (elapsed_secs now tm)
      then first_ip now ip
      else (tm, seen_again ip (get String_discrete ip ips) ips)

  unfoldable pub record_ip_change : ℕ → String → String → IpChanges → IpChanges
  record_ip_change now id ip m =
      insert String_discrete id (note_change now ip (get String_discrete id m)) m

  -- the counter `reg_pk` of a peer; none for TOO_FREQUENT
  unfoldable pub count_reg_pk : ℕ → ℕ × ℕ → Option (ℕ × ℕ)
  count_reg_pk now (n, at) =
      if ltb 6 (elapsed_secs now at)
      then some (1, now)
      else if ltb 2 n
      then none
      else some (n + 1, now)

  module _ (codec : InfoCodec) where
    -- the answer of update_pk is dropped, as in the source
    abbrev pub stored :
        ℕ → Bytes → RegisterPk → SocketAddr → String → Bool → Peer → PeerMap → PeerMap
    stored now new_guid rk addr ip true peer pm =
        (update_pk codec now new_guid rk.id peer addr rk.uuid rk.pk ip pm).1
    stored now new_guid rk addr ip false peer pm = pm

    abbrev pub counted :
        ℕ
        → Bytes
        → RegisterPk
        → SocketAddr
        → String
        → Bool × Bool
        → Option (ℕ × ℕ)
        → Peer
        → Registry
        → RegisterResult × Registry
    counted now new_guid rk addr ip change none peer s = (too_frequent, s)
    counted now new_guid rk addr ip (changed, ip_changed) (some reg_pk) peer s =
        let peer' = record peer { reg_pk = reg_pk } in
        let pm = set_peer rk.id peer' s.pm in
        (
          ok,
          record s {
            pm = stored now new_guid rk addr ip changed peer' pm;
            ip_changes =
                if ip_changed then record_ip_change now rk.id ip s.ip_changes else s.ip_changes;
          },
        )

    abbrev pub compared :
        ℕ
        → Bytes
        → RegisterPk
        → SocketAddr
        → String
        → Option (Bool × Bool)
        → Peer
        → Registry
        → RegisterResult × Registry
    compared now new_guid rk addr ip none peer s = (uuid_mismatch, s)
    compared now new_guid rk addr ip (some change) peer s =
        counted now new_guid rk addr ip change (count_reg_pk now peer.reg_pk) peer s

    -- `new_guid` is the random uuid that a row inserted for the peer gets
    unfoldable pub register_pk_result :
        ℕ → Bytes → RegisterPk → SocketAddr → Registry → RegisterResult × Registry
    unfolding compare_peer record_ip_change
    register_pk_result now new_guid rk addr s =
        let ip = net.ip_text addr.ip in
        if ltb (len rk.id) 6
        then (uuid_mismatch, s)
        else (let (blocker, admitted) = check_ip_blocker now ip rk.id s.ip_blocker in
            let s' = record s { ip_blocker = blocker } in
            if not admitted
            then (too_frequent, s')
            else (let (peer, pm) = get_or codec now rk.id s.pm in
                compared now new_guid rk addr ip (compare_peer rk ip peer) peer
                  (record s' { pm = pm })))
