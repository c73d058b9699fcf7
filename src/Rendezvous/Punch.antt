-- ===== src/Rendezvous/Punch.antt =====
-- Punch-hole requests: `handle_punch_hole_request` of src/rendezvous_server/punch.rs, with `is_lan`
-- of src/rendezvous_server/tcp.rs and the list PUNCH_REQS of src/rendezvous_server/mod.rs.
pub mod Routing
pub mod Dedupe
use openuu_server.Prelude.{
  ℕ, ◌-◌, ◌+◌, String, Bool, true, false, not, ◌&&◌, ◌||◌, xor, Option, none, some, List, [], ◌∷◌,
  ltb, leb, if◌then◌else◌, eqb, String_discrete, take, find?,
}
use openuu_server.Prelude.Text.{is_empty_text}
use openuu_server.Net.{IpAddr, IpAddr-discrete, v4, v6, SocketAddr, AddrTools, to_ipv4}
use openuu_server.Rendezvous.Blocker.{elapsed_secs}
use openuu_server.Rendezvous.Messages.{
  NatType, symmetric, Failure, license_mismatch, id_not_exist, offline, PunchHoleRequest, Message,
  punch_hole_failure, fetch_local_addr, punch_hole,
}
use openuu_server.Rendezvous.Peers.{Peer, PeerMap, InfoCodec, get_or_load, string_eq}
use openuu_server.Rendezvous.RelayServers.{RelayServers, get_relay_server}

-- in milliseconds
abbrev pub reg_timeout : ℕ
reg_timeout = 30000

abbrev pub punch_req_dedupe_sec : ℕ
punch_req_dedupe_sec = 60

pub record PunchReqEntry : Type 0 where
  pub tm : ℕ
  pub from_ip : String
  pub to_ip : String
  pub to_id : String

-- What the request reads and writes of the server and of its globals.
pub record PunchServer : Type 0 where
  pub pm : PeerMap
  -- PUNCH_REQS; the head is the back of the vector
  pub punch_reqs : List PunchReqEntry
  pub relays : RelayServers
  pub always_use_relay : Bool
  -- the network of `--mask`, by its `contains`
  pub mask : Option (ℕ → Bool)
  pub local_ip : String

abbrev contains_v4 : (ℕ → Bool) → Option ℕ → Bool
contains_v4 network none = false
contains_v4 network (some n) = network n

abbrev in_network : (ℕ → Bool) → IpAddr → Bool
in_network network (v4 n) = network n
in_network network (v6 n) = contains_v4 network (to_ipv4 n)

abbrev in_mask : Option (ℕ → Bool) → IpAddr → Bool
in_mask none ip = false
in_mask (some network) ip = in_network network ip

unfoldable pub is_lan : PunchServer → SocketAddr → Bool
is_lan s addr = in_mask s.mask addr.ip

abbrev pub same_route : String → String → PunchReqEntry → Bool
same_route from_ip to_id e = string_eq e.from_ip from_ip && string_eq e.to_id to_id

abbrev pub recent_dup : ℕ → Option PunchReqEntry → Bool
recent_dup now none = false
recent_dup now (some e) = ltb (elapsed_secs now e.tm) punch_req_dedupe_sec

-- the block that records the request, unless the last like it among the 30 newest is fresh
unfoldable pub record_punch_req :
    ℕ → String → String → String → List PunchReqEntry → List PunchReqEntry
record_punch_req now from_ip to_ip to_id reqs =
    if recent_dup now (find? (same_route from_ip to_id) (take 30 reqs))
    then reqs
    else record { tm = now; from_ip = from_ip; to_ip = to_ip; to_id = to_id } ∷ reqs

module _ (net : AddrTools) where
  -- the messages to a peer that is online
  abbrev pub route :
      SocketAddr
      → PunchHoleRequest
      → Bool
      → SocketAddr
      → PunchServer
      → (Message × Option SocketAddr) × PunchServer
  route addr ph ws peer_addr s =
      let peer_is_lan = is_lan s peer_addr in
      let lan = is_lan s addr in
      let (rotated, relays) = get_relay_server s.relays in
      let force = s.always_use_relay || xor peer_is_lan lan in
      let relay_server = if force && peer_is_lan then s.local_ip else rotated in
      let nat_type = if force then symmetric else ph.nat_type in
      let same_intranet =
        not ws && (peer_is_lan && lan || eqb IpAddr-discrete peer_addr.ip addr.ip) in
      (
        (
          if same_intranet
              then fetch_local_addr (net.encode addr) relay_server
              else punch_hole (net.encode addr) nat_type relay_server,
          some peer_addr,
        ),
        record s { relays = relays },
      )

  abbrev pub to_peer :
      ℕ
      → SocketAddr
      → PunchHoleRequest
      → Bool
      → Option Peer
      → PunchServer
      → (Message × Option SocketAddr) × PunchServer
  to_peer now addr ph ws none s = ((punch_hole_failure id_not_exist, none), s)
  to_peer now addr ph ws (some peer) s =
      if leb reg_timeout (now - peer.last_reg_time)
      then ((punch_hole_failure offline, none), s)
      else route addr ph ws peer.socket_addr (record s {
        punch_reqs =
            record_punch_req now (net.ip_text (net.try_into_v4 addr).ip)
              (net.ip_text (net.try_into_v4 peer.socket_addr).ip) ph.id s.punch_reqs;
      })

  -- The answer, with the peer to send it to, or none for the requester.
  unfoldable pub handle_punch_hole_request :
      InfoCodec
      → ℕ
      → SocketAddr
      → PunchHoleRequest
      → String
      → Bool
      → PunchServer
      → (Message × Option SocketAddr) × PunchServer
  handle_punch_hole_request codec now addr ph key ws s =
      if not (is_empty_text key) && not (string_eq ph.licence_key key)
      then ((punch_hole_failure license_mismatch, none), s)
      else (let (found, pm) = get_or_load codec now ph.id s.pm in
          to_peer now addr ph ws found (record s { pm = pm }))
