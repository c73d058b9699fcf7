-- ===== src/Tests/RendezvousRuns.antt =====
-- Runs of the rendezvous server.

use openuu_server.Prelude.{
  ℕ, ◌≤◌, ◌<◌, ◌-◌, List, [], ◌∷◌, ◌≡◌, refl, arith, true, false, some, none, String_discrete,
  Bytes-discrete, length, ◌||◌,
}
use openuu_server.Prelude.Text.{is_empty_text}
use openuu_server.Prelude.Map.{get}
use openuu_server.Net.{IpAddr, v4, SocketAddr, AddrTools}
use openuu_server.Rendezvous.Blocker.{Blocker, check_ip_blocker, AllBounded}
use openuu_server.Rendezvous.Blocker.Burst.{Request, admitted, check_ip_blocker_burst}
use openuu_server.Rendezvous.Peers.{
  Peer, PeerMap, Database, InfoCodec, ok, get_in_memory, get_or_load, string_eq,
}
use openuu_server.Rendezvous.Register.{
  RegisterPk, Registry, register_pk_result, register_peer_response, ip_change,
}
use openuu_server.Rendezvous.Register.Ownership.{KeepsOwner, register_pk_result-KeepsOwner}
use openuu_server.Rendezvous.Register.Outcome.{register_pk_result_unsaved}
use openuu_server.Rendezvous.RelayServers.{RelayServers, get_relay_server}
use openuu_server.Rendezvous.RelayServers.Rotation.{after, get_relay_server_fair}
use openuu_server.Rendezvous.Messages.{
  PunchHoleRequest, other, punch_hole, punch_hole_failure, license_mismatch,
}
use openuu_server.Rendezvous.Punch.{PunchServer, PunchReqEntry, handle_punch_hole_request}
use openuu_server.Rendezvous.Punch.Routing.{Introduces, handle_punch_hole_request_pushes}
use openuu_server.Rendezvous.Punch.Dedupe.{IsSpaced, handle_punch_hole_request-IsSpaced}
use openuu_server.Rendezvous.Online.{handle_online_request}
use openuu_server.Rendezvous.Online.ByteBits.{bit_at}
use openuu_server.Rendezvous.Online.Bits.{handle_online_request_bits}
use openuu_server.Rendezvous.TcpPeers.{
  TcpPeers, stream, closed, entry, forget, begin_send, finish_send, begins, finishes,
}
use openuu_server.Rendezvous.Register.Halves.{passed, check_registration, finish_registration}
use openuu_server.Rendezvous.TcpPeers.Forgotten.{Without, at_once, further, entry-forget}
use openuu_server.Rendezvous.Register.Halves.Overtaken.{finish_registration_overtakes}
use openuu_server.Tests.Data.{plain_net, plain_codec, home, office, peer_id, peer, one_peer, down}

abbrev no_blocker : Blocker
no_blocker = []

no_blocker-AllBounded : AllBounded no_blocker
unfolding get
no_blocker-AllBounded ip e h = cc

abbrev requests : List Request
requests =
    record { ip = "1"; id = "peer-1"; now = 10 }
    ∷ record { ip = "1"; id = "peer-2"; now = 20 }
    ∷ record { ip = "2"; id = "peer-2"; now = 30 }
    ∷ []

check_ip_blocker_burst_example : admitted "1" requests no_blocker ≤ 32
unfolding get
check_ip_blocker_burst_example =
    check_ip_blocker_burst "1" 10 requests no_blocker refl (ground arith)

abbrev registry : Registry
registry = record { pm = one_peer; ip_blocker = []; ip_changes = [] }

-- somebody else's registration under the id of the peer
abbrev stranger : RegisterPk
stranger = record { id = peer_id; uuid = 9 ∷ []; pk = 8 ∷ [] }

-- its own, with a new key
abbrev renewal : RegisterPk
renewal = record { id = peer_id; uuid = 1 ∷ []; pk = 3 ∷ [] }

register_pk_result-KeepsOwner_example :
    (q : Peer) × (get_in_memory peer_id
        (register_pk_result plain_net plain_codec 5000 (7 ∷ []) stranger office registry).1.pm
      ≡ some q)
    × KeepsOwner plain_net stranger (plain_net.ip_text office.ip) peer_id peer q
unfolding get String_discrete
register_pk_result-KeepsOwner_example =
    register_pk_result-KeepsOwner plain_net plain_codec 5000 (7 ∷ []) stranger office peer_id peer
      refl registry refl

renewal_run : (register_pk_result plain_net plain_codec 5000 (7 ∷ []) renewal home registry).0 ≡ ok
unfolding register_pk_result check_ip_blocker get openuu_server.Rendezvous.Peers.get_or
    String_discrete Bytes-discrete openuu_server.Tests.Data.number_text
    openuu_server.Rendezvous.Register.count_reg_pk
renewal_run = refl

-- the peer before its first registration
abbrev unregistered : Peer
unregistered = record peer { uuid = []; pk = [] }

abbrev before_registry : Registry
before_registry = record registry { pm = record one_peer { map = (peer_id, unregistered) ∷ [] } }

stranger_passes :
    (check_registration plain_net plain_codec 5000 stranger office before_registry).0
    ≡ passed (true, false)
unfolding check_registration check_ip_blocker get openuu_server.Rendezvous.Peers.get_or
    String_discrete openuu_server.Tests.Data.number_text
stranger_passes = refl

finish_registration_overtakes_example :
    let s =
      (finish_registration plain_net plain_codec 6000
        (7 ∷ [])
        stranger
        office
        (true, false)
        registry).1 in
    (q : Peer) × (get_in_memory peer_id s.pm ≡ some q) × (q.uuid ≡ 9 ∷ []) × (q.pk ≡ 8 ∷ [])
unfolding get String_discrete finish_registration openuu_server.Rendezvous.Register.count_reg_pk
finish_registration_overtakes_example =
    finish_registration_overtakes plain_net plain_codec 5000 stranger office 6000 (7 ∷ [])
      before_registry registry
      (finish_registration plain_net plain_codec 6000 (7 ∷ []) stranger office (true, false)
        registry).1
      unregistered peer (true, false) refl refl stranger_passes refl refl

abbrev unsaved : Registry
unsaved = record { pm = down; ip_blocker = []; ip_changes = [] }

register_pk_result_unsaved_example :
    ((register_pk_result plain_net plain_codec 5000 (7 ∷ []) renewal home unsaved).0 ≡ ok)
    × ((register_pk_result plain_net plain_codec 5000 (7 ∷ []) renewal home unsaved).1.pm.db
        ≡ down.db)
unfolding get check_ip_blocker
register_pk_result_unsaved_example =
    register_pk_result_unsaved plain_net plain_codec 5000 (7 ∷ []) renewal home unsaved refl refl
      (omega arith) refl

abbrev relays : RelayServers
relays = record { relay_servers0 = "a" ∷ "b" ∷ []; relay_servers = "a" ∷ "b" ∷ []; rotation = 1 }

get_relay_server_fair_example : (i : ℕ) × (i < 2) × ((get_relay_server (after i relays)).0 ≡ "a")
get_relay_server_fair_example =
    get_relay_server_fair relays 0 (ground arith) (ground arith) (ground arith)

abbrev server : PunchServer
server = record {
  pm = one_peer;
  punch_reqs = [];
  relays = relays;
  always_use_relay = false;
  mask = none;
  local_ip = "";
}

abbrev request : PunchHoleRequest
request = record { id = peer_id; nat_type = other 0; licence_key = "key"; token = "" }

punched : PunchServer
punched = (handle_punch_hole_request plain_net plain_codec 5000 office request "key" false server).1

punch_run :
    handle_punch_hole_request plain_net plain_codec 5000 office request "key" false server
    ≡ ((punch_hole (plain_net.encode office) (other 0) "b", some home), punched)
unfolding handle_punch_hole_request String_discrete get_or_load get
    openuu_server.Rendezvous.Punch.is_lan punched openuu_server.Net.IpAddr-discrete
    mathlib.Core.Bool.xor get_relay_server
punch_run = refl

handle_punch_hole_request_pushes_example :
    (p : Peer) × ((get_or_load plain_codec 5000 peer_id one_peer).0 ≡ some p)
    × (home ≡ p.socket_addr)
    × (5000 - p.last_reg_time < 30000)
    × Introduces plain_net office (punch_hole (plain_net.encode office) (other 0) "b")
    × ((is_empty_text "key" || string_eq "key" "key") ≡ true)
handle_punch_hole_request_pushes_example =
    handle_punch_hole_request_pushes plain_net plain_codec 5000 office request "key" false server
      punch_run

refused_run :
    handle_punch_hole_request plain_net plain_codec 5000 office request "other" false server
    ≡ ((punch_hole_failure license_mismatch, none), server)
unfolding handle_punch_hole_request String_discrete
refused_run = refl

handle_punch_hole_request-IsSpaced_example :
    IsSpaced
      (handle_punch_hole_request plain_net plain_codec 5000 office request "key" false
        server).1.punch_reqs
handle_punch_hole_request-IsSpaced_example =
    handle_punch_hole_request-IsSpaced plain_net plain_codec 5000 office request "key" false server
      tt

handle_online_request_bits_example :
    (bit_at (handle_online_request 5000 one_peer ("peer-2" ∷ "peer-1" ∷ [])) 1 ≡ true)
    × (length (handle_online_request 5000 one_peer ("peer-2" ∷ "peer-1" ∷ [])) ≡ 1)
unfolding get String_discrete
handle_online_request_bits_example =
    handle_online_request_bits 5000 one_peer ("peer-2" ∷ "peer-1" ∷ []) 1

abbrev one_tcp : TcpPeers
one_tcp = record { peers = (home, stream 0) ∷ []; sending = []; next = 1 }

-- a send has taken the sink of the office when the connection closes
abbrev sending_office : TcpPeers
sending_office = record {
  peers = (home, stream 0) ∷ (office, closed) ∷ [];
  sending = (office, 1) ∷ [];
  next = 2;
}

-- the send ends after the connection was forgotten, and a send to the other peer begins
office_closed :
    Without office
      (forget office sending_office)
      (begin_send home (finish_send office 1 (forget office sending_office))).2
unfolding forget finish_send openuu_server.Prelude.any openuu_server.Net.SocketAddr-discrete
office_closed = further (further at_once (finishes office 1 refl) tt) (begins home) tt

entry-forget_example :
    entry office (begin_send home (finish_send office 1 (forget office sending_office))).2 ≡ none
entry-forget_example = entry-forget office sending_office office_closed
