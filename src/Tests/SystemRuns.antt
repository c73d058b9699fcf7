-- ===== src/Tests/SystemRuns.antt =====
-- Runs of hbbs as a whole.
use openuu_server.Prelude.{
  ℕ, String, List, [], ◌∷◌, ◌++◌, ◌≡◌, ◌≢◌, ◌⊎◌, refl, ap, eqb, String_discrete, true, false, some,
  none, Option, Bool, Bytes, keep, arith,
}
use openuu_server.Prelude.Table.{All}
use openuu_server.Account.Api.{redeem_ticket}
use openuu_server.Account.Invariant.{Call, deletes_user, redeems, run, WellFormed}
use openuu_server.Rendezvous.Peers.{Peer, get_in_memory}
use openuu_server.Rendezvous.RelayServers.{get_servers}
use openuu_server.Rendezvous.Console.{relay_servers0}
use openuu_server.Rendezvous.Udp as Udp
use openuu_server.Rendezvous.Tcp.Wire.{request_relay, register_pk, Moment}
use openuu_server.System.{
  System, Event, accepted, as_clone, tcp_message, tcp_closed, packet, registration_starts,
  registration_ends, data_received, timer_ticks, check_ends, account_call, World, perform,
  perform_all,
}
use openuu_server.System.Database.{accounts_of, Calls, perform_all-run}
use openuu_server.System.Peers.{peers_of, Registers, Occurs, perform_all_keeps}
use openuu_server.System.Tickets.{perform_all-redeem_ticket}
use openuu_server.System.Handing.Reached.{GivesValid, start_with_bind-get_relay_server}
use openuu_server.Start.Arguments.{Cases, Environment}
use openuu_server.Start.Server.{Machine, start_with_bind}
use openuu_server.System.Relays.{relays_of, stale_check}
use openuu_server.Tests.Data.{
  plain, plain_net, plain_codec, short_hash, one_ticket, second_token, third_token, home, office,
  peer_id, peer,
}
use openuu_server.Tests.TcpRuns.{outside, server, wanted, stranger, now, codec}

abbrev world : World
world = record {
  outside = outside;
  key = "";
  relay_port = "21117";
  valid = λ host. true;
  is_ip = λ text. true;
}

abbrev started : System
started = record {
  server = record server { accounts = one_ticket };
  version = "";
  software_url = "";
  rx = [];
  checks = [];
  clones =
      record { relay_servers0 = []; relay_servers = []; serial = 0; rendezvous_servers = [] } ∷ [];
  registrations = [];
}

abbrev later_moment : Moment
later_moment = record now { new_ticket = third_token }

-- a relay request, a stranger, a heartbeat, and the end of the account
abbrev events : List Event
events =
    tcp_message 0 later_moment (request_relay wanted) office false (some 1)
    ∷ tcp_message 0 later_moment (register_pk stranger) office true (some 2)
    ∷ tcp_closed office none
    ∷ packet later_moment (Udp.register_peer peer_id 0) home
    ∷ account_call (deletes_user "alice")
    ∷ registration_starts later_moment stranger office none
    ∷ packet later_moment (Udp.register_peer peer_id 0) home
    ∷ registration_ends later_moment 0
    ∷ []

perform_all-run_example :
    (calls : List Call) × Calls events calls
    × (accounts_of (perform_all codec world events started) ≡ run plain calls one_ticket)
perform_all-run_example = perform_all-run codec world events started

started-WellFormed : WellFormed one_ticket
unfolding openuu_server.Prelude.any
started-WellFormed = record { names = (refl, tt); sessions = (refl, tt); tickets = (refl, tt) }

abbrev first_byte : Bytes → ℕ
first_byte [] = 0
first_byte (b ∷ bytes) = b

hashes_differ : short_hash third_token ≢ short_hash second_token
unfolding short_hash
hashes_differ e = absurd (omega (arith, ap first_byte e))

perform_all-redeem_ticket_example :
    let s' =
      perform_all codec world events
        (perform codec world (account_call (redeems 110 second_token "relay-1")) started) in
    (redeem_ticket plain 120 second_token "relay-1" (accounts_of s')).0 ≡ false
unfolding redeem_ticket openuu_server.Account.Store.redeem openuu_server.Prelude.Bytes-discrete
    openuu_server.Prelude.String_discrete openuu_server.Prelude.any openuu_server.Prelude.count
    openuu_server.Tests.Data.short_hash
perform_all-redeem_ticket_example =
    perform_all-redeem_ticket codec world events started 110 120 second_token "relay-1" "relay-1"
      started-WellFormed refl
      (hashes_differ, (hashes_differ, (tt, (tt, (tt, (tt, (tt, (tt, tt))))))))

perform_all_keeps_example :
    (q : Peer) × (get_in_memory peer_id (peers_of (perform_all codec world events started))
      ≡ some q)
    × (q.uuid ≡ 1 ∷ [])
    × ((q.pk ≡ 2 ∷ []) ⊎ Occurs (Registers peer_id (1 ∷ [])) events)
unfolding openuu_server.Prelude.Map.get openuu_server.Prelude.String_discrete
perform_all_keeps_example = perform_all_keeps codec world peer_id events started peer refl tt refl

-- two relay servers, and a command that names another one
abbrev commanded : System
commanded = record started {
  server = record server {
    relays = record {
      relay_servers0 = "one" ∷ "two:21117" ∷ [];
      relay_servers = "one" ∷ [];
      rotation = 0;
    };
  };
  rx = relay_servers0 "three" ∷ [];
}

stale_check_example :
    let reached : List String = keep (λ x. true) ("one" ∷ "two:21117" ∷ []) in
    let check =
      timer_ticks ∷ data_received ∷ check_ends (λ x. true) (λ rs. rs) ∷ data_received ∷ [] in
    let s' = perform_all codec world check commanded in
    ((relays_of s').relay_servers0 ≡ get_servers (λ host. true) "three")
    × ((relays_of s').relay_servers ≡ reached)
    × (perform codec world timer_ticks s' ≡ s')
unfolding keep get_servers openuu_server.Prelude.Text.split
stale_check_example =
    stale_check codec world commanded "three" (λ x. true) (λ rs. rs) refl refl refl refl refl

abbrev caseless_start : Cases
caseless_start = record { to_uppercase = λ s. s; to_lowercase = λ s. s }

-- only one host can be resolved
abbrev picky : World
picky = record world { valid = λ host. eqb String_discrete host "one" }

abbrev host_machine : Machine
host_machine = record {
  valid = λ host. eqb String_discrete host "one";
  parse_mask = λ text. none;
  get_version_from_url = λ url. "";
  own_ip = "";
  parse_serial = λ text. none;
}

abbrev two_relays : Environment
two_relays = ("RELAY-SERVERS", "one,two") ∷ []

start_with_bind-get_relay_server_example :
    let s =
      perform_all codec picky
        (accepted ∷ timer_ticks ∷ check_ends (λ x. true) (λ rs. rs) ∷ data_received ∷ [])
        (start_with_bind caseless_start host_machine two_relays none
          (record { rows = []; available = true })
          one_ticket) in
    GivesValid codec picky s.server
    × All (λ c. GivesValid codec picky (as_clone c s.server)) s.clones
start_with_bind-get_relay_server_example =
    start_with_bind-get_relay_server codec picky caseless_start host_machine two_relays none
      (record { rows = []; available = true }) one_ticket
      (accepted ∷ timer_ticks ∷ check_ends (λ x. true) (λ rs. rs) ∷ data_received ∷ []) refl
      (tt, (tt, ((λ p rs h. h), (tt, tt))))
