-- ===== src/System/Relays.antt =====
-- The relay servers while the console and the checks change them (`io_loop` of
-- src/rendezvous_server/io.rs, `check_relay_servers` and `parse_relay_servers` of relay.rs).
use openuu_server.Prelude.{
  String, Bool, List, [], ◌∷◌, ◌≡◌, refl, true, false, is_empty, keep, ltb, length,
}
use openuu_server.Rendezvous.RelayServers.{
  RelayServers, get_servers, parse_relay_servers, use_relay_servers,
}
use openuu_server.Rendezvous.RelayServers.Check.{with_port, check_relay_servers}
use openuu_server.Rendezvous.Console.{relay_servers0, handle_data}
use openuu_server.Rendezvous.Tcp.Connection.{Codec}
use openuu_server.System.{
  System, data_received, timer_ticks, check_ends, World, perform, perform_all,
}

abbrev pub relays_of : System → RelayServers
relays_of s = s.server.relays

module _ {ℓ} {Enc : Type ℓ} (k : Codec Enc) (w : World) where
  -- A check that is under way when the relay servers are replaced undoes this: it started for the
  -- old ones, and when it ends, with nothing else waiting, hbbs hands out those of the old ones that
  -- it reached. If at most one server is valid among the new ones, no later tick of the timer starts
  -- another check, so nothing but the console corrects it.
  pub stale_check :
      (s : System) (rs : String) (connects : String → Bool) (order : List String → List String)
      → let old = (relays_of s).relay_servers0 in
        let found = keep (λ x. connects (with_port w.relay_port x)) (order old) in
        let events = timer_ticks ∷ data_received ∷ check_ends connects order ∷ data_received ∷ [] in
        s.rx ≡ relay_servers0 rs ∷ []
        → s.checks ≡ []
        → ltb 1 (length old) ≡ true
        → is_empty found ≡ false
        → ltb 1 (length (get_servers w.valid rs)) ≡ false
        → let s' = perform_all k w events s in
          ((relays_of s').relay_servers0 ≡ get_servers w.valid rs)
          × ((relays_of s').relay_servers ≡ found)
          × (perform k w timer_ticks s' ≡ s')
  unfolding perform_all perform handle_data parse_relay_servers check_relay_servers
      use_relay_servers
  stale_check s rs connects order waits no_check several some_found few =
      rw (several, waits, no_check, some_found, few) (refl, refl, refl)
