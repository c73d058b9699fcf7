-- ===== src/System/Handing/Reached.antt =====
-- The relay servers in every state that hbbs reaches from its start (`io_loop` of
-- src/rendezvous_server/io.rs, `start_with_bind` of mod.rs).
use openuu_server.Prelude.{true, Option, List, [], ◌∷◌, ◌≡◌, ◌⊎◌, subst, sym, Bytes}
use openuu_server.Prelude.Table.{All}
use openuu_server.Account.Tables.{Accounts}
use openuu_server.Rendezvous.Peers.{Database}
use openuu_server.Rendezvous.RelayServers.{get_servers, get_relay_server, parse_relay_servers}
use openuu_server.Rendezvous.Tcp.Wire.{TcpServer}
use openuu_server.Rendezvous.Tcp.Connection.{Codec}
use openuu_server.Start.Arguments.{Cases, Environment, get_arg}
use openuu_server.Start.Server.{Machine, start_with_bind}
use openuu_server.System.{Clone, Event, World, as_clone, perform_all}
use openuu_server.System.Handing.{AllValid, get_servers-AllValid, handed-Valid}
use openuu_server.System.Handing.Kept.{Ordered, ClonesValid, perform_all-SystemValid}

module _ {ℓ} {Enc : Type ℓ} (k : Codec Enc) (w : World) where
  -- `get_relay_server` gives no server, or a valid one.
  abbrev pub GivesValid : TcpServer → Type 0
  GivesValid s =
      ((get_relay_server s.relays).0 ≡ "") ⊎ (w.valid (get_relay_server s.relays).0 ≡ true)

  CloneValid-GivesValid :
      (s : TcpServer) (cs : List Clone)
      → ClonesValid k w cs
      → All (λ c. GivesValid (as_clone c s)) cs
  CloneValid-GivesValid s [] h = tt
  CloneValid-GivesValid s (c ∷ cs) h =
      (handed-Valid w.valid (as_clone c s).relays h.0.1, CloneValid-GivesValid s cs h.1)

  -- From its start on, whatever messages, commands and checks hbbs goes through, the relay server that
  -- `get_relay_server` gives, in the loop and in the clone of every connection, is empty or one that
  -- test_if_valid_server accepts, as long as the tasks of a check that end are those of its servers.
  pub start_with_bind-get_relay_server :
      (t : Cases) (m : Machine) (env : Environment) (sk : Option Bytes) (peers : Database)
      (accounts : Accounts) (es : List Event)
      → m.valid ≡ w.valid
      → All Ordered es
      → let s = perform_all k w es (start_with_bind t m env sk peers accounts) in
        GivesValid s.server × All (λ c. GivesValid (as_clone c s.server)) s.clones
  unfolding start_with_bind parse_relay_servers
  start_with_bind-get_relay_server t m env sk peers accounts es same o =
      let s = start_with_bind t m env sk peers accounts in
      let first : AllValid w.valid s.server.relays.relay_servers0 =
        subst (λ v. AllValid w.valid (get_servers v (get_arg t "relay-servers" env))) (sym same)
          (get_servers-AllValid w.valid (get_arg t "relay-servers" env)) in
      let s' = perform_all k w es s in
      let (servers, _, _, clones) =
        perform_all-SystemValid k w es s o ((first, first), tt, tt, tt) in
      (
        handed-Valid w.valid s'.server.relays servers.1,
        CloneValid-GivesValid s'.server s'.clones clones,
      )
