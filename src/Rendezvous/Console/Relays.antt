-- ===== src/Rendezvous/Console/Relays.antt =====
-- The relay servers after a console command (src/rendezvous_server/console.rs, io.rs and relay.rs).
use openuu_server.Prelude.{ℕ, String, Bool, ◌||◌, some, List, [], ◌∷◌, ◌≡◌, refl, String_discrete}
use openuu_server.Prelude.Text.{split, trim}
use openuu_server.Rendezvous.Peers.{string_eq}
use openuu_server.Rendezvous.RelayServers.{get_relay_server, parse_relay_servers, get_servers}
use openuu_server.Rendezvous.Tcp.Wire.{TcpServer}
use openuu_server.Rendezvous.Console.{
  relay_servers0, always_use_relay_cmd, run, check_cmd, handle_data,
}

module _ (is_ip valid : String → Bool) (now : ℕ) where
  run_always_use_relay :
      (w : String) (ws : List String) (s : TcpServer)
      → run is_ip now ("always-use-relay" ∷ w ∷ ws) s ≡ always_use_relay_cmd (some w) s
  unfolding String_discrete
  run_always_use_relay w ws s = refl

  no_relay :
      (w : String) (s : TcpServer)
      → get_servers valid w ≡ []
      → (get_relay_server (handle_data valid (relay_servers0 w) s).relays).0 ≡ ""
  unfolding handle_data parse_relay_servers get_relay_server
  no_relay w s none_valid = rw none_valid refl

  -- The command `always-use-relay` with a word sets the flag, to yes for Y or y, and sends the word as
  -- a list of relay servers, too: if it names no valid server, then right after the loop has handled
  -- what was sent, on the state that the command left, get_relay_server of the loop's server gives no
  -- relay.
  pub always_use_relay-get_relay_server :
      (cmd w : String) (ws : List String) (s : TcpServer)
      → split 32 (trim cmd) ≡ "always-use-relay" ∷ w ∷ ws
      → get_servers valid w ≡ []
      → let r = check_cmd is_ip now cmd s in
        (r.2.always_use_relay ≡ (string_eq w "Y" || string_eq w "y"))
        × (r.1 ≡ some (relay_servers0 w))
        × ((get_relay_server (handle_data valid (relay_servers0 w) r.2).relays).0 ≡ "")
  unfolding check_cmd
  always_use_relay-get_relay_server cmd w ws s words none_valid =
      rw (words, run_always_use_relay w ws s)
        (refl, refl, no_relay w (always_use_relay_cmd (some w) s).2 none_valid)
