-- ===== src/System/Console.antt =====
-- What the console leaves alone (`check_cmd` of src/rendezvous_server/console.rs and `handle_listener2`
-- of io.rs).
use openuu_server.Prelude.{
  ℕ, String, Bool, Option, none, some, List, [], ◌∷◌, ◌≡◌, refl, Bool-cases, arith, inl, inr,
}
use openuu_server.Prelude.Text.{split, trim}
use openuu_server.Net.{SocketAddr, AddrTools, is_loopback}
use openuu_server.Rendezvous.Console.{
  Data, relay_servers0, relay_servers, run, check_cmd, handle_data, test_geo_cmd, relay_servers_cmd,
  always_use_relay_cmd, next,
}
use openuu_server.Rendezvous.SecondListener.{Arrival, console, handle_listener2}
use openuu_server.Rendezvous.Tcp.Wire.{TcpServer, pm_of}

-- The same peers in memory and in the database, and the same accounts.
abbrev pub Same : TcpServer → TcpServer → Type 0
Same s s' = (pm_of s' ≡ pm_of s) × (s'.accounts ≡ s.accounts)

pub handle_data-Same :
    (valid : String → Bool) (d : Data) (s : TcpServer) → Same s (handle_data valid d s)
unfolding handle_data
handle_data-Same valid (relay_servers0 rs) s = (refl, refl)
handle_data-Same valid (relay_servers rs) s = (refl, refl)

relay_servers_cmd-Same : (o : Option String) (s : TcpServer) → Same s (relay_servers_cmd o s).2
relay_servers_cmd-Same none s = (refl, refl)
relay_servers_cmd-Same (some rs) s = (refl, refl)

always_use_relay_cmd-Same :
    (o : Option String) (s : TcpServer) → Same s (always_use_relay_cmd o s).2
always_use_relay_cmd-Same none s = (refl, refl)
always_use_relay_cmd-Same (some rs) s = (refl, refl)

module _ (is_ip : String → Bool) (now : ℕ) where
  test_geo_cmd-Same : (ws : List String) (s : TcpServer) → Same s (test_geo_cmd is_ip ws s).2
  test_geo_cmd-Same [] s = (refl, refl)
  test_geo_cmd-Same (a ∷ []) s = (ground arith, ground arith)
  test_geo_cmd-Same (a ∷ b ∷ ws) s = (ground arith, ground arith)

  run-Same : (ws : List String) (s : TcpServer) → Same s (run is_ip now ws s).2
  run-Same [] s = (refl, refl)
  run-Same (w ∷ ws) s = (
    ground (
      arith,
      (relay_servers_cmd-Same (next ws) s).0,
      (always_use_relay_cmd-Same (next ws) s).0,
      (test_geo_cmd-Same ws s).0,
    ),
    ground (
      arith,
      (relay_servers_cmd-Same (next ws) s).1,
      (always_use_relay_cmd-Same (next ws) s).1,
      (test_geo_cmd-Same ws s).1,
    ),
  )

  check_cmd-Same : (cmd : String) (s : TcpServer) → Same s (check_cmd is_ip now cmd s).2
  unfolding check_cmd
  check_cmd-Same cmd s = run-Same (split 32 (trim cmd)) s

  module _ (net : AddrTools) where
    console-Same : (o : Option String) (s : TcpServer) → Same s (console net is_ip now o s).2
    console-Same none s = (refl, refl)
    console-Same (some cmd) s = check_cmd-Same cmd s

    pub handle_listener2-Same :
        (addr : SocketAddr) (a : Arrival) (s : TcpServer)
        → Same s (handle_listener2 net is_ip now addr a s).2
    unfolding handle_listener2
    handle_listener2-Same addr a s = elim (Bool-cases (is_loopback (net.try_into_v4 addr).ip)) [
      | inl local ↦ rw local (console-Same a.text s)
      | inr remote ↦ rw remote (refl, refl)
    ]
