-- ===== src/System/Handing/Console.antt =====
-- What the console does to the relay servers (`check_cmd` of src/rendezvous_server/console.rs).
use openuu_server.Prelude.{
  ℕ, String, Bool, true, false, Option, none, some, List, [], ◌∷◌, ◌≡◌, inl, inr, refl, arith,
  Bool-cases,
}
use openuu_server.Prelude.Table.{All, All-append}
use openuu_server.Prelude.Text.{split, trim}
use openuu_server.Net.{SocketAddr, AddrTools, is_loopback}
use openuu_server.Rendezvous.Console.{
  Data, relay_servers0, relay_servers, run, check_cmd, test_geo_cmd, relay_servers_cmd,
  always_use_relay_cmd, next,
}
use openuu_server.Rendezvous.SecondListener.{Arrival, console, handle_listener2}
use openuu_server.Rendezvous.Tcp.Wire.{TcpServer}
use openuu_server.System.{sent}
use openuu_server.System.Handing.{DataValid, rotation_kept}

-- what the console sends, if anything, is a text that is yet to be parsed
abbrev pub is_text : Option Data → Bool
is_text none = true
is_text (some (relay_servers0 rs)) = true
is_text (some (relay_servers rs)) = false

module _ (valid : String → Bool) where
  pub text_valid :
      (o : Option Data) (rx : List Data)
      → is_text o ≡ true
      → All (DataValid valid) rx
      → All (DataValid valid) (sent o rx)
  text_valid none rx h k = k
  text_valid (some (relay_servers0 rs)) rx h k = All-append (DataValid valid) rx _ k tt
  text_valid (some (relay_servers rs)) rx h k = absurd (cc)

  -- The console leaves the servers alone, and sends texts.
  abbrev pub Unmoved : TcpServer → Option Data → TcpServer → Type 0
  Unmoved s o s' =
      (is_text o ≡ true)
      × (s'.relays.relay_servers0 ≡ s.relays.relay_servers0)
      × (s'.relays.relay_servers ≡ s.relays.relay_servers)

  relay_servers_cmd-Unmoved :
      (o : Option String) (s : TcpServer)
      → Unmoved s (relay_servers_cmd o s).1 (relay_servers_cmd o s).2
  relay_servers_cmd-Unmoved none s = (refl, refl, refl)
  relay_servers_cmd-Unmoved (some rs) s = (refl, refl, refl)

  always_use_relay_cmd-Unmoved :
      (o : Option String) (s : TcpServer)
      → Unmoved s (always_use_relay_cmd o s).1 (always_use_relay_cmd o s).2
  always_use_relay_cmd-Unmoved none s = (refl, refl, refl)
  always_use_relay_cmd-Unmoved (some rs) s = (refl, refl, refl)

  module _ (is_ip : String → Bool) (now : ℕ) where
    test_geo_cmd-Unmoved :
        (ws : List String) (s : TcpServer)
        → Unmoved s (test_geo_cmd is_ip ws s).1 (test_geo_cmd is_ip ws s).2
    test_geo_cmd-Unmoved [] s = (refl, refl, refl)
    test_geo_cmd-Unmoved (a ∷ []) s =
        let (r₀, r₁) = rotation_kept valid s.relays in
        (ground arith, ground (arith, r₀), ground (arith, r₁))
    test_geo_cmd-Unmoved (a ∷ b ∷ ws) s =
        let (r₀, r₁) = rotation_kept valid s.relays in
        (ground arith, ground (arith, r₀), ground (arith, r₁))

    run-Unmoved :
        (ws : List String) (s : TcpServer) → Unmoved s (run is_ip now ws s).1 (run is_ip now ws s).2
    run-Unmoved [] s = (refl, refl, refl)
    run-Unmoved (w ∷ ws) s =
        let (a₀, a₁, a₂) = relay_servers_cmd-Unmoved (next ws) s in
        let (b₀, b₁, b₂) = always_use_relay_cmd-Unmoved (next ws) s in
        let (c₀, c₁, c₂) = test_geo_cmd-Unmoved ws s in
        (ground (arith, a₀, b₀, c₀), ground (arith, a₁, b₁, c₁), ground (arith, a₂, b₂, c₂))

    console-Unmoved :
        (net : AddrTools) (o : Option String) (s : TcpServer)
        → Unmoved s (console net is_ip now o s).1 (console net is_ip now o s).2
    unfolding check_cmd
    console-Unmoved net none s = (refl, refl, refl)
    console-Unmoved net (some cmd) s = run-Unmoved (split 32 (trim cmd)) s

    pub listener2-Unmoved :
        (net : AddrTools) (addr : SocketAddr) (a : Arrival) (s : TcpServer)
        → Unmoved s
            (handle_listener2 net is_ip now addr a s).1
            (handle_listener2 net is_ip now addr a s).2
    unfolding handle_listener2
    listener2-Unmoved net addr a s = elim (Bool-cases (is_loopback (net.try_into_v4 addr).ip)) [
      | inl local ↦ rw local (console-Unmoved net a.text s)
      | inr remote ↦ rw remote (refl, refl, refl)
    ]
