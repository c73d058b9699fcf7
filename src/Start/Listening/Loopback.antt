-- ===== src/Start/Listening/Loopback.antt =====
-- What the sockets of hbbs stand for while it runs (src/common/mod.rs and `start_with_bind` of
-- src/rendezvous_server/mod.rs).
use openuu_server.Prelude.{
  ℕ, ◌+◌, ◌^◌, ◌≤◌, String, Bool, true, false, ◌&&◌, ◌||◌, Option, none, some, List, [], ◌∷◌, ◌≡◌,
  ◌≢◌, ◌⊎◌, inl, inr, refl, arith, ◌==◌, eqb, Bool-cases, Option-cases,
}
use openuu_server.Prelude.Text.{parse_natural_i32}
use openuu_server.Net.{IpAddr, IpAddr-discrete}
use openuu_server.Start.Listening.{
  parse_port, at_least_three, as_u16, is_unspecified, localhost, console_addr, Bound, bound_to,
  any_address, bind, Sockets, LoopFailure, udp_socket, main_listener, nat_listener, ws_listener,
  console_listener, nat_port, ws_port, listen, replace_failed, main_task,
}

-- It takes connections to 127.0.0.1 at this port: all addresses do, and an unspecified one.
abbrev pub takes_local : ℕ → Bound → Bool
takes_local port (any_address p) = p == port
takes_local port (bound_to a) =
    (is_unspecified a.ip || eqb IpAddr-discrete a.ip localhost) && a.port == port

module _ (bind_addr : Option IpAddr) (port : ℕ) where
  replace_failed-listen :
      (failure : LoopFailure) (succeeds : Bool) (s : Sockets)
      → replace_failed bind_addr port failure succeeds (listen bind_addr port) ≡ some s
      → s ≡ listen bind_addr port
  unfolding replace_failed listen
  replace_failed-listen failure false s h = cc
  replace_failed-listen udp_socket true s h = cc
  replace_failed-listen main_listener true s h = cc
  replace_failed-listen nat_listener true s h = cc
  replace_failed-listen ws_listener true s h = cc
  replace_failed-listen console_listener true s h = cc

  main_task-listen :
      (failures : List (LoopFailure × Bool)) (s : Sockets)
      → main_task bind_addr port failures (listen bind_addr port) ≡ some s
      → s ≡ listen bind_addr port
  unfolding main_task
  main_task-listen [] s h = cc
  main_task-listen ((failure, succeeds) ∷ failures) s h =
      elim (Option-cases (replace_failed bind_addr port failure succeeds (listen bind_addr port))) [
        | inl ended ↦ absurd (cc)
        | inr (s', replaced) ↦
            let same = replace_failed-listen failure succeeds s' replaced in
            main_task-listen failures s (cc)
      ]

  listen_local :
      ((takes_local (nat_port bind_addr port) (listen bind_addr port).listener2 ≡ true)
        × ((listen bind_addr port).listener_console ≡ none))
      ⊎ ((takes_local (nat_port bind_addr port) (listen bind_addr port).listener2 ≡ false)
          × ((listen bind_addr port).listener_console
              ≡ some (record { ip = localhost; port = nat_port bind_addr port })))
  unfolding listen console_addr
  listen_local = by_bind bind_addr
    where
      n : ℕ
      n = nat_port bind_addr port

      by_bind :
          (o : Option IpAddr)
          → ((takes_local n (bind o n) ≡ true) × (console_addr o n ≡ none))
            ⊎ ((takes_local n (bind o n) ≡ false)
                × (console_addr o n ≡ some (record { ip = localhost; port = n })))
      by_bind none = inl (ground arith, refl)
      by_bind (some ip) =
          elim (Bool-cases (is_unspecified ip || eqb IpAddr-discrete ip localhost)) [
            | inl local ↦ inl (rw local (ground arith), rw local refl)
            | inr remote ↦ inr (rw remote refl, rw remote refl)
          ]

  -- Whatever address hbbs is bound to, and whatever sockets failed and were replaced since, as long as
  -- it runs its console is reached at 127.0.0.1 and the NAT port by exactly one of two listeners: the
  -- one of the NAT port, if it takes such connections, and else the one of the console, which is bound
  -- to nothing else.
  pub main_task_local :
      (failures : List (LoopFailure × Bool)) (s : Sockets)
      → main_task bind_addr port failures (listen bind_addr port) ≡ some s
      → ((takes_local (nat_port bind_addr port) s.listener2 ≡ true) × (s.listener_console ≡ none))
        ⊎ ((takes_local (nat_port bind_addr port) s.listener2 ≡ false)
            × (s.listener_console
                ≡ some (record { ip = localhost; port = nat_port bind_addr port })))
  main_task_local failures s h = rw (main_task-listen failures s h) listen_local

  at_least_three_lem : (o : Option ℕ) → at_least_three o ≡ some port → 3 ≤ port
  at_least_three_lem none h = cc
  at_least_three_lem (some n) h = ground arith

  -- A port that main accepts and that is at most 65533 gives three different ports: the one before, for
  -- the tests of the NAT, itself, and the second after, for WebSockets.
  pub parse_port_apart :
      (text : String)
      → parse_port text ≡ some port
      → port ≤ 65533
      → (nat_port bind_addr port + 1 ≡ port)
        × (as_u16 port ≡ port)
        × (ws_port bind_addr port ≡ port + 2)
        × (nat_port bind_addr port ≢ 0)
  unfolding parse_port
  parse_port_apart text h small =
      let three = at_least_three_lem (parse_natural_i32 text) h in
      (omega (arith), omega (arith), omega (arith), λ z. absurd (omega (arith)))

  -- A port that main accepts above that gives WebSockets another port than the second after.
  parse_port_wraps :
      (text : String)
      → parse_port text ≡ some port
      → 65534 ≤ port
      → ws_port bind_addr port + 2 ^ 16 ≤ port + 2
  parse_port_wraps text h large = omega arith
