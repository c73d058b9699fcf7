-- ===== src/Start/Listening.antt =====
-- The ports and sockets of hbbs, and how its main task replaces those that fail
-- (`start_with_bind` of src/rendezvous_server/mod.rs, the listeners of io.rs, src/common/mod.rs, and
-- the port of src/main.rs).
pub mod Loopback
use openuu_server.Prelude.{
  ℕ, ◌+◌, ◌-◌, ◌*◌, ◌^◌, ◌%◌, String, Bool, true, false, ◌||◌, Option, none, some, List, [], ◌∷◌,
  ◌==◌, ltb, eqb, if◌then◌else◌,
}
use openuu_server.Prelude.Text.{is_empty_text, trim, parse_natural_i32}
use openuu_server.Net.{IpAddr, v4, v6, IpAddr-discrete, SocketAddr}

-- parse_bind_address; `parse` reads an address. The outer `none` is the error.
unfoldable pub parse_bind_address : (String → Option IpAddr) → String → Option (Option IpAddr)
unfolding trim
parse_bind_address parse value =
    let text = trim value in if is_empty_text text then some none else parsed (parse text)
  where
    parsed : Option IpAddr → Option (Option IpAddr)
    parsed none = none
    parsed (some ip) = some (some ip)

-- the port that main accepts, from the text of the argument
abbrev at_least_three : Option ℕ → Option ℕ
at_least_three none = none
at_least_three (some port) = if ltb port 3 then none else some port

unfoldable pub parse_port : String → Option ℕ
unfolding parse_natural_i32
parse_port text = at_least_three (parse_natural_i32 text)

-- `as u16`
abbrev pub as_u16 : ℕ → ℕ
as_u16 n = n % 2 ^ 16

abbrev pub is_unspecified : IpAddr → Bool
is_unspecified (v4 n) = n == 0
is_unspecified (v6 n) = n == 0

abbrev pub localhost : IpAddr
localhost = v4 (127 * 2 ^ 24 + 1)

unfoldable pub console_addr : Option IpAddr → ℕ → Option SocketAddr
unfolding IpAddr-discrete
console_addr none port = none
console_addr (some ip) port =
    if is_unspecified ip || eqb IpAddr-discrete ip localhost
    then none
    else some (record { ip = localhost; port = port })

-- What a socket is bound to: one address, or a port of all.
pub data Bound : Type 0 where
  bound_to : SocketAddr → Bound
  any_address : ℕ → Bound

-- create_udp_listener, listen_tcp and with it create_tcp_listener, where they succeed
abbrev pub bind : Option IpAddr → ℕ → Bound
bind none port = any_address port
bind (some ip) port = bound_to (record { ip = ip; port = port })

pub record Sockets : Type 0 where
  pub socket : Bound
  pub listener : Bound
  pub listener2 : Bound
  pub listener3 : Bound
  pub listener_console : Option SocketAddr

-- what made the loop of hbbs return
pub data LoopFailure : Type 0 where
  udp_socket main_listener nat_listener ws_listener console_listener : LoopFailure

module _ (bind_addr : Option IpAddr) (port : ℕ) where
  abbrev pub nat_port : ℕ
  nat_port = as_u16 (port - 1)

  abbrev pub ws_port : ℕ
  ws_port = as_u16 (port + 2)

  unfoldable pub listen : Sockets
  unfolding console_addr
  listen = record {
    socket = bind bind_addr (as_u16 port);
    listener = bind bind_addr (as_u16 port);
    listener2 = bind bind_addr nat_port;
    listener3 = bind bind_addr ws_port;
    listener_console = console_addr bind_addr nat_port;
  }

  -- `match rs.io_loop(..)`: the socket that failed is dropped and bound anew; where that does not
  -- succeed, hbbs ends
  unfoldable pub replace_failed : LoopFailure → Bool → Sockets → Option Sockets
  unfolding console_addr
  replace_failed failure false s = none
  replace_failed udp_socket true s = some (record s { socket = bind bind_addr (as_u16 port) })
  replace_failed main_listener true s = some (record s { listener = bind bind_addr (as_u16 port) })
  replace_failed nat_listener true s = some (record s { listener2 = bind bind_addr nat_port })
  replace_failed ws_listener true s = some (record s { listener3 = bind bind_addr ws_port })
  replace_failed console_listener true s =
      some (record s { listener_console = console_addr bind_addr nat_port })

  abbrev continue_with : (Sockets → Option Sockets) → Option Sockets → Option Sockets
  continue_with f none = none
  continue_with f (some s) = f s

  -- the main task, over the failures it meets
  unfoldable pub main_task : List (LoopFailure × Bool) → Sockets → Option Sockets
  unfolding replace_failed
  main_task [] s = some s
  main_task ((failure, succeeds) ∷ failures) s =
      continue_with (λ s'. main_task failures s') (replace_failed failure succeeds s)
