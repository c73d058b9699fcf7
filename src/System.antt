-- ===== src/System.antt =====
-- hbbs as a whole: the tasks that `io_loop` of src/rendezvous_server/io.rs starts and the arms of its
-- `select!`, as events on one state, with the writes of the account service of src/account to the
-- database they share. What happens between two events of one connection is any list of others. An
-- event runs to its end; a registration may also be two events, with others in between. A connection
-- works on the clone of the server that `handle_listener` makes when it is accepted. One that
-- `handle_listener2` accepts is answered in the same event. `Data::Msg` of the channel only sends, and
-- is not an event.
pub mod Clones
pub mod Console
pub mod Database
pub mod Peers
pub mod Tickets
pub mod Relays
pub mod Handing
use openuu_server.Prelude.{
  ℕ, String, Bool, Option, none, some, List, [], ◌∷◌, ◌++◌, if◌then◌else◌, ltb, length, ◌||◌,
  is_empty, get_elem?, remove_at,
}
use openuu_server.Net.{SocketAddr}
use openuu_server.Account.Invariant.{Call, step}
use openuu_server.Rendezvous.RelayServers.Check.{check_relay_servers}
use openuu_server.Rendezvous.Udp.{UdpMessage, UdpServer, handle_udp}
use openuu_server.Rendezvous.Console.{Data, relay_servers, handle_data}
use openuu_server.Rendezvous.SecondListener.{Arrival, Reply, handle_listener2}
use openuu_server.Rendezvous.Tcp.Wire.{
  TcpMessage, TcpServer, Conn, Outside, Moment, at, move_to_peers,
}
use openuu_server.Rendezvous.Register.{RegisterPk, Registry}
use openuu_server.Rendezvous.Register.Halves.{
  Checked, refused, passed, check_registration, finish_registration,
}
use openuu_server.Rendezvous.Tcp.Handlers.{handle_tcp}
use openuu_server.Rendezvous.Tcp.Connection.{Codec, close}

-- What a clone of the server keeps for itself: the rest of the server is shared.
pub record Clone : Type 0 where
  pub relay_servers0 : List String
  pub relay_servers : List String
  pub serial : ℕ
  pub rendezvous_servers : List String

-- A registration that passed the comparison of the uuid, with what it found.
pub record Registration : Type 0 where
  pub rk : RegisterPk
  pub addr : SocketAddr
  pub change : Bool × Bool

-- `rx` is what waits in the channel of the loop, `checks` the servers of the checks under way, `clones`
-- the clones of the connections, open or closed, and `registrations` those under way.
pub record System : Type 0 where
  pub server : TcpServer
  pub version : String
  pub software_url : String
  pub rx : List Data
  pub checks : List (List String)
  pub clones : List Clone
  pub registrations : List Registration

pub data Event : Type 0 where
  -- handle_listener
  accepted : Event
  -- a message on a connection, by the number of its clone, from an address, a WebSocket or not, whose
  -- sink is still its own or not
  tcp_message : ℕ → Moment → TcpMessage → SocketAddr → Bool → Option ℕ → Event
  tcp_closed : SocketAddr → Option ℕ → Event
  packet : Moment → UdpMessage → SocketAddr → Event
  -- a registration, up to the comparison of the uuid; over TCP with the sink of the connection
  registration_starts : Moment → RegisterPk → SocketAddr → Option ℕ → Event
  -- the rest of one that is under way, whichever
  registration_ends : Moment → ℕ → Event
  second_port : ℕ → SocketAddr → Arrival → Event
  data_received timer_ticks : Event
  -- the oldest check ends; which servers it reached, and the order of its tasks
  check_ends : (String → Bool) → (List String → List String) → Event
  account_call : Call → Event

-- What hbbs takes from outside: beside `outside` the key of the server, the port of the relay,
-- test_if_valid_server, and whether a text is an address.
pub record World : Type 0 where
  pub outside : Outside
  pub key : String
  pub relay_port : String
  pub valid : String → Bool
  pub is_ip : String → Bool

abbrev pub conn_of : Option ℕ → TcpServer → Conn
conn_of sink s = record { sink = sink; out = []; server = s }

abbrev pub udp_view : System → UdpServer
udp_view s = record {
  registry = s.server.registry;
  serial = s.server.serial;
  rendezvous_servers = s.server.rendezvous_servers;
  version = s.version;
  software_url = s.software_url;
}

abbrev with_udp : UdpServer → System → System
with_udp u s = record s {
  server = record s.server {
    registry = u.registry;
    serial = u.serial;
    rendezvous_servers = u.rendezvous_servers;
  };
}

abbrev pub clone_of : TcpServer → Clone
clone_of s = record {
  relay_servers0 = s.relays.relay_servers0;
  relay_servers = s.relays.relay_servers;
  serial = s.serial;
  rendezvous_servers = s.rendezvous_servers;
}

-- the server as the clone has it, on the state that they share
abbrev pub as_clone : Clone → TcpServer → TcpServer
as_clone c s = record s {
  relays = record s.relays { relay_servers0 = c.relay_servers0; relay_servers = c.relay_servers };
  serial = c.serial;
  rendezvous_servers = c.rendezvous_servers;
}

-- `tx.send`
abbrev pub sent : Option Data → List Data → List Data
sent none rx = rx
sent (some d) rx = rx ++ d ∷ []

abbrev pub reached : Option (List String) → Option Data
reached none = none
reached (some rs) = some (relay_servers rs)

module _ {ℓ} {Enc : Type ℓ} (k : Codec Enc) (w : World) where
  abbrev pub receives : List Data → System → System
  receives [] s = s
  receives (d ∷ rx) s = record s { server = handle_data w.valid d s.server; rx = rx }

  -- the arm of the timer, every three seconds
  abbrev pub ticks : System → System
  ticks s =
      if ltb 1 (length s.server.relays.relay_servers0)
      then record s { checks = s.checks ++ s.server.relays.relay_servers0 ∷ [] }
      else s

  abbrev pub ends :
      (String → Bool) → (List String → List String) → List (List String) → System → System
  ends connects order [] s = s
  ends connects order (rs ∷ checks) s = record s {
    rx = sent (reached (check_relay_servers w.relay_port connects (order rs))) s.rx;
    checks = checks;
  }

  abbrev pub answers : Reply × Option Data × TcpServer → System → System
  answers (reply, o, server) s = record s { server = server; rx = sent o s.rx }

  -- a connection that was never accepted sends nothing
  abbrev pub told :
      Moment → TcpMessage → SocketAddr → Bool → Option ℕ → Option Clone → TcpServer → TcpServer
  told m msg addr ws sink none s = s
  told m msg addr ws sink (some c) s =
      as_clone (clone_of s)
        (handle_tcp (at m w.outside) msg addr w.key ws (conn_of sink (as_clone c s))).1.server

  abbrev pub with_registry : Registry → TcpServer → TcpServer
  with_registry r s = record s { registry = r }

  abbrev pub checking : RegisterPk → SocketAddr → Checked × Registry → TcpServer → System → System
  checking rk addr (refused r, registry) server s = record s {
    server = with_registry registry server;
  }
  checking rk addr (passed change, registry) server s = record s {
    server = with_registry registry server;
    registrations = s.registrations ++ record { rk = rk; addr = addr; change = change } ∷ [];
  }

  abbrev pub starts : Moment → RegisterPk → SocketAddr → Option ℕ → System → System
  starts m rk addr sink s =
      if is_empty rk.uuid || is_empty rk.pk
      then s
      else (let server = (move_to_peers (at m w.outside) addr (conn_of sink s.server)).server in
          checking rk addr
            (check_registration w.outside.net w.outside.codec m.now rk addr server.registry) server
            s)

  -- the answer is sent without a trace on the server
  abbrev pub finishes : Moment → ℕ → Option Registration → System → System
  finishes m n none s = s
  finishes m n (some r) s = record s {
    server =
        with_registry
          (finish_registration w.outside.net w.outside.codec m.now m.new_guid r.rk r.addr r.change
            s.server.registry).1
          s.server;
    registrations = remove_at n s.registrations;
  }

  unfoldable pub perform : Event → System → System
  unfolding move_to_peers check_registration finish_registration handle_tcp close handle_udp
      handle_listener2 handle_data check_relay_servers step
  perform accepted s = record s { clones = s.clones ++ clone_of s.server ∷ [] }
  perform (tcp_message n m msg addr ws sink) s = record s {
    server = told m msg addr ws sink (get_elem? s.clones n) s.server;
  }
  perform (registration_starts m rk addr sink) s = starts m rk addr sink s
  perform (registration_ends m n) s = finishes m n (get_elem? s.registrations n) s
  perform (tcp_closed addr sink) s = record s {
    server = (close k w.outside addr w.key (conn_of sink s.server)).server;
  }
  perform (packet m msg addr) s =
      with_udp
        (handle_udp w.outside.net w.outside.codec w.valid m.now m.new_guid msg addr (udp_view s)).1
        s
  perform (second_port now addr a) s =
      answers (handle_listener2 w.outside.net w.is_ip now addr a s.server) s
  perform data_received s = receives s.rx s
  perform timer_ticks s = ticks s
  perform (check_ends connects order) s = ends connects order s.checks s
  perform (account_call call) s = record s {
    server = record s.server { accounts = step w.outside.crypto call s.server.accounts };
  }

  unfoldable pub perform_all : List Event → System → System
  unfolding perform
  perform_all [] s = s
  perform_all (e ∷ es) s = perform_all es (perform e s)
