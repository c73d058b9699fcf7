-- ===== src/Rendezvous/Tcp/Sending.antt =====
-- What sending leaves alone (src/rendezvous_server/tcp.rs and tcp_register.rs): all of the server but
-- `tcp_punch`, and every push.
use openuu_server.Prelude.{ℕ, Option, none, some, List, ◌≡◌, refl, Bool, true, false, keep}
use openuu_server.Net.{SocketAddr}
use openuu_server.Rendezvous.TcpPeers.{Sink, stream, closed}
use openuu_server.Rendezvous.Tcp.Wire.{
  Outgoing, Effect, written, pushed, Conn, Outside, write_to_peer, write_once, reply_by, to_punch,
  to_peers, send_to_tcp_peer, send_to_tcp, reply_on_connection, move_to_punch, move_to_peers,
}

abbrev pub is_push : Effect → Bool
is_push (written n msg) = false
is_push (pushed a msg) = true

-- what was pushed to peers, the last first
unfoldable pub pushes : Conn → List Effect
unfolding keep
pushes c = keep is_push c.out

-- The same peers, the same accounts and the same pushes.
pub record Quiet (c c' : Conn) : Type 0 where
  pub registry : c'.server.registry ≡ c.server.registry
  pub accounts : c'.server.accounts ≡ c.server.accounts
  pub sessions : c'.server.punch_sessions ≡ c.server.punch_sessions
  pub same_pushes : pushes c' ≡ pushes c

write_to_peer-Quiet :
    (o : Option Sink) (msg : Outgoing) (c : Conn) → Quiet c (write_to_peer o msg c)
unfolding pushes
write_to_peer-Quiet none msg c = record {
  registry = refl;
  accounts = refl;
  sessions = refl;
  same_pushes = refl;
}
write_to_peer-Quiet (some closed) msg c = record {
  registry = refl;
  accounts = refl;
  sessions = refl;
  same_pushes = refl;
}
write_to_peer-Quiet (some (stream n)) msg c = record {
  registry = refl;
  accounts = refl;
  sessions = refl;
  same_pushes = refl;
}

module _ (x : Outside) (addr : SocketAddr) where
  pub send_to_tcp_peer-Quiet : (msg : Outgoing) (c : Conn) → Quiet c (send_to_tcp_peer x addr msg c)
  unfolding send_to_tcp_peer
  send_to_tcp_peer-Quiet msg c = write_to_peer-Quiet _ msg c

  write_once-Quiet :
      (o : Option ℕ) (msg : Outgoing) (c : Conn) → Quiet c (write_once x addr o msg c)
  unfolding pushes
  write_once-Quiet none msg c = send_to_tcp_peer-Quiet msg c
  write_once-Quiet (some n) msg c = record {
    registry = refl;
    accounts = refl;
    sessions = refl;
    same_pushes = refl;
  }

  pub send_to_tcp-Quiet : (msg : Outgoing) (c : Conn) → Quiet c (send_to_tcp x addr msg c)
  unfolding send_to_tcp
  send_to_tcp-Quiet msg c = write_once-Quiet _ msg c

  reply_by-Quiet : (o : Option ℕ) (msg : Outgoing) (c : Conn) → Quiet c (reply_by x o addr msg c)
  unfolding pushes
  reply_by-Quiet none msg c = send_to_tcp_peer-Quiet msg c
  reply_by-Quiet (some n) msg c = record {
    registry = refl;
    accounts = refl;
    sessions = refl;
    same_pushes = refl;
  }

  pub reply_on_connection-Quiet :
      (msg : Outgoing) (c : Conn) → Quiet c (reply_on_connection x addr msg c)
  unfolding reply_on_connection
  reply_on_connection-Quiet msg c = reply_by-Quiet c.sink msg c

  to_punch-Quiet : (o : Option ℕ) (k : SocketAddr) (c : Conn) → Quiet c (to_punch o k c)
  unfolding pushes
  to_punch-Quiet none k c = record {
    registry = refl;
    accounts = refl;
    sessions = refl;
    same_pushes = refl;
  }
  to_punch-Quiet (some n) k c = record {
    registry = refl;
    accounts = refl;
    sessions = refl;
    same_pushes = refl;
  }

  pub move_to_punch-Quiet : (c : Conn) → Quiet c (move_to_punch x addr c)
  unfolding move_to_punch
  move_to_punch-Quiet c = to_punch-Quiet c.sink _ c

  to_peers-Quiet : (o : Option ℕ) (k : SocketAddr) (c : Conn) → Quiet c (to_peers o k c)
  unfolding pushes
  to_peers-Quiet none k c = record {
    registry = refl;
    accounts = refl;
    sessions = refl;
    same_pushes = refl;
  }
  to_peers-Quiet (some n) k c = record {
    registry = refl;
    accounts = refl;
    sessions = refl;
    same_pushes = refl;
  }

  pub move_to_peers-Quiet : (c : Conn) → Quiet c (move_to_peers x addr c)
  unfolding move_to_peers
  move_to_peers-Quiet c = to_peers-Quiet c.sink _ c
