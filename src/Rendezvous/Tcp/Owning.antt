-- ===== src/Rendezvous/Tcp/Owning.antt =====
-- Where the sink of a connection may be: with the connection, or under its address in `tcp_punch` and
-- `tcp_peers` (the sending and moving of src/rendezvous_server/tcp.rs and tcp_register.rs).
use openuu_server.Prelude.{
  ℕ, ◌≢◌, String, Option, none, some, List, ◌≡◌, refl, sym, arith, Bytes, Bool-cases, inl, inr,
}
use openuu_server.Prelude.Map.{get, insert, remove, get-remove, get-insert}
use openuu_server.Prelude.Text.{is_empty_text}
use openuu_server.Net.{SocketAddr, SocketAddr-discrete}
use openuu_server.Rendezvous.TcpPeers.{Sink, stream, closed}
use openuu_server.Rendezvous.Tcp.Wire.{
  Outgoing, TcpServer, Conn, Outside, write_to_peer, write_once, reply_by, to_punch, to_peers,
  send_to_tcp_peer, send_to_tcp, reply_on_connection, move_to_punch, move_to_peers,
}
use openuu_server.Rendezvous.Tcp.Replies.{sign_pk, get_pk}

-- The sink `n` is under no key but `k`, and not in `tcp_punch` while the connection has a sink.
pub record Owns (n : ℕ) (k : SocketAddr) (sink : Option ℕ) (punch : List (SocketAddr × ℕ))
    (peers : List (SocketAddr × Sink)) : Type 0 where
  pub away_punch : (j : SocketAddr) → j ≢ k → get SocketAddr-discrete j punch ≢ some n
  pub away_peers : (j : SocketAddr) → j ≢ k → get SocketAddr-discrete j peers ≢ some (stream n)
  pub kept : sink ≢ none → get SocketAddr-discrete k punch ≢ some n

abbrev pub Mine : ℕ → SocketAddr → Conn → Type 0
Mine n k c = Owns n k c.sink c.server.tcp_punch c.server.tcp_peers

removed_not :
    {V : Type 0} (j i : SocketAddr) (v : V) (m : List (SocketAddr × V))
    → get SocketAddr-discrete i m ≢ some v
    → get SocketAddr-discrete i (remove SocketAddr-discrete j m) ≢ some v
removed_not j i v m h e = elim (SocketAddr-discrete j i) [
  | yes is ↦ absurd (ground (arith, e, get-remove SocketAddr-discrete j i m, is))
  | no other ↦ absurd (ground (arith, e, get-remove SocketAddr-discrete j i m, other, h))
]

module _ {V : Type 0} where
  inserted_not :
      (k j : SocketAddr) (w v : V) (m : List (SocketAddr × V))
      → j ≢ k
      → get SocketAddr-discrete j m ≢ some v
      → get SocketAddr-discrete j (insert SocketAddr-discrete k w m) ≢ some v
  inserted_not k j w v m other h e =
      let far : k ≢ j = λ is. other (sym is) in
      absurd (ground (arith, e, get-insert SocketAddr-discrete k j w m, far, h))

module _ (n : ℕ) (k : SocketAddr) where
  remove-Owns :
      (j : SocketAddr) (sink : Option ℕ) (punch : List (SocketAddr × ℕ))
      (peers : List (SocketAddr × Sink))
      → Owns n k sink punch peers
      → Owns n k sink (remove SocketAddr-discrete j punch) peers
  remove-Owns j sink punch peers h = record {
    away_punch = λ i other. removed_not j i n punch (h.away_punch i other);
    away_peers = h.away_peers;
    kept = λ some_sink. removed_not j k n punch (h.kept some_sink);
  }

  to_punch-Mine : (o : Option ℕ) (c : Conn) → Mine n k c → Mine n k (to_punch o k c)
  to_punch-Mine none c h = h
  to_punch-Mine (some m) c h = record {
    away_punch = λ j other. inserted_not k j m n c.server.tcp_punch other (h.away_punch j other);
    away_peers = h.away_peers;
    kept = λ some_sink. absurd (some_sink refl);
  }

  to_peers-Mine : (o : Option ℕ) (c : Conn) → Mine n k c → Mine n k (to_peers o k c)
  to_peers-Mine none c h = h
  to_peers-Mine (some m) c h = record {
    away_punch = h.away_punch;
    away_peers = λ j other.
        inserted_not k j (stream m) (stream n) c.server.tcp_peers other (h.away_peers j other);
    kept = λ some_sink. absurd (some_sink refl);
  }

  write_to_peer-Mine :
      (o : Option Sink) (msg : Outgoing) (c : Conn) → Mine n k c → Mine n k (write_to_peer o msg c)
  write_to_peer-Mine none msg c h = h
  write_to_peer-Mine (some closed) msg c h = h
  write_to_peer-Mine (some (stream m)) msg c h = h

  module _ (x : Outside) (a : SocketAddr) (msg : Outgoing) where
    pub send_to_tcp_peer-Mine : (c : Conn) → Mine n k c → Mine n k (send_to_tcp_peer x a msg c)
    unfolding send_to_tcp_peer
    send_to_tcp_peer-Mine c h =
        write_to_peer-Mine (get SocketAddr-discrete (x.net.try_into_v4 a) c.server.tcp_peers) msg c
          h

    write_once-Mine : (o : Option ℕ) (c : Conn) → Mine n k c → Mine n k (write_once x a o msg c)
    write_once-Mine none c h = send_to_tcp_peer-Mine c h
    write_once-Mine (some m) c h =
        remove-Owns (x.net.try_into_v4 a) c.sink c.server.tcp_punch c.server.tcp_peers h

    pub send_to_tcp-Mine : (c : Conn) → Mine n k c → Mine n k (send_to_tcp x a msg c)
    unfolding send_to_tcp
    send_to_tcp-Mine c h =
        write_once-Mine (get SocketAddr-discrete (x.net.try_into_v4 a) c.server.tcp_punch) c h

    reply_by-Mine : (o : Option ℕ) (c : Conn) → Mine n k c → Mine n k (reply_by x o a msg c)
    reply_by-Mine none c h = send_to_tcp_peer-Mine c h
    reply_by-Mine (some m) c h = h

    pub reply_on_connection-Mine :
        (c : Conn) → Mine n k c → Mine n k (reply_on_connection x a msg c)
    unfolding reply_on_connection
    reply_on_connection-Mine c h = reply_by-Mine c.sink c h

module _ (x : Outside) (addr : SocketAddr) (n : ℕ) (c : Conn) where
  pub move_to_punch-Mine :
      Mine n (x.net.try_into_v4 addr) c → Mine n (x.net.try_into_v4 addr) (move_to_punch x addr c)
  unfolding move_to_punch
  move_to_punch-Mine h = to_punch-Mine n (x.net.try_into_v4 addr) c.sink c h

  pub move_to_peers-Mine :
      Mine n (x.net.try_into_v4 addr) c → Mine n (x.net.try_into_v4 addr) (move_to_peers x addr c)
  unfolding move_to_peers
  move_to_peers-Mine h = to_peers-Mine n (x.net.try_into_v4 addr) c.sink c h

-- Looking a key up leaves the sinks alone.
abbrev pub SameSinks : TcpServer → TcpServer → Type 0
SameSinks s s' = (s'.tcp_punch ≡ s.tcp_punch) × (s'.tcp_peers ≡ s.tcp_peers)

module _ (x : Outside) where
  sign_pk-SameSinks :
      (sk : Option Bytes) (i : String) (s : TcpServer) → SameSinks s (sign_pk x sk i s).1
  sign_pk-SameSinks none i s = (refl, refl)
  sign_pk-SameSinks (some sk) i s = (refl, refl)

  pub get_pk-SameSinks : (version i : String) (s : TcpServer) → SameSinks s (get_pk x version i s).1
  unfolding get_pk
  get_pk-SameSinks version i s = elim (Bool-cases (is_empty_text version)) [
    | inl none_given ↦ rw none_given (refl, refl)
    | inr given ↦ rw given (sign_pk-SameSinks s.sk i s)
  ]
