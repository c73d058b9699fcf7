-- ===== src/Rendezvous/TcpPeers.antt =====
-- Peers registered over TCP (src/rendezvous_server/tcp_register.rs). A send takes the sink out of
-- the map, writes without the lock, and puts it back, so a send is two steps and others come
-- between.
pub mod Sends
pub mod Forgotten
pub mod Exclusion
use openuu_server.Prelude.{
  ℕ, suc, ◌+◌, Bool, true, false, not, ◌&&◌, Option, none, some, List, [], ◌∷◌, ◌==◌, if◌then◌else◌,
  any, keep, ◌≡◌, eqb,
}
use openuu_server.Prelude.Map.{get, contains_key, insert, remove}
use openuu_server.Net.{SocketAddr, SocketAddr-discrete, AddrTools}

-- `Sink`: the writing half of a connection, by a number that no other connection has, or the
-- placeholder for one that is taken out.
pub data Sink : Type 0 where
  stream : ℕ → Sink
  closed : Sink

pub record TcpPeers : Type 0 where
  -- `tcp_peers`, by the v4 form of the address
  pub peers : List (SocketAddr × Sink)
  -- the sends between their two steps: the key, and the sink that was taken
  pub sending : List (SocketAddr × ℕ)
  -- the number of the next connection
  pub next : ℕ

abbrev pub entry : SocketAddr → TcpPeers → Option Sink
entry k t = get SocketAddr-discrete k t.peers

-- handle_tcp_register_*: the connection's sink moves into the map
unfoldable pub register : SocketAddr → TcpPeers → TcpPeers
register k t = record t {
  peers = insert SocketAddr-discrete k (stream t.next) t.peers;
  next = suc t.next;
}

-- forget_tcp_peer
unfoldable pub forget : SocketAddr → TcpPeers → TcpPeers
forget k t = record t { peers = remove SocketAddr-discrete k t.peers }

-- is_tcp_peer
unfoldable pub is_tcp_peer : SocketAddr → TcpPeers → Bool
unfolding contains_key
is_tcp_peer k t = contains_key SocketAddr-discrete k t.peers

abbrev pub begin_at : SocketAddr → Option Sink → TcpPeers → Bool × Option ℕ × TcpPeers
begin_at k none t = (false, none, t)
begin_at k (some closed) t = (true, none, t)
begin_at k (some (stream s)) t = (
  true,
  some s,
  record t { peers = insert SocketAddr-discrete k closed t.peers; sending = (k, s) ∷ t.sending },
)

-- send_to_tcp_peer up to its write: the result, the sink that it took, and the map
unfoldable pub begin_send : SocketAddr → TcpPeers → Bool × Option ℕ × TcpPeers
begin_send k t = begin_at k (entry k t) t

abbrev pub put_back :
    SocketAddr → ℕ → Option Sink → List (SocketAddr × Sink) → List (SocketAddr × Sink)
put_back k s (some closed) peers = insert SocketAddr-discrete k (stream s) peers
put_back k s (some (stream s')) peers = peers
put_back k s none peers = peers

abbrev pub is_send : ℕ → SocketAddr × ℕ → Bool
is_send s e = e.1 == s

-- send_to_tcp_peer after its write, for the send that holds the sink `s`
unfoldable pub finish_send : SocketAddr → ℕ → TcpPeers → TcpPeers
finish_send k s t = record t {
  peers = put_back k s (entry k t) t.peers;
  sending = keep (λ e. not (is_send s e)) t.sending;
}

-- What may happen next, in any order.
pub data Step (t : TcpPeers) : TcpPeers → Type 0 where
  registers : (k : SocketAddr) → Step t (register k t)
  forgets : (k : SocketAddr) → Step t (forget k t)
  begins : (k : SocketAddr) → Step t (begin_send k t).2
  finishes :
      (k : SocketAddr) (s : ℕ)
      → any (λ e. eqb SocketAddr-discrete e.0 k && is_send s e) t.sending ≡ true
      → Step t (finish_send k s t)

pub data Reach (t : TcpPeers) : TcpPeers → Type 0 where
  here : Reach t t
  onward : {u v : TcpPeers} → Reach t u → Step u v → Reach t v

-- deliver: over the peer's connection, else over UDP
pub data Route : Type 0 where
  tcp udp : Route

unfoldable pub deliver : AddrTools → SocketAddr → TcpPeers → Route × TcpPeers
unfolding begin_send
deliver net addr t =
    let (done, _, t') = begin_send (net.try_into_v4 addr) t in (if done then tcp else udp, t')
