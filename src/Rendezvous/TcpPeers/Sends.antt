-- ===== src/Rendezvous/TcpPeers/Sends.antt =====
-- What a send does to the registered sinks (src/rendezvous_server/tcp_register.rs).
use openuu_server.Prelude.{ℕ, none, some, ◌≡◌, arith}
use openuu_server.Prelude.Map.{insert, get-insert, get-remove}
use openuu_server.Net.{SocketAddr, SocketAddr-discrete}
use openuu_server.Rendezvous.TcpPeers.{
  stream, closed, TcpPeers, entry, register, forget, begin_send, finish_send,
}

-- A send over a registered sink, with nothing between its steps, leaves every entry as it was.
finish_send-begin_send :
    (k j : SocketAddr) (s : ℕ) (t : TcpPeers)
    → entry k t ≡ some (stream s)
    → entry j (finish_send k s (begin_send k t).2) ≡ entry j t
unfolding begin_send finish_send
finish_send-begin_send k j s t h =
    let peers' = insert SocketAddr-discrete k closed t.peers in
    ground (
      arith,
      h,
      get-insert SocketAddr-discrete k k closed t.peers,
      get-insert SocketAddr-discrete k j closed t.peers,
      get-insert SocketAddr-discrete k j (stream s) peers',
    )

-- A connection that was forgotten during a send is not put back, and a connection that registered
-- during it is not replaced.
finish_send_changed :
    (k : SocketAddr) (s : ℕ) (t : TcpPeers)
    → entry k t ≡ some (stream s)
    → (entry k (finish_send k s (forget k (begin_send k t).2)) ≡ none)
      × (entry k (finish_send k s (register k (begin_send k t).2)) ≡ some (stream t.next))
unfolding begin_send finish_send forget register
finish_send_changed k s t h =
    let peers' = insert SocketAddr-discrete k closed t.peers in
    (
      ground (arith, h, get-remove SocketAddr-discrete k k peers'),
      ground (arith, h, get-insert SocketAddr-discrete k k (stream t.next) peers'),
    )

begin_send-entry :
    (k : SocketAddr) (s : ℕ) (t : TcpPeers)
    → entry k t ≡ some (stream s)
    → entry k (begin_send k t).2 ≡ some closed
unfolding begin_send
begin_send-entry k s t h = ground (arith, h, get-insert SocketAddr-discrete k k closed t.peers)

register-entry : (k : SocketAddr) (t : TcpPeers) → entry k (register k t) ≡ some (stream t.next)
unfolding register
register-entry k t = ground (arith, get-insert SocketAddr-discrete k k (stream t.next) t.peers)

finish_send-entry :
    (k : SocketAddr) (s : ℕ) (t : TcpPeers)
    → entry k t ≡ some closed
    → entry k (finish_send k s t) ≡ some (stream s)
unfolding finish_send
finish_send-entry k s t h = ground (arith, h, get-insert SocketAddr-discrete k k (stream s) t.peers)

finish_send_kept :
    (k : SocketAddr) (s s' : ℕ) (t : TcpPeers)
    → entry k t ≡ some (stream s)
    → entry k (finish_send k s' t) ≡ some (stream s)
unfolding finish_send
finish_send_kept k s s' t h = ground (arith, h)

-- The old sink comes back all the same if the new connection has a send under way when the old send
-- ends: then the old send finds the new one's placeholder, and the new sink is dropped.
finish_send_stale :
    (k : SocketAddr) (s : ℕ) (t : TcpPeers)
    → entry k t ≡ some (stream s)
    → let u = (begin_send k (register k (forget k (begin_send k t).2))).2 in
      (entry k (finish_send k s u) ≡ some (stream s))
      × (entry k (finish_send k t.next (finish_send k s u)) ≡ some (stream s))
finish_send_stale k s t h =
    let v = forget k (begin_send k t).2 in
    let u = (begin_send k (register k v)).2 in
    let old =
      finish_send-entry k s u (begin_send-entry k v.next (register k v) (register-entry k v)) in
    (old, finish_send_kept k s t.next (finish_send k s u) old)
