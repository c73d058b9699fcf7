-- ===== src/Rendezvous/TcpPeers/Forgotten.antt =====
-- The sends of a connection that was forgotten (src/rendezvous_server/tcp_register.rs).
use openuu_server.Prelude.{ℕ, Option, none, some, ◌≡◌, ◌≢◌, refl, ap, sym, ◌∙◌, arith}
use openuu_server.Prelude.Map.{insert, get-insert, get-remove}
use openuu_server.Net.{SocketAddr, SocketAddr-discrete}
use openuu_server.Rendezvous.TcpPeers.{
  Sink, stream, closed, TcpPeers, entry, register, forget, begin_at, begin_send, put_back,
  finish_send, Step, registers, forgets, begins, finishes,
}

module _ (k : SocketAddr) where
  -- the step registers no connection of the address
  abbrev pub Spares : {t u : TcpPeers} → Step t u → Type 0
  Spares (registers j) = j ≢ k
  Spares (forgets j) = Unit
  Spares (begins j) = Unit
  Spares (finishes j s h) = Unit

  -- any steps in any order, less registrations of the address
  pub data Without (t : TcpPeers) : TcpPeers → Type 0 where
    at_once : Without t t
    further : {u v : TcpPeers} → Without t u → (step : Step u v) → Spares step → Without t v

  entry-insert :
      (j : SocketAddr) (sink : Sink) (t : TcpPeers)
      → j ≢ k
      → entry k (record t { peers = insert SocketAddr-discrete j sink t.peers }) ≡ entry k t
  entry-insert j sink t other =
      ground (arith, other, get-insert SocketAddr-discrete j k sink t.peers)

  module _ (t : TcpPeers) (gone : entry k t ≡ none) where
    elsewhere : (j : SocketAddr) {sink : Sink} → entry j t ≡ some sink → j ≢ k
    elsewhere j h is = absurd (ground (arith, sym h ∙ ap (λ i. entry i t) is ∙ gone))

    begin_at-gone :
        (j : SocketAddr) (o : Option Sink) → entry j t ≡ o → entry k (begin_at j o t).2 ≡ none
    begin_at-gone j none h = gone
    begin_at-gone j (some closed) h = gone
    begin_at-gone j (some (stream s)) h = entry-insert j closed t (elsewhere j h) ∙ gone

    put_back-gone :
        (j : SocketAddr) (s : ℕ) (o : Option Sink)
        → entry j t ≡ o
        → entry k (record t { peers = put_back j s o t.peers }) ≡ none
    put_back-gone j s none h = gone
    put_back-gone j s (some (stream n)) h = gone
    put_back-gone j s (some closed) h = entry-insert j (stream s) t (elsewhere j h) ∙ gone

  Step-gone : {t u : TcpPeers} (step : Step t u) → Spares step → entry k t ≡ none → entry k u ≡ none
  unfolding register forget begin_send finish_send
  Step-gone {t} (registers j) other gone = entry-insert j (stream t.next) t other ∙ gone
  Step-gone {t} (forgets j) spared gone =
      ground (arith, gone, get-remove SocketAddr-discrete j k t.peers)
  Step-gone {t} (begins j) spared gone = begin_at-gone t gone j (entry j t) refl
  Step-gone {t} (finishes j s h) spared gone = put_back-gone t gone j s (entry j t) refl

  forgotten : (t : TcpPeers) → entry k (forget k t) ≡ none
  unfolding forget
  forgotten t = ground (arith, get-remove SocketAddr-discrete k k t.peers)

  -- A connection that closed does not come back: after forget_tcp_peer of an address, whatever sends
  -- begin and end and whatever other connections do, those that took the sink of this address before
  -- it was forgotten included, the map has no entry of the address until it registers again.
  pub entry-forget : (t : TcpPeers) {u : TcpPeers} → Without (forget k t) u → entry k u ≡ none
  entry-forget t at_once = forgotten t
  entry-forget t (further before step spared) = Step-gone step spared (entry-forget t before)
