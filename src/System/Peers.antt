-- ===== src/System/Peers.antt =====
-- The registered peers while hbbs runs, over TCP and UDP together (`io_loop` of
-- src/rendezvous_server/io.rs).
pub mod Guarding
use openuu_server.Prelude.{
  ℕ, String, Bytes, Bool, false, Option, some, List, [], ◌∷◌, ◌≡◌, ◌⊎◌, inl, inr, refl, ap, subst,
  ◌∙◌, is_empty, arith, get_elem?, ◌||◌, Bool-cases, none, ◌≢◌, sym,
}
use openuu_server.Prelude.Table.{All, All-append, All-get_elem?, All-remove_at}
use openuu_server.Net.{SocketAddr}
use openuu_server.Rendezvous.Console.{Data}
use openuu_server.Rendezvous.Peers.{Peer, PeerMap, get_in_memory}
use openuu_server.Rendezvous.Register.{RegisterPk, Registry}
use openuu_server.Rendezvous.Register.Halves.{Checked, refused, passed, check_registration}
use openuu_server.Rendezvous.Register.Halves.Owner as Halves
use openuu_server.Rendezvous.Register.Halves.Owner.{
  check_registration_keeps, finish_registration_keeps,
}
use openuu_server.Rendezvous.Tcp.Sending.{move_to_peers-Quiet}
use openuu_server.Rendezvous.Udp as Udp
use openuu_server.Rendezvous.Udp.Dispatch as Dispatch
use openuu_server.Rendezvous.Tcp.Wire.{
  TcpMessage, TcpServer, register_pk, Moment, at, pm_of, move_to_peers,
}
use openuu_server.Rendezvous.Tcp.Owners.{Renews, renews, handle_tcp_keeps}
use openuu_server.Rendezvous.Tcp.Connection.{Codec}
use openuu_server.Rendezvous.Tcp.Connection.Closing.{close-registry}
use openuu_server.System.{
  System, Clone, Registration, Event, accepted, tcp_message, tcp_closed, packet,
  registration_starts, registration_ends, second_port, data_received, timer_ticks, check_ends,
  account_call, World, conn_of, as_clone, udp_view, told, checking, starts, finishes, receives,
  ticks, ends, perform, perform_all,
}
use openuu_server.System.Console.{handle_data-Same, handle_listener2-Same}
pub use openuu_server.System.Peers.Guarding.{peers_of, Registers, Occurs}
use openuu_server.System.Peers.Guarding.{here, later, Presents, Keeps, perform-Guarded}

module _ {ℓ} {Enc : Type ℓ} (k : Codec Enc) (w : World) (j : String) where
  perform_all-Guarded :
      (T : Type 0) (es : List Event) (s : System) (p : Peer)
      → is_empty p.uuid ≡ false
      → (Occurs (Registers j p.uuid) es → T)
      → All (Presents j p.uuid T) s.registrations
      → get_in_memory j (peers_of s) ≡ some p
      → Keeps k w j p T (peers_of (perform_all k w es s))
  unfolding perform_all
  perform_all-Guarded T [] s p full b g h = (p, h, refl, inl refl)
  perform_all-Guarded T (e ∷ es) s p full b g h =
      let ((q, found, uuid, key), g') = perform-Guarded k w j p T e s full (λ r. b (here r)) g h in
      let (r, found', uuid', key') =
        perform_all-Guarded T es (perform k w e s) q (ap is_empty uuid ∙ full)
          (λ o. b (later (subst (λ u. Occurs (Registers j u) es) uuid o)))
          (subst (λ u. All (Presents j u T) (perform k w e s).registrations) (sym uuid) g') found in
      (r, found', uuid' ∙ uuid, chained p q r key key')
    where
      chained : (p q r : Peer) → ((q.pk ≡ p.pk) ⊎ T) → ((r.pk ≡ q.pk) ⊎ T) → (r.pk ≡ p.pk) ⊎ T
      chained p q r (inr t) rest = inr t
      chained p q r (inl same) (inl same') = inl (same' ∙ same)
      chained p q r (inl same) (inr t) = inr t

  none_claims :
      (u : Bytes) (T : Type 0) (rs : List Registration)
      → All (λ r. j ≢ r.rk.id) rs
      → All (Presents j u T) rs
  none_claims u T [] h = tt
  none_claims u T (r ∷ rs) h = ((λ is. absurd (h.0 is)), none_claims u T rs h.1)

  -- In every run, in which tasks come between the halves of a registration and any other event runs to
  -- its end: a registered peer in memory, of which no registration is under way at first, stays there
  -- with its uuid; and it stays with its key, unless one of the events registers a key for it with
  -- this uuid or starts to, over TCP or UDP.
  pub perform_all_keeps :
      (es : List Event) (s : System) (p : Peer)
      → is_empty p.uuid ≡ false
      → All (λ r. j ≢ r.rk.id) s.registrations
      → get_in_memory j (peers_of s) ≡ some p
      → (q : Peer) × (get_in_memory j (peers_of (perform_all k w es s)) ≡ some q)
        × (q.uuid ≡ p.uuid)
        × ((q.pk ≡ p.pk) ⊎ Occurs (Registers j p.uuid) es)
  perform_all_keeps es s p full idle h =
      let T = Occurs (Registers j p.uuid) es in
      perform_all-Guarded T es s p full (λ o. o) (none_claims p.uuid T s.registrations idle) h
