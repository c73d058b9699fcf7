-- ===== src/System/Peers/Guarding.antt =====
-- A registered peer through one event (`io_loop` of src/rendezvous_server/io.rs).
use openuu_server.Prelude.{
  ℕ, String, Bytes, Bool, false, Option, some, List, [], ◌∷◌, ◌≡◌, ◌⊎◌, inl, inr, refl, ap, subst,
  ◌∙◌, is_empty, arith, get_elem?, ◌||◌, Bool-cases, none, sym,
}
use openuu_server.Prelude.Table.{All, All-append, All-get_elem?, All-remove_at}
use openuu_server.Net.{SocketAddr}
use openuu_server.Rendezvous.Console.{Data}
use openuu_server.Rendezvous.Peers.{Peer, PeerMap, get_in_memory}
use openuu_server.Rendezvous.Register.{RegisterPk, Registry}
use openuu_server.Rendezvous.Register.Halves.{Checked, refused, passed, check_registration}
use openuu_server.Rendezvous.Register.Halves.Owner as Halves
use openuu_server.Rendezvous.Register.Halves.Owner.{
  check_registration_keeps, finish_registration_keeps,
}
use openuu_server.Rendezvous.Tcp.Sending.{move_to_peers-Quiet}
use openuu_server.Rendezvous.Udp as Udp
use openuu_server.Rendezvous.Udp.Dispatch as Dispatch
use openuu_server.Rendezvous.Tcp.Wire.{
  TcpMessage, TcpServer, register_pk, Moment, at, pm_of, move_to_peers,
}
use openuu_server.Rendezvous.Tcp.Owners.{Renews, renews, handle_tcp_keeps}
use openuu_server.Rendezvous.Tcp.Connection.{Codec}
use openuu_server.Rendezvous.Tcp.Connection.Closing.{close-registry}
use openuu_server.System.{
  System, Clone, Registration, Event, accepted, tcp_message, tcp_closed, packet,
  registration_starts, registration_ends, second_port, data_received, timer_ticks, check_ends,
  account_call, World, conn_of, as_clone, udp_view, told, checking, starts, finishes, receives,
  ticks, ends, perform,
}
use openuu_server.System.Console.{handle_data-Same, handle_listener2-Same}

abbrev pub peers_of : System → PeerMap
peers_of s = pm_of s.server

-- The registration is of another peer, or presents this uuid, and then something holds.
abbrev pub Presents : String → Bytes → Type 0 → Registration → Type 0
Presents j uuid T r = j ≡ r.rk.id → (r.rk.uuid ≡ uuid) × T

-- The event registers a key for this peer with this uuid, or starts to.
pub data Registers (j : String) (uuid : Bytes) : Event → Type 0 where
  over_tcp :
      {n : ℕ} {m : Moment} {addr : SocketAddr} {ws : Bool} {sink : Option ℕ} (rk : RegisterPk)
      → j ≡ rk.id
      → rk.uuid ≡ uuid
      → Registers j uuid (tcp_message n m (register_pk rk) addr ws sink)
  over_udp :
      {m : Moment} {addr : SocketAddr} (rk : RegisterPk)
      → j ≡ rk.id
      → rk.uuid ≡ uuid
      → Registers j uuid (packet m (Udp.register_pk rk) addr)
  in_two :
      {m : Moment} {addr : SocketAddr} {sink : Option ℕ} (rk : RegisterPk)
      → j ≡ rk.id
      → rk.uuid ≡ uuid
      → Registers j uuid (registration_starts m rk addr sink)

pub data Occurs (P : Event → Type 0) : List Event → Type 0 where
  here : {e : Event} {es : List Event} → P e → Occurs P (e ∷ es)
  later : {e : Event} {es : List Event} → Occurs P es → Occurs P (e ∷ es)

module _ {ℓ} {Enc : Type ℓ} (k : Codec Enc) (w : World) (j : String) where
  abbrev pub Keeps : Peer → Type 0 → PeerMap → Type 0
  Keeps p R pm =
      (q : Peer) × (get_in_memory j pm ≡ some q) × (q.uuid ≡ p.uuid) × ((q.pk ≡ p.pk) ⊎ R)

  module _ (p : Peer) (T : Type 0) where
    -- the peer as it is kept, and the registrations under way
    abbrev pub Guarded : System → Type 0
    Guarded s = Keeps p T (peers_of s) × All (Presents j p.uuid T) s.registrations

    abbrev pub Brings : Event → Type 0
    Brings e = Registers j p.uuid e → T

    unmoved : {pm pm' : PeerMap} → pm' ≡ pm → get_in_memory j pm ≡ some p → Keeps p T pm'
    unmoved e h = (p, ap (get_in_memory j) e ∙ h, refl, inl refl)

    receives-pm : (rx : List Data) (s : System) → peers_of (receives k w rx s) ≡ peers_of s
    receives-pm [] s = refl
    receives-pm (d ∷ rx) s = (handle_data-Same w.valid d s.server).0

    abbrev AllPresent : List Registration → Type 0
    AllPresent = All (Presents j p.uuid T)

    receives-registrations :
        (rx : List Data) (s : System) → (receives k w rx s).registrations ≡ s.registrations
    receives-registrations [] s = refl
    receives-registrations (d ∷ rx) s = refl

    ticks-registrations : (s : System) → (ticks k w s).registrations ≡ s.registrations
    ticks-registrations s = ground arith

    ends-registrations :
        (connects : String → Bool) (order : List String → List String) (checks : List (List String))
        (s : System)
        → (ends k w connects order checks s).registrations ≡ s.registrations
    ends-registrations connects order [] s = refl
    ends-registrations connects order (rs ∷ checks) s = refl

    ticks-pm : (s : System) → peers_of (ticks k w s) ≡ peers_of s
    ticks-pm s = ground arith

    ends-pm :
        (connects : String → Bool) (order : List String → List String) (checks : List (List String))
        (s : System)
        → peers_of (ends k w connects order checks s) ≡ peers_of s
    ends-pm connects order [] s = refl
    ends-pm connects order (rs ∷ checks) s = refl

    tcp_Registers :
        {n : ℕ} {m : Moment} {msg : TcpMessage} {addr : SocketAddr} {ws : Bool} {sink : Option ℕ}
        → Renews (at m w.outside).net j p addr msg
        → Registers j p.uuid (tcp_message n m msg addr ws sink)
    tcp_Registers (renews rk is uuid ip) = over_tcp rk is uuid

    udp_Registers :
        {m : Moment} {msg : Udp.UdpMessage} {addr : SocketAddr}
        → Dispatch.Renews w.outside.net w.outside.codec w.valid m.now m.new_guid j p addr msg
        → Registers j p.uuid (packet m msg addr)
    udp_Registers (Dispatch.renews rk is uuid ip) = over_udp rk is uuid

    told-Keeps :
        (n : ℕ) (m : Moment) (msg : TcpMessage) (addr : SocketAddr) (ws : Bool) (sink : Option ℕ)
        (o : Option Clone) (s : System)
        → is_empty p.uuid ≡ false
        → Brings (tcp_message n m msg addr ws sink)
        → get_in_memory j (peers_of s) ≡ some p
        → Keeps p T (pm_of (told k w m msg addr ws sink o s.server))
    told-Keeps n m msg addr ws sink none s full b h = (p, h, refl, inl refl)
    told-Keeps n m msg addr ws sink (some c) s full b h =
        let (q, found, uuid, key) =
          handle_tcp_keeps j p (at m w.outside) addr msg w.key ws
            (conn_of sink (as_clone c s.server)) full h in
        (q, found, uuid, elim key [ inl e ↦ inl e | inr r ↦ inr (b (tcp_Registers r)) ])

    starts-Guarded :
        (m : Moment) (rk : RegisterPk) (addr : SocketAddr) (sink : Option ℕ) (s : System)
        → is_empty p.uuid ≡ false
        → Brings (registration_starts m rk addr sink)
        → All (Presents j p.uuid T) s.registrations
        → get_in_memory j (peers_of s) ≡ some p
        → Guarded (starts k w m rk addr sink s)
    starts-Guarded m rk addr sink s full b g h =
        elim (Bool-cases (is_empty rk.uuid || is_empty rk.pk)) [
          | inl bad ↦ rw bad ((p, h, refl, inl refl), g)
          | inr good ↦
              let c = move_to_peers (at m w.outside) addr (conn_of sink s.server) in
              let same =
                (move_to_peers-Quiet (at m w.outside) addr (conn_of sink s.server)).registry in
              let (there, shown) =
                check_registration_keeps w.outside.net w.outside.codec m.now rk addr j p
                  c.server.registry full (ap (λ (r : Registry). get_in_memory j r.pm) same ∙ h) in
              rw good (
                by_check
                  (check_registration w.outside.net w.outside.codec m.now rk addr c.server.registry)
                  c.server there shown)
        ]
      where
        by_check :
            (r : Checked × Registry) (server : TcpServer)
            → get_in_memory j r.1.pm ≡ some p
            → Halves.Presents w.outside.net w.outside.codec m.now rk addr j p r.0
            → Guarded (checking k w rk addr r server s)
        by_check (refused r, registry) server there shown = ((p, there, refl, inl refl), g)
        by_check (passed change, registry) server there shown = (
          (p, there, refl, inl refl),
          All-append (Presents j p.uuid T) s.registrations
              (record { rk = rk; addr = addr; change = change }) g
              (λ is. (shown is, b (in_two rk is (shown is)))),
        )

    finishes-Guarded :
        (m : Moment) (n : ℕ) (o : Option Registration) (s : System)
        → get_elem? s.registrations n ≡ o
        → All (Presents j p.uuid T) s.registrations
        → get_in_memory j (peers_of s) ≡ some p
        → Guarded (finishes k w m n o s)
    finishes-Guarded m n none s e g h = ((p, h, refl, inl refl), g)
    finishes-Guarded m n (some r) s e g h =
        let mine : Presents j p.uuid T r =
          All-get_elem? (Presents j p.uuid T) s.registrations n g e in
        let (q, found, uuid, key) =
          finish_registration_keeps w.outside.net w.outside.codec m.now r.rk r.addr j p m.new_guid
            r.change s.server.registry (λ is. (mine is).0) h in
        (
          (q, found, uuid, elim key [ inl same ↦ inl same | inr (is, _) ↦ inr (mine is).1 ]),
          All-remove_at (Presents j p.uuid T) n s.registrations g,
        )

    pub perform-Guarded :
        (e : Event) (s : System)
        → is_empty p.uuid ≡ false
        → Brings e
        → All (Presents j p.uuid T) s.registrations
        → get_in_memory j (peers_of s) ≡ some p
        → Guarded (perform k w e s)
    unfolding perform
    perform-Guarded accepted s full b g h = ((p, h, refl, inl refl), g)
    perform-Guarded (tcp_message n m msg addr ws sink) s full b g h =
        (told-Keeps n m msg addr ws sink (get_elem? s.clones n) s full b h, g)
    perform-Guarded (tcp_closed addr sink) s full b g h = (
      unmoved (ap (λ r. r.pm) (close-registry k w.outside addr w.key (conn_of sink s.server))) h,
      g,
    )
    perform-Guarded (packet m msg addr) s full b g h =
        let (q, found, uuid, key) =
          Dispatch.handle_udp_keeps w.outside.net w.outside.codec w.valid m.now m.new_guid j p msg
            addr (udp_view s) full h in
        ((q, found, uuid, elim key [ inl e ↦ inl e | inr r ↦ inr (b (udp_Registers r)) ]), g)
    perform-Guarded (registration_starts m rk addr sink) s full b g h =
        starts-Guarded m rk addr sink s full b g h
    perform-Guarded (registration_ends m n) s full b g h =
        finishes-Guarded m n (get_elem? s.registrations n) s refl g h
    perform-Guarded (second_port now addr a) s full b g h =
        (unmoved (handle_listener2-Same w.is_ip now w.outside.net addr a s.server).0 h, g)
    perform-Guarded data_received s full b g h =
        (unmoved (receives-pm s.rx s) h, subst AllPresent (sym (receives-registrations s.rx s)) g)
    perform-Guarded timer_ticks s full b g h =
        (unmoved (ticks-pm s) h, subst AllPresent (sym (ticks-registrations s)) g)
    perform-Guarded (check_ends connects order) s full b g h = (
      unmoved (ends-pm connects order s.checks s) h,
      subst AllPresent (sym (ends-registrations connects order s.checks s)) g,
    )
    perform-Guarded (account_call call) s full b g h = ((p, h, refl, inl refl), g)
