-- ===== src/System/Handing/Kept.antt =====
-- What the events keep of the relay servers (`io_loop` of src/rendezvous_server/io.rs).
use openuu_server.Prelude.{
  ℕ, String, Bool, true, Option, none, some, List, [], ◌∷◌, ◌≡◌, inl, inr, refl, keep, ltb, length,
  is_empty, Bool-cases, ◌||◌, get_elem?,
}
use openuu_server.Rendezvous.Register.{RegisterPk, Registry}
use openuu_server.Rendezvous.Register.Halves.{Checked, refused, passed, check_registration}
use openuu_server.Prelude.Table.{All, All-append}
use openuu_server.Net.{SocketAddr}
use openuu_server.Rendezvous.RelayServers.{parse_relay_servers, use_relay_servers}
use openuu_server.Rendezvous.RelayServers.Check.{check_relay_servers, with_port}
use openuu_server.Rendezvous.Console.{Data, relay_servers0, relay_servers, handle_data}
use openuu_server.Rendezvous.SecondListener.{handle_listener2}
use openuu_server.Rendezvous.Tcp.Wire.{TcpServer, TcpMessage, Moment, Conn, at, move_to_peers}
use openuu_server.Rendezvous.Tcp.Connection.{Codec, close, forget_punch}
use openuu_server.Rendezvous.Tcp.Preserving.{move_peers_kept}
use openuu_server.System.{
  System, Clone, Registration, Event, accepted, tcp_message, tcp_closed, packet,
  registration_starts, registration_ends, second_port, data_received, timer_ticks, check_ends,
  account_call, World, conn_of, clone_of, told, checking, starts, finishes, sent, reached, receives,
  ticks, ends, perform, perform_all,
}
use openuu_server.System.Handing.Console.{text_valid, listener2-Unmoved}
use openuu_server.System.Handing.{
  AllValid, DataValid, ServersValid, keep-Valid, get_servers-AllValid, ServersValid-IsKept,
}

-- the tasks of a check that end are those of its servers
abbrev pub Only : (List String → List String) → Type 0
Only order =
    (p : String → Bool) (rs : List String)
    → All (λ x. p x ≡ true) rs
    → All (λ x. p x ≡ true) (order rs)

abbrev pub Ordered : Event → Type 0
Ordered (check_ends connects order) = Only order
Ordered accepted = Unit
Ordered (registration_starts m rk addr sink) = Unit
Ordered (registration_ends m n) = Unit
Ordered (tcp_message n m msg addr ws sink) = Unit
Ordered (tcp_closed addr sink) = Unit
Ordered (packet m msg addr) = Unit
Ordered (second_port now addr a) = Unit
Ordered data_received = Unit
Ordered timer_ticks = Unit
Ordered (account_call call) = Unit

module _ {ℓ} {Enc : Type ℓ} (k : Codec Enc) (w : World) where
  abbrev pub ChecksValid : List (List String) → Type 0
  ChecksValid = All (AllValid w.valid)

  abbrev pub RxValid : List Data → Type 0
  RxValid = All (DataValid w.valid)

  abbrev pub CloneValid : Clone → Type 0
  CloneValid c = AllValid w.valid c.relay_servers0 × AllValid w.valid c.relay_servers

  abbrev pub ClonesValid : List Clone → Type 0
  ClonesValid = All CloneValid

  abbrev pub SystemValid : System → Type 0
  SystemValid s =
      ServersValid w.valid s.server × ChecksValid s.checks × RxValid s.rx × ClonesValid s.clones

  handle_data-ServersValid :
      (d : Data) (s : TcpServer)
      → DataValid w.valid d
      → ServersValid w.valid s
      → ServersValid w.valid (handle_data w.valid d s)
  unfolding handle_data parse_relay_servers use_relay_servers
  handle_data-ServersValid (relay_servers0 rs) s d h =
      (get_servers-AllValid w.valid rs, get_servers-AllValid w.valid rs)
  handle_data-ServersValid (relay_servers rs) s d h = (h.0, d)

  receives-SystemValid :
      (rx : List Data) (s : System) → RxValid rx → SystemValid s → SystemValid (receives k w rx s)
  receives-SystemValid [] s r h = h
  receives-SystemValid (d ∷ rx) s r (servers, checks, rx_valid, clones) =
      (handle_data-ServersValid d s.server r.0 servers, checks, r.1, clones)

  reached_valid :
      (connects : String → Bool) (rs : List String) (rx : List Data)
      → AllValid w.valid rs
      → RxValid rx
      → RxValid (sent (reached (check_relay_servers w.relay_port connects rs)) rx)
  unfolding check_relay_servers
  reached_valid connects rs rx h r =
      let found = keep (λ x. connects (with_port w.relay_port x)) rs in
      elim (Bool-cases (is_empty found)) [
        | inl nobody ↦ rw nobody r
        | inr somebody ↦ rw somebody (
            All-append (DataValid w.valid) rx (relay_servers found) r
              (keep-Valid w.valid (λ x. connects (with_port w.relay_port x)) rs h))
      ]

  ends-SystemValid :
      (connects : String → Bool) (order : List String → List String) (checks : List (List String))
      (s : System)
      → Only order
      → ChecksValid checks
      → SystemValid s
      → SystemValid (ends k w connects order checks s)
  ends-SystemValid connects order [] s only c h = h
  ends-SystemValid connects order (rs ∷ checks) s only c (servers, checks_valid, rx, clones) =
      (servers, c.1, reached_valid connects (order rs) s.rx (only w.valid rs c.0) rx, clones)

  ticks-SystemValid : (s : System) → SystemValid s → SystemValid (ticks k w s)
  ticks-SystemValid s (servers, checks, rx, clones) =
      elim (Bool-cases (ltb 1 (length s.server.relays.relay_servers0))) [
        | inl several ↦ rw several (
          servers,
          All-append (AllValid w.valid) s.checks s.server.relays.relay_servers0 checks servers.0,
          rx,
          clones,
        )
        | inr few ↦ rw few (servers, checks, rx, clones)
      ]

  close-relays :
      (addr : SocketAddr) (c : Conn)
      → (close k w.outside addr w.key c).server.relays ≡ c.server.relays
  unfolding close
  close-relays addr c = by_sink c.sink
    where
      by_sink :
          (o : Option ℕ) → (forget_punch k w.outside addr w.key o c.server).relays ≡ c.server.relays
      by_sink none = refl
      by_sink (some n) = refl

  told-ServersValid :
      (m : Moment) (msg : TcpMessage) (addr : SocketAddr) (ws : Bool) (sink : Option ℕ)
      (o : Option Clone) (s : TcpServer)
      → ServersValid w.valid s
      → ServersValid w.valid (told k w m msg addr ws sink o s)
  told-ServersValid m msg addr ws sink none s h = h
  told-ServersValid m msg addr ws sink (some c) s h = h

  starts-SystemValid :
      (m : Moment) (rk : RegisterPk) (addr : SocketAddr) (sink : Option ℕ) (s : System)
      → SystemValid s
      → SystemValid (starts k w m rk addr sink s)
  starts-SystemValid m rk addr sink s (servers, checks, rx, clones) =
      elim (Bool-cases (is_empty rk.uuid || is_empty rk.pk)) [
        | inl bad ↦ rw bad (servers, checks, rx, clones)
        | inr good ↦
            let x = at m w.outside in
            let server = (move_to_peers x addr (conn_of sink s.server)).server in
            rw good (
              by_check (check_registration x.net x.codec m.now rk addr server.registry) server (
                move_peers_kept x (ServersValid w.valid) (ServersValid-IsKept w.valid x) addr
                  (conn_of sink s.server) servers))
      ]
    where
      by_check :
          (r : Checked × Registry) (server : TcpServer)
          → ServersValid w.valid server
          → SystemValid (checking k w rk addr r server s)
      by_check (refused r, registry) server h = (h, checks, rx, clones)
      by_check (passed change, registry) server h = (h, checks, rx, clones)

  finishes-SystemValid :
      (m : Moment) (n : ℕ) (o : Option Registration) (s : System)
      → SystemValid s
      → SystemValid (finishes k w m n o s)
  finishes-SystemValid m n none s h = h
  finishes-SystemValid m n (some r) s h = h

  perform-SystemValid :
      (e : Event) (s : System) → Ordered e → SystemValid s → SystemValid (perform k w e s)
  unfolding perform
  perform-SystemValid accepted s o (servers, checks, rx, clones) =
      (servers, checks, rx, All-append CloneValid s.clones (clone_of s.server) clones servers)
  perform-SystemValid (tcp_message n m msg addr ws sink) s o (servers, checks, rx, clones) = (
    told-ServersValid m msg addr ws sink (get_elem? s.clones n) s.server servers,
    checks,
    rx,
    clones,
  )
  perform-SystemValid (registration_starts m rk addr sink) s o h =
      starts-SystemValid m rk addr sink s h
  perform-SystemValid (registration_ends m n) s o h =
      finishes-SystemValid m n (get_elem? s.registrations n) s h
  perform-SystemValid (tcp_closed addr sink) s o (servers, checks, rx, clones) =
      (rw (close-relays addr (conn_of sink s.server)) servers, checks, rx, clones)
  perform-SystemValid (packet m msg addr) s o h = h
  perform-SystemValid (second_port now addr a) s o (servers, checks, rx, clones) =
      let r = handle_listener2 w.outside.net w.is_ip now addr a s.server in
      let (texts, r₀, r₁) = listener2-Unmoved w.valid w.is_ip now w.outside.net addr a s.server in
      (rw (r₀, r₁) servers, checks, text_valid w.valid r.1 s.rx texts rx, clones)
  perform-SystemValid data_received s o h =
      let (servers, checks, rx, clones) = h in receives-SystemValid s.rx s rx h
  perform-SystemValid timer_ticks s o h = ticks-SystemValid s h
  perform-SystemValid (check_ends connects order) s o h =
      ends-SystemValid connects order s.checks s o h.1 h
  perform-SystemValid (account_call call) s o h = h

  pub perform_all-SystemValid :
      (es : List Event) (s : System)
      → All Ordered es
      → SystemValid s
      → SystemValid (perform_all k w es s)
  unfolding perform_all
  perform_all-SystemValid [] s o h = h
  perform_all-SystemValid (e ∷ es) s o h =
      perform_all-SystemValid es (perform k w e s) o.1 (perform-SystemValid e s o.0 h)
