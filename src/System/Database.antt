-- ===== src/System/Database.antt =====
-- The database of the accounts while hbbs runs (`io_loop` of src/rendezvous_server/io.rs and
-- src/account/store.rs).
use openuu_server.Prelude.{
  ℕ, String, Option, none, some, List, [], ◌∷◌, ◌≡◌, ◌⊎◌, inl, inr, refl, ap, ◌∙◌, Bool, arith,
  get_elem?, ◌||◌, is_empty, Bool-cases,
}
use openuu_server.Rendezvous.Register.{RegisterPk, Registry}
use openuu_server.Rendezvous.Register.Halves.{Checked, refused, passed, check_registration}
use openuu_server.Rendezvous.Tcp.Sending.{move_to_peers-Quiet}
use openuu_server.Net.{SocketAddr}
use openuu_server.Account.Tables.{Accounts}
use openuu_server.Account.Invariant.{Call, tickets, step, run}
use openuu_server.Rendezvous.Console.{Data}
use openuu_server.Rendezvous.Tcp.Wire.{TcpMessage, TcpServer, Conn, Moment, at, move_to_peers}
use openuu_server.Rendezvous.Tcp.Issuing.{Issues, handle_tcp-Issues}
use openuu_server.Rendezvous.Tcp.Connection.{Codec, close, forget_punch}
use openuu_server.System.{
  System, Clone, Registration, Event, accepted, tcp_message, tcp_closed, packet,
  registration_starts, registration_ends, second_port, data_received, timer_ticks, check_ends,
  account_call, World, conn_of, as_clone, told, checking, starts, finishes, receives, ends, perform,
  perform_all,
}
use openuu_server.System.Console.{handle_data-Same, handle_listener2-Same}

abbrev pub accounts_of : System → Accounts
accounts_of s = s.server.accounts

-- The calls of the account service that an event can stand for: those that are made, and for a TCP
-- message that of a ticket, the new one of its moment.
pub data MayCall : Event → Call → Type 0 where
  issues :
      {n : ℕ} {m : Moment} {msg : TcpMessage} {addr : SocketAddr} {ws : Bool} {sink : Option ℕ}
      (token uuid : String)
      → MayCall (tcp_message n m msg addr ws sink) (tickets m.unix_now m.new_ticket token uuid)
  is_made : {call : Call} → MayCall (account_call call) call

-- The calls are those of some of the events, in their order.
pub data Calls : List Event → List Call → Type 0 where
  none_left : Calls [] []
  silent : {e : Event} {es : List Event} {calls : List Call} → Calls es calls → Calls (e ∷ es) calls
  makes :
      {e : Event} {es : List Event} {call : Call} {calls : List Call}
      → MayCall e call
      → Calls es calls
      → Calls (e ∷ es) (call ∷ calls)

module _ {ℓ} {Enc : Type ℓ} (k : Codec Enc) (w : World) where
  abbrev Steps : Event → Accounts → Accounts → Type 0
  Steps e db db' =
      (db' ≡ db) ⊎ ((call : Call) × MayCall e call × (db' ≡ step w.outside.crypto call db))

  close-accounts :
      (addr : SocketAddr) (c : Conn)
      → (close k w.outside addr w.key c).server.accounts ≡ c.server.accounts
  unfolding close
  close-accounts addr c = by_sink c.sink
    where
      by_sink :
          (o : Option ℕ)
          → (forget_punch k w.outside addr w.key o c.server).accounts ≡ c.server.accounts
      by_sink none = refl
      by_sink (some n) = refl

  receives-accounts :
      (rx : List Data) (s : System) → accounts_of (receives k w rx s) ≡ accounts_of s
  receives-accounts [] s = refl
  receives-accounts (d ∷ rx) s = (handle_data-Same w.valid d s.server).1

  ends-accounts :
      (connects : String → Bool) (order : List String → List String) (checks : List (List String))
      (s : System)
      → accounts_of (ends k w connects order checks s) ≡ accounts_of s
  ends-accounts connects order [] s = refl
  ends-accounts connects order (rs ∷ checks) s = refl

  issued :
      (n : ℕ) (m : Moment) (msg : TcpMessage) (addr : SocketAddr) (ws : Bool) (sink : Option ℕ)
      {db db' : Accounts}
      → Issues (at m w.outside) db db'
      → Steps (tcp_message n m msg addr ws sink) db db'
  unfolding step
  issued n m msg addr ws sink (inl e) = inl e
  issued n m msg addr ws sink (inr (token, uuid, e)) =
      inr (tickets m.unix_now m.new_ticket token uuid, issues token uuid, e)

  told-Steps :
      (n : ℕ) (m : Moment) (msg : TcpMessage) (addr : SocketAddr) (ws : Bool) (sink : Option ℕ)
      (o : Option Clone) (s : System)
      → Steps
          (tcp_message n m msg addr ws sink)
          (accounts_of s)
          (told k w m msg addr ws sink o s.server).accounts
  told-Steps n m msg addr ws sink none s = inl refl
  told-Steps n m msg addr ws sink (some c) s =
      issued n m msg addr ws sink
        (handle_tcp-Issues (at m w.outside) addr msg w.key ws (conn_of sink (as_clone c s.server)))

  starts-accounts :
      (m : Moment) (rk : RegisterPk) (addr : SocketAddr) (sink : Option ℕ) (s : System)
      → accounts_of (starts k w m rk addr sink s) ≡ accounts_of s
  starts-accounts m rk addr sink s = elim (Bool-cases (is_empty rk.uuid || is_empty rk.pk)) [
    | inl bad ↦ rw bad refl
    | inr good ↦
        let server = (move_to_peers (at m w.outside) addr (conn_of sink s.server)).server in
        rw good (
          by_check (check_registration w.outside.net w.outside.codec m.now rk addr server.registry)
            server
          ∙ (move_to_peers-Quiet (at m w.outside) addr (conn_of sink s.server)).accounts)
  ]
    where
      by_check :
          (r : Checked × Registry) (server : TcpServer)
          → accounts_of (checking k w rk addr r server s) ≡ server.accounts
      by_check (refused r, registry) server = refl
      by_check (passed change, registry) server = refl

  finishes-accounts :
      (m : Moment) (n : ℕ) (o : Option Registration) (s : System)
      → accounts_of (finishes k w m n o s) ≡ accounts_of s
  finishes-accounts m n none s = refl
  finishes-accounts m n (some r) s = refl

  perform-Steps : (e : Event) (s : System) → Steps e (accounts_of s) (accounts_of (perform k w e s))
  unfolding perform
  perform-Steps accepted s = inl refl
  perform-Steps (tcp_message n m msg addr ws sink) s =
      told-Steps n m msg addr ws sink (get_elem? s.clones n) s
  perform-Steps (registration_starts m rk addr sink) s = inl (starts-accounts m rk addr sink s)
  perform-Steps (registration_ends m n) s =
      inl (finishes-accounts m n (get_elem? s.registrations n) s)
  perform-Steps (tcp_closed addr sink) s = inl (close-accounts addr (conn_of sink s.server))
  perform-Steps (packet m msg addr) s = inl refl
  perform-Steps (second_port now addr a) s =
      inl (handle_listener2-Same w.is_ip now w.outside.net addr a s.server).1
  perform-Steps data_received s = inl (receives-accounts s.rx s)
  perform-Steps timer_ticks s = inl (ground arith)
  perform-Steps (check_ends connects order) s = inl (ends-accounts connects order s.checks s)
  perform-Steps (account_call call) s = inr (call, is_made, refl)

  -- In every run of hbbs and the account service, wake on LAN included, event by event: the accounts,
  -- sessions, tickets and wake requests are those that the account service alone reaches by calls
  -- that the events stand for, in the order of the events. hbbs writes to them only by `ticket`, and
  -- at most once in a message.
  pub perform_all-run :
      (es : List Event) (s : System)
      → (calls : List Call) × Calls es calls
        × (accounts_of (perform_all k w es s) ≡ run w.outside.crypto calls (accounts_of s))
  unfolding perform_all run
  perform_all-run [] s = ([], none_left, refl)
  perform_all-run (e ∷ es) s =
      let s₁ = perform k w e s in
      let (calls, from, is) = perform_all-run es s₁ in
      elim (perform-Steps e s) [
        | inl same ↦ (calls, silent from, is ∙ ap (run w.outside.crypto calls) same)
        | inr (call, may, made) ↦
            (call ∷ calls, makes may from, is ∙ ap (run w.outside.crypto calls) made)
      ]
