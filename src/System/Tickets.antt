-- ===== src/System/Tickets.antt =====
-- Relay tickets while hbbs, hbbr and the account service share the database (src/account/store.rs and
-- the events of src/rendezvous_server/io.rs).
use openuu_server.Prelude.{ℕ, String, Bytes, List, ◌≡◌, ◌≢◌, true, false, ap, ◌∙◌}
use openuu_server.Prelude.Table.{All}
use openuu_server.Account.Store.{digest}
use openuu_server.Account.Api.{redeem_ticket}
use openuu_server.Account.Invariant.{Call, redeems, step, WellFormed}
use openuu_server.Account.Spent.{Spares, redeem_ticket-run}
use openuu_server.Rendezvous.Tcp.Connection.{Codec}
use openuu_server.System.{
  System, Event, accepted, tcp_message, tcp_closed, packet, registration_starts, registration_ends,
  second_port, data_received, timer_ticks, check_ends, account_call, World, perform, perform_all,
}
use openuu_server.System.Database.{
  accounts_of, MayCall, issues, is_made, Calls, none_left, silent, makes, perform_all-run,
}

module _ {ℓ} {Enc : Type ℓ} (k : Codec Enc) (w : World) where
  -- the event brings no new ticket with this hash
  abbrev pub Avoids : Bytes → Event → Type 0
  Avoids h (tcp_message n m msg addr ws sink) = digest w.outside.crypto m.new_ticket ≢ h
  Avoids h (account_call call) = Spares w.outside.crypto h call
  Avoids h (tcp_closed addr sink) = Unit
  Avoids h accepted = Unit
  Avoids h (packet m msg addr) = Unit
  Avoids h (registration_starts m rk addr sink) = Unit
  Avoids h (registration_ends m n) = Unit
  Avoids h (second_port now addr a) = Unit
  Avoids h data_received = Unit
  Avoids h timer_ticks = Unit
  Avoids h (check_ends connects order) = Unit

  Avoids-Spares :
      (h : Bytes) {e : Event} {call : Call}
      → MayCall e call
      → Avoids h e
      → Spares w.outside.crypto h call
  Avoids-Spares h (issues token uuid) a = a
  Avoids-Spares h is_made a = a

  Calls-Spares :
      (h : Bytes) {es : List Event} {calls : List Call}
      → Calls es calls
      → All (Avoids h) es
      → All (Spares w.outside.crypto h) calls
  Calls-Spares h none_left a = tt
  Calls-Spares h (silent from) a = Calls-Spares h from a.1
  Calls-Spares h (makes may from) a = (Avoids-Spares h may a.0, Calls-Spares h from a.1)

  -- A relay ticket is good for one session, in hbbs, hbbr and the account service together: after a
  -- redemption that said yes on well-formed accounts, whatever messages, packets, commands and calls
  -- follow, every later redemption of the ticket says no, for whatever relay, as long as none of
  -- them brings a new ticket with its hash.
  pub perform_all-redeem_ticket :
      (es : List Event) (s : System) (now later : ℕ) (t id id' : String)
      → WellFormed (accounts_of s)
      → (redeem_ticket w.outside.crypto now t id (accounts_of s)).0 ≡ true
      → All (Avoids (digest w.outside.crypto t)) es
      → let s' = perform_all k w es (perform k w (account_call (redeems now t id)) s) in
        (redeem_ticket w.outside.crypto later t id' (accounts_of s')).0 ≡ false
  unfolding perform step redeem_ticket
  perform_all-redeem_ticket es s now later t id id' h said_yes avoided =
      let (calls, from, is) =
        perform_all-run k w es (perform k w (account_call (redeems now t id)) s) in
      ap (λ db. (redeem_ticket w.outside.crypto later t id' db).0) is
      ∙ redeem_ticket-run w.outside.crypto now later t id id' calls (accounts_of s) h said_yes
          (Calls-Spares (digest w.outside.crypto t) from avoided)
