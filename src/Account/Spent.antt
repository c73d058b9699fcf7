-- ===== src/Account/Spent.antt =====
-- A ticket that is gone stays gone until it is issued again (src/account/store.rs).
use openuu_server.Prelude.{
  ℕ, String, Bool, false, true, List, [], ◌∷◌, ◌≡◌, ◌≢◌, ap, arith, keep, any, not, leb, Bytes,
  Bytes-discrete,
}
use openuu_server.Prelude.Table.{All, has_key, any-keep, count-any}
use openuu_server.Account.Tables.{RelayTicket, Accounts, Result, ok, err}
use openuu_server.Account.Invariant.{
  Call, creates_user, sets_password, sets_enabled, deletes_user, revokes, logs_in, tickets, redeems,
  polls, wakes, step, run, WellFormed,
}
use openuu_server.Account.Wol.Apart.{poll-Apart, wake-Apart}
use openuu_server.Account.Tickets.{no_key→no_test, redeem-true, redeemed_gone}
use openuu_server.Account.Api.{is_true, redeem_ticket}
use openuu_server.Account.Store.{
  Crypto, digest, owned_by, is_redeemable, revoke_user, create_user, set_password, set_enabled,
  delete_user, login, ticket, redeem, revoke,
}

-- no ticket with this hash
abbrev pub Gone : Bytes → Accounts → Type 0
Gone h db = any (has_key Bytes-discrete (λ (t : RelayTicket). t.hash) h) db.relay_tickets ≡ false

module _ (c : Crypto) where
  -- the call issues no ticket with this hash
  abbrev pub Spares : Bytes → Call → Type 0
  Spares h (tickets now new token id) = digest c new ≢ h
  Spares h (creates_user salt name password) = Unit
  Spares h (sets_password salt name password) = Unit
  Spares h (sets_enabled name enabled) = Unit
  Spares h (deletes_user name) = Unit
  Spares h (revokes token) = Unit
  Spares h (logs_in now token name password) = Unit
  Spares h (redeems now t id) = Unit
  Spares h (polls now bearer id peers) = Unit
  Spares h (wakes now bearer target) = Unit

  module _ (h : Bytes) (db : Accounts) (gone : Gone h db) where
    after_keep :
        (p : RelayTicket → Bool)
        → any (has_key Bytes-discrete (λ (t : RelayTicket). t.hash) h) (keep p db.relay_tickets)
          ≡ false
    after_keep p =
        any-keep p (has_key Bytes-discrete (λ (t : RelayTicket). t.hash) h) db.relay_tickets gone

    step-Gone : (call : Call) → Spares h call → Gone h (step c call db)
    unfolding step create_user set_password set_enabled delete_user revoke revoke_user login ticket
        redeem any
    step-Gone (creates_user salt name password) s = ground arith
    step-Gone (sets_password salt name password) s =
        ground (arith, after_keep (λ t. not (owned_by name db.account_sessions t.session_hash)))
    step-Gone (sets_enabled name enabled) s =
        ground (arith, after_keep (λ t. not (owned_by name db.account_sessions t.session_hash)))
    step-Gone (deletes_user name) s =
        ground (arith, after_keep (λ t. not (owned_by name db.account_sessions t.session_hash)))
    step-Gone (revokes token) s = ground arith
    step-Gone (logs_in now token name password) s = ground arith
    step-Gone (tickets now new token id) s =
        ground (arith, after_keep (λ t. not (leb t.expires now)))
    step-Gone (redeems now t id) s =
        ground (arith, after_keep (λ r. not (is_redeemable db now (digest c t) id r)))
    step-Gone (polls now bearer id peers) s = rw (poll-Apart c now bearer id peers db).tickets gone
    step-Gone (wakes now bearer target) s = rw (wake-Apart c now bearer target db).tickets gone

  run-Gone :
      (h : Bytes) (calls : List Call) (db : Accounts)
      → Gone h db
      → All (Spares h) calls
      → Gone h (run c calls db)
  unfolding run
  run-Gone h [] db gone s = gone
  run-Gone h (call ∷ calls) db gone s =
      run-Gone h calls (step c call db) (step-Gone h db gone call s.0) s.1

  Gone-refused :
      (later : ℕ) (t id : String) (db : Accounts)
      → Gone (digest c t) db
      → (redeem_ticket c later t id db).0 ≡ false
  unfolding redeem_ticket redeem
  Gone-refused later t id db gone = ground (
    arith,
    count-any (is_redeemable db later (digest c t) id) db.relay_tickets
        (no_key→no_test c db later t id db.relay_tickets gone),
  )

  true_ok : (r : Result Bool) → is_true r ≡ true → r ≡ ok true
  true_ok (ok b) h = ap ok h
  true_ok (err e) h = cc

  redeemed-Gone :
      (now : ℕ) (t id : String) (db : Accounts)
      → WellFormed db
      → (redeem_ticket c now t id db).0 ≡ true
      → Gone (digest c t) (redeem c now t id db).1
  unfolding redeem_ticket
  redeemed-Gone now t id db w said_yes =
      let r = redeem c now t id db in
      let (a, e, d) = redeem-true c now t id w (ap (λ o. (o, r.1)) (true_ok r.0 said_yes)) in
      rw d (redeemed_gone c w now t id e)

  -- Once a ticket was redeemed on well-formed tables, every later redemption of it is refused, for
  -- whatever relay and whatever calls come between, as long as none of them issues this ticket anew.
  pub redeem_ticket-run :
      (now later : ℕ) (t id id' : String) (calls : List Call) (db : Accounts)
      → WellFormed db
      → (redeem_ticket c now t id db).0 ≡ true
      → All (Spares (digest c t)) calls
      → (redeem_ticket c later t id' (run c calls (redeem_ticket c now t id db).1)).0 ≡ false
  unfolding redeem_ticket
  redeem_ticket-run now later t id id' calls db w said_yes spared =
      Gone-refused later t id' (run c calls (redeem c now t id db).1) (
        run-Gone (digest c t) calls (redeem c now t id db).1 (redeemed-Gone now t id db w said_yes)
          spared)
