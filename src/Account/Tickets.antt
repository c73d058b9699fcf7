-- ===== src/Account/Tickets.antt =====
-- Relay tickets (`ticket` and `redeem` of src/account/store.rs).
use Prim.Native.String.{len}
use openuu_server.Prelude.{
  ℕ, ◌+◌, String, Bool, true, false, not, ◌&&◌, List, some, ◌≡◌, ap, ◌∷◌, ◌∙◌, arith, keep, any,
  count, leb, ltb, eqb, if◌then◌else◌, Bytes-discrete, inl, inr, Bool-cases,
}
use openuu_server.Prelude.Table.{
  has_key, count-le-one, keep-deletes_key, keep_all, count-any, any-false_mono, any-keep_deleted,
}
use openuu_server.Account.Tables.{Session, RelayTicket, Accounts, ok}
use openuu_server.Account.Invariant.{WellFormed, ticket-WellFormed}
use openuu_server.Account.Store.{
  Crypto, digest, is_redeemable, has_live_session, is_live, ticket, redeem, revoke, string_eq,
}

module _ (c : Crypto) where
  module _ {db : Accounts} (w : WellFormed db) (now : ℕ) (t id : String) where
    abbrev test : RelayTicket → Bool
    test = is_redeemable db now (digest c t) id

    test_hash : (r : RelayTicket) → test r ≡ true → r.hash ≡ digest c t
    test_hash r h = ground arith

    redeemed_count : count test db.relay_tickets ≡ (if any test db.relay_tickets then 1 else 0)
    redeemed_count =
        count-le-one Bytes-discrete (λ (r : RelayTicket). r.hash) (digest c t) test db.relay_tickets
          w.tickets test_hash

    -- In well-formed tables that are available, for a ticket of 64 bytes, `redeem` says yes exactly
    -- when a stored ticket with this hash is bound to this relay, has not expired and belongs to a
    -- live session of an enabled account; then it deletes that ticket, and otherwise nothing
    -- changes.
    redeem-any :
        len t ≡ 64
        → db.available ≡ true
        → ((redeem c now t id db).0 ≡ ok (any test db.relay_tickets))
          × ((redeem c now t id db).1 ≡ (
              if any test db.relay_tickets
              then record db { relay_tickets = keep (λ r. not (test r)) db.relay_tickets }
              else db))
    unfolding redeem
    redeem-any l a = elim (Bool-cases (any test db.relay_tickets)) [
      | inl e ↦ (ground (arith, redeemed_count), ground arith)
      | inr e ↦ (ground (arith, redeemed_count), ground (arith, keep_all test db.relay_tickets))
    ]

    pub redeemed_gone :
        any test db.relay_tickets ≡ true
        → any
            (has_key Bytes-discrete (λ (r : RelayTicket). r.hash) (digest c t))
            (keep (λ r. not (test r)) db.relay_tickets)
          ≡ false
    redeemed_gone e =
        keep-deletes_key Bytes-discrete (λ (r : RelayTicket). r.hash) (digest c t) test
          db.relay_tickets w.tickets test_hash e

  pub no_key→no_test :
      (db : Accounts) (now : ℕ) (t id : String) (rows : List RelayTicket)
      → any (has_key Bytes-discrete (λ (r : RelayTicket). r.hash) (digest c t)) rows ≡ false
      → any (is_redeemable db now (digest c t) id) rows ≡ false
  no_key→no_test db now t id rows =
      any-false_mono (is_redeemable db now (digest c t) id)
        (has_key Bytes-discrete (λ (r : RelayTicket). r.hash) (digest c t)) rows
        (λ r h. ground arith)

  -- With no ticket of this hash `redeem` says no, and changes nothing.
  redeem_absent :
      (db : Accounts) (now : ℕ) (t id : String)
      → any (has_key Bytes-discrete (λ (r : RelayTicket). r.hash) (digest c t)) db.relay_tickets
        ≡ false
      → db.available ≡ true
      → redeem c now t id db ≡ (ok false, db)
  unfolding redeem
  redeem_absent db now t id h a =
      let e = no_key→no_test db now t id db.relay_tickets h in
      let q = is_redeemable db now (digest c t) id in
      ground (arith, keep_all q db.relay_tickets e, count-any q db.relay_tickets e)

  -- What a successful `redeem` was: its ticket is there, and is deleted.
  pub redeem-true :
      {db db' : Accounts} (now : ℕ) (t id : String)
      → WellFormed db
      → redeem c now t id db ≡ (ok true, db')
      → (db.available ≡ true)
        × (any (is_redeemable db now (digest c t) id) db.relay_tickets ≡ true)
        × (db' ≡ record db {
          relay_tickets = keep (λ r. not (is_redeemable db now (digest c t) id r)) db.relay_tickets;
        })
  unfolding redeem
  redeem-true {db} now t id w h =
      (ground arith, ground (arith, redeemed_count w now t id), ground arith)

  -- In well-formed tables a ticket is good for one redemption: whatever the relay and the time of
  -- the second call, it is refused, and changes nothing.
  redeem_once :
      {db db' : Accounts} (now later : ℕ) (t id id' : String)
      → WellFormed db
      → redeem c now t id db ≡ (ok true, db')
      → redeem c later t id' db' ≡ (ok false, db')
  redeem_once {db} {db'} now later t id id' w h =
      let (a, e, d) = redeem-true now t id w h in
      redeem_absent db' later t id' (rw d (redeemed_gone w now t id e)) (rw d a)

  abbrev pub new_row : ℕ → String → String → String → RelayTicket
  new_row now new token id = record {
    hash = digest c new;
    session_hash = digest c token;
    relay_id = id;
    expires = now + 60;
  }

  abbrev pub unexpired : ℕ → List RelayTicket → List RelayTicket
  unexpired now = keep (λ (t : RelayTicket). not (leb t.expires now))

  -- What a successful `ticket` did.
  pub ticket-some :
      (db : Accounts) {db' : Accounts} (now : ℕ) (new token id : String) {t : String}
      → ticket c now new token id db ≡ (ok (some t), db')
      → (t ≡ new)
        × (db.available ≡ true)
        × (any
              (has_key Bytes-discrete (λ (r : RelayTicket). r.hash) (digest c new))
              (unexpired now db.relay_tickets)
            ≡ false)
        × (db' ≡ record db {
          relay_tickets = new_row now new token id ∷ unexpired now db.relay_tickets;
        })
  unfolding ticket
  ticket-some db now new token id h = ground arith

  new_row_only :
      (db : Accounts) (now later : ℕ) (new token id id' : String) (rows : List RelayTicket)
      → any (has_key Bytes-discrete (λ (r : RelayTicket). r.hash) (digest c new)) rows ≡ false
      → any (is_redeemable db later (digest c new) id') (new_row now new token id ∷ rows)
        ≡ (string_eq id id' && ltb later (now + 60) && has_live_session db later (digest c token))
  unfolding any
  new_row_only db now later new token id id' rows h =
      ground (arith, no_key→no_test db later new id' rows h)

  -- In well-formed tables a ticket of 64 bytes that was just issued is accepted exactly for its
  -- relay, for less than a minute, and while the session that it was issued to is live.
  pub ticket-redeem :
      {db db' : Accounts} (now later : ℕ) (new token id id' : String) {t : String}
      → WellFormed db
      → len new ≡ 64
      → ticket c now new token id db ≡ (ok (some t), db')
      → (t ≡ new)
        × ((redeem c later t id' db').0
            ≡ ok (
                string_eq id id'
                && ltb later (now + 60)
                && has_live_session db' later (digest c token)))
  ticket-redeem {db} {db'} now later new token id id' {t} w l h =
      let (e, a, fresh, d) = ticket-some db now new token id h in
      let w' : WellFormed db' = rw (ap (λ x. x.1) h) at (ticket-WellFormed w c now new token id) in
      let a' : db'.available ≡ true = rw d a in
      let rows = ap (λ x. any (is_redeemable db' later (digest c new) id') x.relay_tickets) d in
      let only =
        new_row_only db' now later new token id id' (unexpired now db.relay_tickets) fresh in
      (e, rw e ((redeem-any w' later new id' l a').0 ∙ ap ok (rows ∙ only)))

  redeem_refused :
      (db : Accounts) (now : ℕ) (t id : String)
      → any (is_redeemable db now (digest c t) id) db.relay_tickets ≡ false
      → db.available ≡ true
      → (redeem c now t id db).0 ≡ ok false
  unfolding redeem
  redeem_refused db now t id e a =
      ground (arith, count-any (is_redeemable db now (digest c t) id) db.relay_tickets e)

  abbrev logged_out : String → Accounts → Accounts
  logged_out token db = record db {
    account_sessions =
        keep (λ s. not (eqb Bytes-discrete s.token_hash (digest c token))) db.account_sessions;
  }

  revoke_ok :
      (db : Accounts) {db' : Accounts} (token : String)
      → revoke c token db ≡ (ok tt, db')
      → db' ≡ logged_out token db
  unfolding revoke
  revoke_ok db token h = ground arith

  logged_out_dead :
      (db : Accounts) (now : ℕ) (token : String)
      → has_live_session (logged_out token db) now (digest c token) ≡ false
  logged_out_dead db now token =
      any-keep_deleted (λ (s : Session). not (eqb Bytes-discrete s.token_hash (digest c token)))
        (λ s. eqb Bytes-discrete s.token_hash (digest c token) && is_live db.accounts now s)
        db.account_sessions (λ s h. ground arith)

  -- Logging out kills a ticket that was issued to the session and is not yet used: at no time and
  -- for no relay is it accepted afterwards.
  revoke-redeem :
      (db : Accounts) {db₁ db₂ : Accounts} (now later : ℕ) (new token id id' : String) {t : String}
      → ticket c now new token id db ≡ (ok (some t), db₁)
      → revoke c token db₁ ≡ (ok tt, db₂)
      → (redeem c later t id' db₂).0 ≡ ok false
  revoke-redeem db {db₁} {db₂} now later new token id id' {t} h k =
      let (e, a, fresh, d) = ticket-some db now new token id h in
      let d' = revoke_ok db₁ token k in
      let rest = unexpired now db.relay_tickets in
      let only = new_row_only db₂ now later new token id id' rest fresh in
      let tickets : db₂.relay_tickets ≡ new_row now new token id ∷ rest = cc in
      let dead : has_live_session db₂ later (digest c token) ≡ false =
        rw d' (logged_out_dead db₁ later token) in
      rw e
        (redeem_refused db₂ later new id' (rw tickets (only ∙ ground (arith, dead))) (rw (d', d) a))
