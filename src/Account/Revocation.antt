-- ===== src/Account/Revocation.antt =====
-- What ends the sessions of an account: `set_password`, `set_enabled(false)` and `delete_user` of
-- src/account/store.rs.
use Prim.Native.String.{len}
use openuu_server.Prelude.{
  ℕ, String, Bool, true, false, not, ◌&&◌, Option, some, none, ◌≡◌, refl, sym, ap, ◌∙◌, ◌≢◌, arith,
  keep, any, find?, map, eqb, Bytes-discrete, if◌then◌else◌,
}
use openuu_server.Prelude.Table.{
  any-keep_deleted, any-keep_spared, find?-keep-eq-some, find?-keep_same, any-map_same,
}
use openuu_server.Account.Tables.{Account, Session, RelayTicket, Accounts, ok}
use openuu_server.Account.Store.{
  Crypto, digest, named, is_live, find_session, user, set_password, set_enabled, delete_user,
  string_eq, owned_by, session_name,
}

abbrev enabled_as : String → Account → Bool
enabled_as n a = named n a && a.enabled

-- The accounts changed, if at all, in the rows of `name`; its sessions and their tickets are gone,
-- and nothing else of either is.
record Revoked (name : String) (db db' : Accounts) : Type 0 where
  kept_available : db'.available ≡ db.available
  others :
      (n : String) → n ≢ name → any (enabled_as n) db'.accounts ≡ any (enabled_as n) db.accounts
  sessions : db'.account_sessions ≡ keep (λ s. not (string_eq s.name name)) db.account_sessions
  tickets :
      db'.relay_tickets
      ≡ keep (λ t. not (owned_by name db.account_sessions t.session_hash)) db.relay_tickets

module _ (c : Crypto) where
  set_password-Revoked :
      (db : Accounts) {db' : Accounts} (salt name password : String)
      → set_password c salt name password db ≡ (ok tt, db')
      → Revoked name db db'
  unfolding set_password
  set_password-Revoked db {db'} salt name password h = record {
    kept_available = ground arith;
    others = λ n e.
        ap (λ x. any (enabled_as n) x.accounts) d
        ∙ any-map_same (enabled_as n)
            (λ a. if named name a then record a { password_hash = c.hash salt password } else a)
            db.accounts (λ a. ground arith);
    sessions = ground arith;
    tickets = ground arith;
  }
    where
      d : db' ≡ record db {
        accounts =
            map
              (λ a. if named name a then record a { password_hash = c.hash salt password } else a)
              db.accounts;
        account_sessions = keep (λ s. not (string_eq s.name name)) db.account_sessions;
        relay_tickets =
            keep (λ t. not (owned_by name db.account_sessions t.session_hash)) db.relay_tickets;
      }
      d = ground arith

  set_enabled-Revoked :
      (db : Accounts) {db' : Accounts} (name : String)
      → set_enabled c name false db ≡ (ok tt, db')
      → Revoked name db db'
  unfolding set_enabled
  set_enabled-Revoked db {db'} name h = record {
    kept_available = ground arith;
    others = λ n e.
        ap (λ x. any (enabled_as n) x) d
        ∙ any-map_same (enabled_as n)
            (λ a. if named name a then record a { enabled = false } else a) db.accounts
            (λ a. ground arith);
    sessions = ground arith;
    tickets = ground arith;
  }
    where
      d :
          db'.accounts
          ≡ map (λ a. if named name a then record a { enabled = false } else a) db.accounts
      d = ground arith

  delete_user-Revoked :
      (db : Accounts) {db' : Accounts} (name : String)
      → delete_user c name db ≡ (ok tt, db')
      → Revoked name db db'
  unfolding delete_user
  delete_user-Revoked db {db'} name h = record {
    kept_available = ground arith;
    others = λ n e.
        ap (λ x. any (enabled_as n) x) d
        ∙ any-keep_spared (λ (a : Account). not (named name a)) (enabled_as n) db.accounts
            (λ a f. ground arith);
    sessions = ground arith;
    tickets = ground arith;
  }
    where
      d : db'.accounts ≡ keep (λ a. not (named name a)) db.accounts
      d = ground arith

  -- One of the three calls that end the sessions of `name`, and it succeeded.
  pub data Ends (name : String) (db db' : Accounts) : Type 0 where
    by_password :
        (salt password : String)
        → set_password c salt name password db ≡ (ok tt, db')
        → Ends name db db'
    by_disabling : set_enabled c name false db ≡ (ok tt, db') → Ends name db db'
    by_deletion : delete_user c name db ≡ (ok tt, db') → Ends name db db'

  Ends-Revoked : {name : String} {db db' : Accounts} → Ends name db db' → Revoked name db db'
  Ends-Revoked {name} {db} (by_password salt password h) =
      set_password-Revoked db salt name password h
  Ends-Revoked {name} {db} (by_disabling h) = set_enabled-Revoked db name h
  Ends-Revoked {name} {db} (by_deletion h) = delete_user-Revoked db name h

  found_name :
      (o : Option Session) {n : String}
      → session_name c o ≡ some n
      → (s : Session) × (o ≡ some s) × (s.name ≡ n)
  found_name none h = cc
  found_name (some s) h = (s, refl, ground arith)

  user-some :
      (db : Accounts) (now : ℕ) (token : String) {n : String}
      → (user c now token db).0 ≡ ok (some n)
      → (s : Session) × (find_session c db now token ≡ some s)
        × (s.name ≡ n)
        × (len token ≡ 64)
        × (db.available ≡ true)
  unfolding user
  user-some db now token h =
      let (s, f, e) = found_name (find_session c db now token) (ground arith) in
      (s, f, e, ground arith, ground arith)

  user_found :
      (db : Accounts) (now : ℕ) (token : String) (s : Session)
      → find_session c db now token ≡ some s
      → len token ≡ 64
      → db.available ≡ true
      → (user c now token db).0 ≡ ok (some s.name)
  unfolding user
  user_found db now token s h l a = ground arith

  abbrev session_test : Accounts → ℕ → String → Session → Bool
  session_test db now token s =
      eqb Bytes-discrete s.token_hash (digest c token) && is_live db.accounts now s

  nobody :
      {name : String} {db db' : Accounts} (now : ℕ) (token : String)
      → Revoked name db db'
      → (user c now token db').0 ≢ ok (some name)
  nobody {name} {db} {db'} now token r h =
      let (s, f, e, _, _) = user-some db' now token h in
      let spared =
        find?-keep-eq-some (λ s. not (string_eq s.name name)) (session_test db' now token)
          db.account_sessions s (ap (find? (session_test db' now token)) (sym r.sessions) ∙ f) in
      ground arith

  others_stay :
      {name n : String} {db db' : Accounts} (now : ℕ) (token : String)
      → Revoked name db db'
      → n ≢ name
      → (user c now token db).0 ≡ ok (some n)
      → (user c now token db').0 ≡ ok (some n)
  others_stay {name} {n} {db} {db'} now token r other h =
      let (s, f, e, l, a) = user-some db now token h in
      let found =
        find?-keep_same (λ s. not (string_eq s.name name)) (session_test db now token)
          (session_test db' now token) db.account_sessions s
          (λ y spared. ground (arith, r.others y.name)) f (ground arith) in
      rw (← e) (
        user_found db' now token s (ap (find? (session_test db' now token)) r.sessions ∙ found) l
          (r.kept_available ∙ a))

  -- Once an account got a new password, was disabled or was deleted, no token that was ever issued
  -- names it, at any time, and no ticket of its sessions is left.
  pub Ends-user :
      {name : String} {db db' : Accounts} (now : ℕ) (token : String)
      → Ends name db db'
      → ((user c now token db').0 ≢ ok (some name))
        × (any (λ t. owned_by name db.account_sessions t.session_hash) db'.relay_tickets ≡ false)
  Ends-user {name} {db} {db'} now token h =
      let r = Ends-Revoked h in
      (
        nobody now token r,
        ap (any (λ (t : RelayTicket). owned_by name db.account_sessions t.session_hash)) r.tickets
            ∙ any-keep_deleted
                (λ (t : RelayTicket). not (owned_by name db.account_sessions t.session_hash))
                (λ t. owned_by name db.account_sessions t.session_hash) db.relay_tickets
                (λ t k. ground arith),
      )

  -- The tokens of every other account name it as before.
  Ends-user_other :
      {name n : String} {db db' : Accounts} (now : ℕ) (token : String)
      → Ends name db db'
      → n ≢ name
      → (user c now token db).0 ≡ ok (some n)
      → (user c now token db').0 ≡ ok (some n)
  Ends-user_other now token h other = others_stay now token (Ends-Revoked h) other
