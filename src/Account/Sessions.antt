-- ===== src/Account/Sessions.antt =====
-- Sessions (`login`, `user` and `revoke_user` of src/account/store.rs).
use Prim.Native.String.{len}
use openuu_server.Prelude.{
  ℕ, ◌+◌, String, true, false, not, ◌&&◌, List, Option, some, none, ◌≡◌, refl, ◌∷◌, arith, keep,
  any, find?, leb, ltb, eqb, if◌then◌else◌, Bytes-discrete,
}
use openuu_server.Prelude.Table.{has_key, any-false_mono, find?-none, find?-eq-some, find?-any}
use openuu_server.Account.Tables.{Account, Session, Accounts, ok}
use openuu_server.Account.Store.{
  Crypto, digest, named, is_live, find_enabled, user, login, verified,
}

module _ (c : Crypto) where
  abbrev new_session : ℕ → String → String → Session
  new_session now token name = record {
    token_hash = digest c token;
    name = name;
    expires = now + 86400;
  }

  abbrev pub unexpired : ℕ → List Session → List Session
  unexpired now = keep (λ (s : Session). not (leb s.expires now))

  found-verified :
      (password : String) (o : Option Account)
      → verified c password o ≡ true
      → (a : Account) × (o ≡ some a) × (c.verify password a.password_hash ≡ true)
  found-verified password none h = cc
  found-verified password (some a) h = (a, refl, h)

  -- What a successful login found, and what it did.
  login-some :
      (db : Accounts) {db' : Accounts} (now : ℕ) (token name password : String) {t : String}
      → login c now token name password db ≡ (ok (some t), db')
      → (a : Account) × (t ≡ token)
        × (find_enabled db name ≡ some a)
        × (c.verify password a.password_hash ≡ true)
        × (db.available ≡ true)
        × (any
              (has_key Bytes-discrete (λ (s : Session). s.token_hash) (digest c token))
              (unexpired now db.account_sessions)
            ≡ false)
        × (db' ≡ record db {
          account_sessions = new_session now token name ∷ unexpired now db.account_sessions;
        })
  unfolding login
  login-some db now token name password h =
      let (a, f, v) = found-verified password (find_enabled db name) (ground arith) in
      (a, ground arith, f, v, ground arith, ground arith, ground arith)

  -- A login that gives no token changes nothing.
  pub login-none :
      (db : Accounts) {db' : Accounts} (now : ℕ) (token name password : String)
      → login c now token name password db ≡ (ok none, db')
      → db' ≡ db
  unfolding login
  login-none db now token name password h = ground arith

  -- A login that gives a token was for an enabled account and with its password.
  login-verify :
      (db : Accounts) {db' : Accounts} (now : ℕ) (token name password : String) {t : String}
      → login c now token name password db ≡ (ok (some t), db')
      → (a : Account) × (find_enabled db name ≡ some a)
        × (a.name ≡ name)
        × (a.enabled ≡ true)
        × (c.verify password a.password_hash ≡ true)
  login-verify db now token name password h =
      let (a, _, f, v, _, _, _) = login-some db now token name password h in
      let p = find?-eq-some (λ a. named name a && a.enabled) db.accounts a f in
      (a, f, ground arith, ground arith, v)

  no_session :
      (db : Accounts) (now : ℕ) (token : String) (rows : List Session)
      → any (has_key Bytes-discrete (λ (s : Session). s.token_hash) (digest c token)) rows ≡ false
      → find?
          (λ s. eqb Bytes-discrete s.token_hash (digest c token) && is_live db.accounts now s)
          rows
        ≡ none
  no_session db now token rows h =
      let q = λ (s : Session).
        eqb Bytes-discrete s.token_hash (digest c token) && is_live db.accounts now s in
      find?-none q rows (
        any-false_mono q (has_key Bytes-discrete (λ (s : Session). s.token_hash) (digest c token))
          rows (λ s e. ground arith) h)

  user-new_session :
      (db : Accounts) (now later : ℕ) (token name : String) (rows : List Session)
      → len token ≡ 64
      → db.available ≡ true
      → any (λ (a : Account). named name a && a.enabled) db.accounts ≡ true
      → any (has_key Bytes-discrete (λ (s : Session). s.token_hash) (digest c token)) rows ≡ false
      → (user c later token (record db { account_sessions = new_session now token name ∷ rows })).0
        ≡ ok (if ltb later (now + 86400) then some name else none)
  unfolding user find?
  user-new_session db now later token name rows l a e fresh =
      ground (arith, no_session db later token rows fresh)

  -- The token of a login, of 64 bytes, names the account for a day, and nobody after it.
  pub login-user :
      (db : Accounts) {db' : Accounts} (now later : ℕ) (token name password : String) {t : String}
      → len token ≡ 64
      → login c now token name password db ≡ (ok (some t), db')
      → (t ≡ token)
        × ((user c later t db').0 ≡ ok (if ltb later (now + 86400) then some name else none))
  login-user db {db'} now later token name password l h =
      let (a, e, f, v, av, fresh, d) = login-some db now token name password h in
      let enabled = find?-any (λ (a : Account). named name a && a.enabled) db.accounts a f in
      (e, rw (e, d) (user-new_session db now later token name _ l av enabled fresh))
