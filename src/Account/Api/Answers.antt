-- ===== src/Account/Api/Answers.antt =====
-- What the answers of src/account/api.rs and src/account/internal.rs mean.
use Prim.Native.String.{len}
use openuu_server.Prelude.{
  ℕ, ◌<◌, ◌≤◌, String, true, ◌&&◌, Option, none, some, ◌≡◌, refl, ◌≢◌, ◌↔◌, sym, arith, ltb,
  if◌then◌else◌, Bytes, length, inl, inr, Bool-cases,
}
use openuu_server.Net.{IpAddr}
use openuu_server.Account.Tables.{Accounts, Result, ok, err}
use openuu_server.Account.Store.{Crypto, user, login, redeem}
use openuu_server.Account.Store
use openuu_server.Account.RateLimit.{login_attempt}
use openuu_server.Account.Sessions.{login-user, login-none}
use openuu_server.Account.Api.{
  StatusCode, access_token, redeemed, json, error, internal_server_error, Service, login_handler,
  internal_redeem, redeem_ticket, matches, login_result,
}

module _ (c : Crypto) where
  token_of_result :
      (username : String) (r : Result (Option String)) {t u : String}
      → login_result username r ≡ json (access_token t u)
      → (r ≡ ok (some t)) × (username ≡ u)
  token_of_result username (err e) h = cc
  token_of_result username (ok none) h = cc
  token_of_result username (ok (some token)) h = (ground arith, ground arith)

  -- An access token is given only to a small request that the limiter admitted, whose credentials
  -- parsed; it names the user of these credentials as soon as it is given.
  pub login_handler-user :
      (now : ℕ) (token : String) (ip : IpAddr) (body : Bytes) (username password : String)
      (s : Service) {s' : Service} {t u : String}
      → len token ≡ 64
      → login_handler c now token ip body (some (username, password)) s
        ≡ (json (access_token t u), s')
      → (length body ≤ 16384)
        × ((login_attempt now ip s.attempts).1 ≡ true)
        × (t ≡ token)
        × (u ≡ username)
        × ((user c now t s'.db).0 ≡ ok (some username))
  unfolding login_handler
  login_handler-user now token ip body username password s {s'} {t} {u} l h =
      let r = login c now token username password s.db in
      let (k, e) = token_of_result username r.0 {t = t} {u = u} (ground arith) in
      let (f, g) =
        login-user c s.db {db' = r.1} now now token username password {t = t} l (λ i. (k i, r.1)) in
      (ground arith, ground arith, f, sym e, ground (arith, g))

  unauthorized_result :
      (username : String) (r : Result (Option String)) {e : StatusCode}
      → login_result username r ≡ error e
      → e ≢ internal_server_error
      → r ≡ ok none
  unauthorized_result username (err x) h n = absurd (n (ground arith))
  unauthorized_result username (ok none) h n = refl
  unauthorized_result username (ok (some token)) h n = cc

  -- A login that is refused leaves the accounts and the sessions alone, except where the database
  -- itself failed.
  login_handler_refused :
      (now : ℕ) (token : String) (ip : IpAddr) (body : Bytes)
      (credentials : Option (String × String)) (s : Service) {s' : Service} {e : StatusCode}
      → login_handler c now token ip body credentials s ≡ (error e, s')
      → e ≢ internal_server_error
      → s'.db ≡ s.db
  unfolding login_handler
  login_handler_refused now token ip body none s h n = ground arith
  login_handler_refused now token ip body (some (username, password)) s {s'} {e} h n =
      elim (Bool-cases (ltb 16384 (length body))) [
        | inl big ↦ ground arith
        | inr small ↦ elim (Bool-cases (login_attempt now ip s.attempts).1) [
          | inr over ↦ ground arith
          | inl admitted ↦
              let r = login c now token username password s.db in
              let k = unauthorized_result username r.0 {e = e} (ground arith) n in
              ground
                (arith, login-none c s.db {db' = r.1} now token username password (λ i. (k i, r.1)))
        ]
      ]

  -- The internal endpoint is the in-process call: with the shared secret and a relay id of legal
  -- length it answers `redeemed` exactly when `redeem_ticket` says yes, and leaves the same
  -- database; without the secret it redeems nothing.
  pub internal_redeem-redeem_ticket :
      (now : ℕ) (secret : Bytes) (header : Option Bytes) (t relay_id : String) (db : Accounts)
      → 0 < len relay_id
      → len relay_id ≤ 128
      → (((internal_redeem c now secret header (some (t, relay_id)) db).0 ≡ json redeemed)
          ↔ ((matches c secret header && (redeem_ticket c now t relay_id db).0) ≡ true))
        × ((internal_redeem c now secret header (some (t, relay_id)) db).1
            ≡ (if matches c secret header then (redeem_ticket c now t relay_id db).1 else db))
  unfolding internal_redeem redeem_ticket redeem Store.ticket_failure
  internal_redeem-redeem_ticket now secret header t relay_id db p q =
      ((ground arith, ground arith), ground arith)
