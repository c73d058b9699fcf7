-- ===== src/Account/Api.antt =====
-- The HTTP handlers of src/account/api.rs and src/account/internal.rs, and the calls that hbbs and
-- hbbr make of src/account/mod.rs. JSON decoding is an argument: `none` where serde_json refuses.
pub mod Answers
use Prim.Native.String.{len}
use openuu_server.Prelude.{
  ℕ, String, Bool, true, false, not, ◌||◌, Option, none, some, ltb, leb, ◌==◌, if◌then◌else◌, eqb,
  Bytes, Bytes-discrete, length,
}
use openuu_server.Net.{IpAddr}
use openuu_server.Account.Tables.{Accounts, Result, ok, err, Error}
use openuu_server.Account.Store.{
  Crypto, Failure, user, login, ticket, redeem, revoke, ticket_failure,
}
use openuu_server.Account.Store
use openuu_server.Account.RateLimit.{Rates, login_attempt}

-- axum::http::StatusCode, as far as the handlers use it
pub data StatusCode : Type 0 where
  payload_too_large too_many_requests bad_request unauthorized : StatusCode
  internal_server_error service_unavailable conflict : StatusCode

-- the bodies of the answers
pub data Body : Type 0 where
  access_token : String → String → Body
  profile : String → Body
  empty_object empty_directory null : Body
  ticket_body : String → Body
  redeemed : Body
  not_redeemed : Failure → Body
  malformed : Body

pub data ApiResult : Type 0 where
  json : Body → ApiResult
  error : StatusCode → ApiResult

-- `attempts` is behind a mutex of its own, beside the database.
pub record Service : Type 0 where
  pub db : Accounts
  pub attempts : Rates

abbrev some_or {ℓ} : {A : Type ℓ} → A → Option A → A
some_or a none = a
some_or a (some b) = b

abbrev login_result : String → Result (Option String) → ApiResult
login_result username (err e) = error internal_server_error
login_result username (ok none) = error unauthorized
login_result username (ok (some token)) = json (access_token token username)

abbrev user_result : (String → Body) → Result (Option String) → ApiResult
user_result f (err e) = error service_unavailable
user_result f (ok none) = error unauthorized
user_result f (ok (some name)) = json (f name)

abbrev pub is_true : Result Bool → Bool
is_true (ok b) = b
is_true (err e) = false

module _ (c : Crypto) where
  -- the part of `login` after the limiter
  abbrev login_body : ℕ → String → Option (String × String) → Accounts → ApiResult × Accounts
  login_body now token none db = (error bad_request, db)
  login_body now token (some (username, password)) db =
      let (r, db') = login c now token username password db in (login_result username r, db')

  -- `credentials` is what the body parses to
  unfoldable pub login_handler :
      ℕ → String → IpAddr → Bytes → Option (String × String) → Service → ApiResult × Service
  unfolding login_attempt
  login_handler now token ip body credentials s =
      if ltb 16384 (length body)
      then (error payload_too_large, s)
      else (let (attempts, admitted) = login_attempt now ip s.attempts in
          if not admitted
          then (error too_many_requests, record s { attempts = attempts })
          else (let (r, db) = login_body now token credentials s.db in
              (r, record s { db = db; attempts = attempts })))

  unfoldable pub current : ℕ → String → Accounts → ApiResult
  current now bearer db = user_result profile (user c now bearer db).0

  unfoldable pub empty_directory_handler : ℕ → String → Accounts → ApiResult
  empty_directory_handler now bearer db =
      user_result (λ _. empty_directory) (user c now bearer db).0

  unfoldable pub address_book : ℕ → String → Accounts → ApiResult
  address_book now bearer db = user_result (λ _. null) (user c now bearer db).0

  abbrev logout_result : Result (Unit {0}) → ApiResult
  logout_result (ok _) = json empty_object
  logout_result (err e) = error service_unavailable

  unfoldable pub logout : String → Accounts → ApiResult × Accounts
  logout bearer db = let (r, db') = revoke c bearer db in (logout_result r, db')

  -- `uuid` is the field of the body, if it is a string
  unfoldable pub relay_ticket :
      ℕ → String → String → Option String → Accounts → ApiResult × Accounts
  relay_ticket now new bearer uuid db =
      let (r, db') = ticket c now new bearer (some_or "" uuid) db in
      (user_result ticket_body r, db')

  -- internal.rs: `header` is the X-OpenUU-Internal header's bytes, `input` the parsed body
  abbrev failed : Result Failure → Failure
  failed (ok f) = f
  failed (err e) = Store.unknown

  abbrev internal_result : ℕ → String → String → Result Bool × Accounts → ApiResult × Accounts
  internal_result now t relay_id (err e, db) = (error internal_server_error, db)
  internal_result now t relay_id (ok true, db) = (json redeemed, db)
  internal_result now t relay_id (ok false, db) =
      let (f, db') = ticket_failure c now t relay_id db in (json (not_redeemed (failed f)), db')

  abbrev pub matches : Bytes → Option Bytes → Bool
  matches secret none = false
  matches secret (some h) = eqb Bytes-discrete h secret

  abbrev redeem_input : ℕ → Option (String × String) → Accounts → ApiResult × Accounts
  redeem_input now none db = (json malformed, db)
  redeem_input now (some (t, relay_id)) db =
      if not (len t == 64) || (len relay_id == 0 || ltb 128 (len relay_id))
      then (json malformed, db)
      else internal_result now t relay_id (redeem c now t relay_id db)

  unfoldable pub internal_redeem :
      ℕ → Bytes → Option Bytes → Option (String × String) → Accounts → ApiResult × Accounts
  internal_redeem now secret header input db =
      if not (matches secret header) then (error unauthorized, db) else redeem_input now input db

  -- mod.rs: the calls of hbbs and hbbr. An unusable database denies.
  abbrev is_user : Result (Option String) → Bool
  is_user (ok (some _)) = true
  is_user (ok none) = false
  is_user (err e) = false

  unfoldable pub authorized : ℕ → String → Accounts → Bool
  authorized now token db = is_user (user c now token db).0

  unfoldable pub redeem_ticket : ℕ → String → String → Accounts → Bool × Accounts
  redeem_ticket now t relay_id db = let (r, db') = redeem c now t relay_id db in (is_true r, db')

  abbrev pub issued : Result (Option String) → Option String
  issued (ok o) = o
  issued (err e) = none

  unfoldable pub peer_ticket : ℕ → String → String → String → Accounts → Option String × Accounts
  peer_ticket now new session_token uuid db =
      let (r, db') = ticket c now new session_token uuid db in (issued r, db')
