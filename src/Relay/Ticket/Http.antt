-- ===== src/Relay/Ticket/Http.antt =====
-- The HTTP redeemer of src/relay_server/ticket.rs against the internal endpoint of
-- src/account/internal.rs, over a network that loses requests and answers.
use Prim.Native.String.{len}
use openuu_server.Prelude.{
  ℕ, zero, suc, ◌<◌, ◌≤◌, ◌+◌, String, Bool, true, false, ◌&&◌, Option, none, some, List, [], ◌∷◌,
  ◌≡◌, ◌⊎◌, inl, inr, refl, arith, if◌then◌else◌, Bytes, Bool-cases, ◌==◌,
}
use openuu_server.Account.Tables.{Accounts}
use openuu_server.Account.Store.{Crypto}
use openuu_server.Account.Store
use openuu_server.Account.Api.{
  StatusCode, payload_too_large, too_many_requests, bad_request, unauthorized,
  internal_server_error, service_unavailable, conflict, Body, redeemed, not_redeemed, malformed,
  access_token, profile, empty_object, empty_directory, null, ticket_body, ApiResult, json, error,
  internal_redeem, redeem_ticket, matches,
}
use openuu_server.Account.Api.Answers.{internal_redeem-redeem_ticket}
use openuu_server.Relay.Ticket.{
  Response, Sent, connect_error, other_error, answered, accept, attempts, redeem_http,
}

-- What becomes of a request: no connection, lost on the way there, lost on the way back, or
-- answered.
pub data Delivery : Type 0 where
  refused lost unanswered delivered : Delivery

abbrev pub status_number : StatusCode → ℕ
status_number payload_too_large = 413
status_number too_many_requests = 429
status_number bad_request = 400
status_number unauthorized = 401
status_number internal_server_error = 500
status_number service_unavailable = 503
status_number conflict = 409

abbrev pub ok_field : Body → Option Bool
ok_field redeemed = some true
ok_field (not_redeemed f) = some false
ok_field malformed = some false
ok_field (access_token t u) = none
ok_field (profile n) = none
ok_field empty_object = none
ok_field empty_directory = none
ok_field null = none
ok_field (ticket_body t) = none

abbrev pub response : ApiResult → Response
response (json b) = record { status = 200; body = some (ok_field b) }
response (error e) = record { status = status_number e; body = some none }

module _ (c : Crypto) (now : ℕ) (secret : Bytes) (header : Option Bytes) (t relay_id : String) where
  abbrev pub served : Accounts → ApiResult × Accounts
  served db = internal_redeem c now secret header (some (t, relay_id)) db

  -- One request; with no word on it there is no connection.
  abbrev pub send : List Delivery × Accounts → Sent × (List Delivery × Accounts)
  send ([], db) = (connect_error, ([], db))
  send (refused ∷ ds, db) = (connect_error, (ds, db))
  send (lost ∷ ds, db) = (other_error, (ds, db))
  send (unanswered ∷ ds, db) = (other_error, (ds, (served db).1))
  send (delivered ∷ ds, db) = (answered (response (served db).0), (ds, (served db).1))

  -- The answer and the tables are those of one redemption in the process; or it is no, and the
  -- tables are as before or as after one.
  abbrev pub IsOnce : Accounts → Bool × (List Delivery × Accounts) → Type 0
  IsOnce db r =
      ((r.0 ≡ (redeem_ticket c now t relay_id db).0)
        × (r.1.1 ≡ (redeem_ticket c now t relay_id db).1))
      ⊎ ((r.0 ≡ false) × ((r.1.1 ≡ db) ⊎ (r.1.1 ≡ (redeem_ticket c now t relay_id db).1)))

  accept-response :
      (db : Accounts)
      → 0 < len relay_id
      → len relay_id ≤ 128
      → accept (response (served db).0)
        ≡ (matches c secret header && (redeem_ticket c now t relay_id db).0)
  unfolding accept internal_redeem redeem_ticket Store.redeem Store.ticket_failure
  accept-response db p q = ground arith

  served_tables :
      (db : Accounts)
      → 0 < len relay_id
      → len relay_id ≤ 128
      → (served db).1
        ≡ (if matches c secret header then (redeem_ticket c now t relay_id db).1 else db)
  served_tables db p q = (internal_redeem-redeem_ticket c now secret header t relay_id db p q).1

  lost_answer :
      (db : Accounts)
      → 0 < len relay_id
      → len relay_id ≤ 128
      → ((served db).1 ≡ db) ⊎ ((served db).1 ≡ (redeem_ticket c now t relay_id db).1)
  lost_answer db p q = elim (Bool-cases (matches c secret header)) [
    | inl same ↦ inr (ground (arith, same, served_tables db p q))
    | inr other ↦ inl (ground (arith, other, served_tables db p q))
  ]

  got_answer :
      (ds : List Delivery) (db : Accounts)
      → 0 < len relay_id
      → len relay_id ≤ 128
      → IsOnce db (accept (response (served db).0), (ds, (served db).1))
  got_answer ds db p q = elim (Bool-cases (matches c secret header)) [
    | inl same ↦
        inl
          (ground (arith, same, accept-response db p q), ground (arith, same, served_tables db p q))
    | inr other ↦ inr (
      ground (arith, other, accept-response db p q),
      inl (ground (arith, other, served_tables db p q)),
    )
  ]

  attempts-IsOnce :
      (attempt left : ℕ) (ds : List Delivery) (db : Accounts)
      → 0 < len relay_id
      → len relay_id ≤ 128
      → IsOnce db (attempts send attempt left (ds, db))
  unfolding attempts
  attempts-IsOnce attempt zero ds db p q = inr (refl, inl refl)
  attempts-IsOnce attempt (suc left) [] db p q = elim (Bool-cases (attempt == 1)) [
    | inl first ↦ rw first (attempts-IsOnce (attempt + 1) left [] db p q)
    | inr last ↦ rw last (inr (refl, inl refl))
  ]
  attempts-IsOnce attempt (suc left) (refused ∷ ds) db p q = elim (Bool-cases (attempt == 1)) [
    | inl first ↦ rw first (attempts-IsOnce (attempt + 1) left ds db p q)
    | inr last ↦ rw last (inr (refl, inl refl))
  ]
  attempts-IsOnce attempt (suc left) (lost ∷ ds) db p q = inr (refl, inl refl)
  attempts-IsOnce attempt (suc left) (unanswered ∷ ds) db p q = inr (refl, lost_answer db p q)
  attempts-IsOnce attempt (suc left) (delivered ∷ ds) db p q = got_answer ds db p q

  -- However the network loses requests and answers, the relay's HTTP redemption of a ticket for a
  -- relay id of legal length redeems at most once: its answer and its effect are those of one
  -- in-process redemption, or it says no and the tables are as before or as after that redemption.
  pub redeem_http-IsOnce :
      (ds : List Delivery) (db : Accounts)
      → 0 < len relay_id
      → len relay_id ≤ 128
      → IsOnce db (redeem_http send (ds, db))
  unfolding redeem_http
  redeem_http-IsOnce ds db p q = attempts-IsOnce 1 2 ds db p q

  -- With the secret that the service has, over a network that answers the first request or does not
  -- connect and then answers the second, the HTTP redemption is the in-process one.
  redeem_http-redeem_ticket :
      (first : Bool) (ds : List Delivery) (db : Accounts)
      → 0 < len relay_id
      → len relay_id ≤ 128
      → matches c secret header ≡ true
      → let r =
          redeem_http send ((if first then delivered ∷ ds else refused ∷ delivered ∷ ds), db) in
        (r.0, r.1.1) ≡ redeem_ticket c now t relay_id db
  unfolding redeem_http attempts
  redeem_http-redeem_ticket true ds db p q m =
      ground (arith, m, accept-response db p q, served_tables db p q)
  redeem_http-redeem_ticket false ds db p q m =
      ground (arith, m, accept-response db p q, served_tables db p q)
