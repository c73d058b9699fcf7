-- ===== src/Tests/AccountRuns.antt =====
-- Runs of the account service.

use openuu_server.Prelude.{
  ℕ, ◌≤◌, ◌^◌, ◌↔◌, String, Bytes, List, [], ◌∷◌, ◌≡◌, ◌≢◌, refl, ap, arith, true, false, some,
  none, Bool, eqb, String_discrete, Bytes-discrete, keep, any, length, ◌&&◌, if◌then◌else◌,
  get_elem?,
}
use openuu_server.Net.{IpAddr, v4}
use openuu_server.Account.Tables.{Accounts, ok}
use openuu_server.Account.Store.{login, user, ticket, redeem, revoke, set_enabled, owned_by}
use openuu_server.Account.Invariant.{WellFormed}
use openuu_server.Account.Tickets.{ticket-redeem}
use openuu_server.Account.Revocation.{by_disabling, Ends-user}
use openuu_server.Account.RateLimit.{Rates, login_attempt}
use openuu_server.Account.RateLimit.Window.{admitted, admitted-le}
use openuu_server.Account.Api.{
  Service, login_handler, json, error, access_token, unauthorized, internal_redeem, redeem_ticket,
  redeemed,
}
use openuu_server.Account.Api.Answers.{login_handler-user, internal_redeem-redeem_ticket}
use openuu_server.Tests.Data.{
  plain, short_hash, first_token, second_token, third_token, one_account, one_session, one_ticket,
  two_accounts, one_disabled,
}

one_ticket-WellFormed : WellFormed one_ticket
unfolding any
one_ticket-WellFormed = record { names = (refl, tt); sessions = (refl, tt); tickets = (refl, tt) }

one_session-WellFormed : WellFormed one_session
unfolding any
one_session-WellFormed = record { names = (refl, tt); sessions = (refl, tt); tickets = tt }

login_run :
    login plain 100 first_token "alice" "correct horse" one_account
    ≡ (ok (some first_token), one_session)
unfolding login openuu_server.Prelude.find? String_discrete any keep
login_run = refl

ticket_run :
    ticket plain 110 second_token first_token "relay-1" one_session
    ≡ (ok (some second_token), one_ticket)
unfolding ticket openuu_server.Prelude.find? Bytes-discrete short_hash any String_discrete keep
ticket_run = refl

redeem_run : redeem plain 150 second_token "relay-1" one_ticket ≡ (ok true, one_session)
unfolding redeem openuu_server.Prelude.count keep Bytes-discrete short_hash String_discrete any
redeem_run = refl

-- an expired ticket, and a ticket of another relay
redeem_late : redeem plain 170 second_token "relay-1" one_ticket ≡ (ok false, one_ticket)
unfolding redeem openuu_server.Prelude.count keep Bytes-discrete short_hash String_discrete
redeem_late = refl

redeem_elsewhere : redeem plain 150 second_token "relay-2" one_ticket ≡ (ok false, one_ticket)
unfolding redeem openuu_server.Prelude.count keep Bytes-discrete short_hash String_discrete
redeem_elsewhere = refl

ticket-redeem_example :
    (second_token ≡ second_token)
    × ((redeem plain 150 second_token "relay-1" one_ticket).0 ≡ ok true)
unfolding String_discrete any Bytes-discrete short_hash
ticket-redeem_example =
    ticket-redeem plain 110 150 second_token first_token "relay-1" "relay-1" one_session-WellFormed
      refl ticket_run

abbrev logged_out : Accounts
logged_out = record one_ticket { account_sessions = [] }

revoke_run : revoke plain first_token one_ticket ≡ (ok tt, logged_out)
unfolding revoke keep Bytes-discrete short_hash
revoke_run = refl

disabling_run : set_enabled plain "alice" false two_accounts ≡ (ok tt, one_disabled)
unfolding set_enabled openuu_server.Prelude.count String_discrete keep any Bytes-discrete short_hash
disabling_run = refl

Ends-user_example :
    ((user plain 200 first_token one_disabled).0 ≢ ok (some "alice"))
    × (any
          (λ t. owned_by "alice" two_accounts.account_sessions t.session_hash)
          one_disabled.relay_tickets
        ≡ false)
Ends-user_example = Ends-user plain 200 first_token (by_disabling disabling_run)

bob_signed_in : (user plain 200 third_token two_accounts).0 ≡ ok (some "bob")
unfolding user openuu_server.Prelude.find? Bytes-discrete short_hash any String_discrete
bob_signed_in = refl

abbrev bob : String
bob = "bob"

bob_other : bob ≢ "alice"
unfolding String_discrete
bob_other e = let k : true ≡ false = ap (λ x. eqb String_discrete x "bob") e in cc

abbrev events : List (IpAddr × ℕ)
events = (v4 1, 100) ∷ (v4 1, 101) ∷ (v4 2, 102) ∷ (v4 1, 159) ∷ []

admitted-le_example : admitted 2 (v4 1) events [] ≤ 2
unfolding openuu_server.Prelude.Map.get
admitted-le_example = admitted-le 2 (v4 1) 100 events [] tt refl (ground arith) (ground arith)

abbrev alice : String
alice = "alice"

abbrev service : Service
service = record { db = one_account; attempts = [] }

abbrev attempted : Rates
attempted = (v4 1, (100, 1)) ∷ []

login_handler_run :
    login_handler plain 100 first_token (v4 1) (123 ∷ []) (some ("alice", "correct horse")) service
    ≡ (json (access_token first_token "alice"), record { db = one_session; attempts = attempted })
unfolding login_handler openuu_server.Prelude.Map.retain openuu_server.Prelude.Map.get login
    openuu_server.Prelude.Map.insert openuu_server.Prelude.find? String_discrete any keep
login_handler_run = refl

login_handler-user_example :
    (1 ≤ 16384)
    × ((login_attempt 100 (v4 1) []).1 ≡ true)
    × (first_token ≡ first_token)
    × (alice ≡ alice)
    × ((user plain 100 first_token one_session).0 ≡ ok (some "alice"))
login_handler-user_example =
    login_handler-user plain 100 first_token (v4 1) (123 ∷ []) "alice" "correct horse" service refl
      login_handler_run

wrong_password_run :
    login_handler plain 100 first_token (v4 1) (123 ∷ []) (some ("alice", "correct horde")) service
    ≡ (error unauthorized, record service { attempts = attempted })
unfolding login_handler openuu_server.Prelude.Map.retain openuu_server.Prelude.Map.get login
    openuu_server.Prelude.Map.insert openuu_server.Prelude.find? String_discrete
wrong_password_run = refl

internal_redeem-redeem_ticket_example :
    (((internal_redeem plain 150
          (1 ∷ [])
          (some (1 ∷ []))
          (some (second_token, "relay-1"))
          one_ticket).0
        ≡ json redeemed)
      ↔ (true ≡ true))
    × ((internal_redeem plain 150
          (1 ∷ [])
          (some (1 ∷ []))
          (some (second_token, "relay-1"))
          one_ticket).1
        ≡ one_session)
unfolding Bytes-discrete redeem_ticket redeem openuu_server.Prelude.count keep short_hash
    String_discrete any
internal_redeem-redeem_ticket_example =
    internal_redeem-redeem_ticket plain 150 (1 ∷ []) (some (1 ∷ [])) second_token "relay-1"
      one_ticket (ground arith) (ground arith)
