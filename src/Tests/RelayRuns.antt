-- ===== src/Tests/RelayRuns.antt =====
-- Runs of the relay.
use openuu_server.Prelude.{
  String, [], ◌∷◌, ◌≡◌, ◌≢◌, ap, arith, true, false, some, Bytes, Bool, eqb, String_discrete,
}
use openuu_server.Relay.Pairing.{Relay}
use openuu_server.Relay.Ticket.{redeem_http}
use openuu_server.Relay.Ticket.Http.{unanswered, send, IsOnce, redeem_http-IsOnce}
use openuu_server.Account.Tables.{Accounts}
use openuu_server.Tests.Data.{plain, second_token, one_ticket, one_session}

abbrev secret : Bytes
secret = 1 ∷ []

redeem_http-IsOnce_example :
    IsOnce plain 150 secret (some secret) second_token "relay-1" one_ticket (
      redeem_http
        (send plain 150 secret (some secret) second_token "relay-1")
        (unanswered ∷ [], one_ticket))
redeem_http-IsOnce_example =
    redeem_http-IsOnce plain 150 secret (some secret) second_token "relay-1" (unanswered ∷ [])
      one_ticket (omega arith) (omega arith)

abbrev redeemed_once : Bool × Accounts
redeemed_once = (true, one_session)

abbrev quiet : Relay
quiet = record { peers = []; pairs = [] }

abbrev first_uuid : String
first_uuid = "uuid-1"

abbrev other_uuid : String
other_uuid = "uuid-2"

uuids_differ : first_uuid ≢ other_uuid
unfolding String_discrete
uuids_differ e = let k : true ≡ false = ap (λ x. eqb String_discrete x "uuid-1") e in cc
