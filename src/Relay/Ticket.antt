-- ===== src/Relay/Ticket.antt =====
-- How the relay checks a ticket (src/relay_server/ticket.rs): in the process, or over HTTP at the
-- account service. reqwest is the argument `post`; a URL is given by its scheme and its host, if
-- that is an address.
pub mod Http
use openuu_server.Prelude.{
  ℕ, zero, suc, ◌+◌, ◌/◌, ◌^◌, ◌%◌, String, Bool, true, false, ◌&&◌, ◌||◌, not, Option, none, some,
  List, [], ◌∷◌, ltb, leb, ◌==◌, if◌then◌else◌, eqb, String_discrete,
}
use Prim.Native.String.{len}
use openuu_server.Net.{IpAddr, v4, v6, is_loopback, is_private_v4}

-- The status of an answer, and `ok` of its body, if the body is JSON and `ok` a Boolean there.
pub record Response : Type 0 where
  pub status : ℕ
  pub body : Option (Option Bool)

pub data Sent : Type 0 where
  -- `err.is_connect()`: the server was not reached
  connect_error : Sent
  other_error : Sent
  answered : Response → Sent

abbrev pub is_ok : Option (Option Bool) → Bool
is_ok (some (some ok)) = ok
is_ok (some none) = false
is_ok none = false

unfoldable pub accept : Response → Bool
accept r = leb 200 r.status && ltb r.status 300 && is_ok r.body

module _ {ℓ} {W : Type ℓ} (post : W → Sent × W) where
  -- the loop `for attempt in 1..=2`, with the number of attempts that are left
  unfoldable pub attempts : ℕ → ℕ → W → Bool × W
  unfolding accept
  attempts attempt zero w = (false, w)
  attempts attempt (suc left) w =
      let again = attempts (attempt + 1) left (post w).1 in
      elim (post w).0 [
        | connect_error ↦ if attempt == 1 then again else (false, (post w).1)
        | other_error ↦ (false, (post w).1)
        | answered r ↦ (accept r, (post w).1)
      ]

  -- `Redeemer::redeem` of the variant `Http`
  unfoldable pub redeem_http : W → Bool × W
  unfolding attempts
  redeem_http w = attempts 1 2 w

unfoldable pub is_private : IpAddr → Bool
unfolding is_private_v4 is_loopback
is_private (v4 n) = is_loopback (v4 n) || is_private_v4 n
-- `segments()[0] & 0xfe00 == 0xfc00` on the upper seven bits
is_private (v6 n) = is_loopback (v6 n) || n / 2 ^ 121 == 126

-- check_url, on a URL that parses
unfoldable pub check_url : String → Option IpAddr → Bool
unfolding is_private
check_url scheme host =
    if eqb String_discrete scheme "https"
    then true
    else if eqb String_discrete scheme "http"
    then elim host [ none ↦ false | some ip ↦ is_private ip ]
    else false

-- `Redeemer::http`: whether the relay starts with this URL and secret
unfoldable pub accepts_config : Option (String × Option IpAddr) → String → Bool
unfolding check_url
accepts_config none secret = false
accepts_config (some (scheme, host)) secret = check_url scheme host && not (ltb (len secret) 16)
