-- ===== src/Rendezvous/PunchSessions.antt =====
-- src/rendezvous_server/sessions.rs: the controller sessions seen in punch requests. Instants are
-- milliseconds.
pub mod Laws
use openuu_server.Prelude.{
  ℕ, ◌-◌, ◌*◌, String, Bool, Option, none, some, List, ltb, if◌then◌else◌, String_discrete,
  ℕ_discrete,
}
use openuu_server.Prelude.Map.{get, insert, retain}
use openuu_server.Net.{SocketAddr, SocketAddr-discrete, AddrTools}

abbrev pub Key : Type 0
Key = SocketAddr × String

unfoldable pub Key-discrete : Discrete Key
unfolding SocketAddr-discrete String_discrete
Key-discrete = hlevel (SocketAddr-discrete, String_discrete)

-- the token, and since when
abbrev pub PunchSessions : Type 0
PunchSessions = List (Key × (String × ℕ))

abbrev pub ttl : ℕ
ttl = 60 * 1000

abbrev pub is_fresh : ℕ → Key → String × ℕ → Bool
is_fresh now k (token, at) = ltb (now - at) ttl

module _ (net : AddrTools) where
  abbrev pub key : SocketAddr → String → Key
  key controller target_id = (net.try_into_v4 controller, target_id)

  unfoldable pub remember : ℕ → SocketAddr → String → String → PunchSessions → PunchSessions
  remember now controller target_id token m =
      insert Key-discrete (key controller target_id) (token, now) (retain (is_fresh now) m)

  abbrev token_if_fresh : ℕ → Option (String × ℕ) → Option String
  token_if_fresh now none = none
  token_if_fresh now (some (token, at)) = if ltb (now - at) ttl then some token else none

  unfoldable pub token_for : ℕ → SocketAddr → String → PunchSessions → Option String
  token_for now controller target_id m =
      token_if_fresh now (get Key-discrete (key controller target_id) m)
