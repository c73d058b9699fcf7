-- ===== src/Rendezvous/RelayServers.antt =====
-- The relay servers that hbbs hands out (src/rendezvous_server/relay.rs, src/common/mod.rs).
pub mod Rotation
pub mod Check
use openuu_server.Prelude.{
  ℕ, zero, suc, ◌+◌, ◌%◌, ◌^◌, String, Bool, not, ◌&&◌, Option, none, some, List, [], ◌∷◌, ◌==◌,
  if◌then◌else◌, length, get_elem?, keep,
}
use openuu_server.Prelude.Text.{split, is_empty_text}

pub record RelayServers : Type 0 where
  -- as configured, and as last found alive
  pub relay_servers0 : List String
  pub relay_servers : List String
  -- ROTATION_RELAY_SERVER, a usize
  pub rotation : ℕ

-- common::get_servers; `valid` is test_if_valid_server, which asks the resolver
unfoldable pub get_servers : (String → Bool) → String → List String
get_servers valid s = keep (λ x. not (is_empty_text x) && valid x) (split b',' s)

unfoldable pub parse_relay_servers : (String → Bool) → String → RelayServers → RelayServers
unfolding get_servers
parse_relay_servers valid s r =
    let rs = get_servers valid s in record r { relay_servers0 = rs; relay_servers = rs }

-- Data::RelayServers of io.rs: the servers that check_relay_servers reached
unfoldable pub use_relay_servers : List String → RelayServers → RelayServers
use_relay_servers rs r = record r { relay_servers = rs }

-- an index into the vector; it is in range
abbrev pub nth : List String → ℕ → String
nth [] i = ""
nth (x ∷ xs) zero = x
nth (x ∷ xs) (suc i) = nth xs i

unfoldable pub get_relay_server : RelayServers → String × RelayServers
get_relay_server r =
    let rs = r.relay_servers in
    if length rs == 0
    then ("", r)
    else if length rs == 1
    then (nth rs 0, r)
    else (nth rs (r.rotation % length rs), record r { rotation = (r.rotation + 1) % 2 ^ 64 })
