-- ===== src/Rendezvous/RelayServers/Rotation.antt =====
-- The rotation of the relay servers (`get_relay_server` of src/rendezvous_server/relay.rs).
use native.Mathlib.Nat.{mod-add-mod, mod-lt, mod-eq_of_lt, add-mod_right}
use openuu_server.Prelude.{
  ℕ, zero, suc, ◌+◌, ◌-◌, ◌%◌, ◌^◌, ◌≤◌, ◌<◌, ◌≡◌, refl, arith, length, ap, ◌∙◌, sym, leb,
  Bool-cases, inl, inr,
}
use mathlib.Core.Path.{ap₂}
use openuu_server.Rendezvous.RelayServers.{RelayServers, nth, get_relay_server}

-- The state after some calls.
pub after : ℕ → RelayServers → RelayServers
after zero r = r
after (suc n) r = after n (get_relay_server r).1

after_lem :
    (n : ℕ) (r : RelayServers)
    → 2 ≤ length r.relay_servers
    → r.rotation + n < 2 ^ 64
    → ((after n r).relay_servers ≡ r.relay_servers) × ((after n r).rotation ≡ r.rotation + n)
unfolding after get_relay_server
after_lem zero r two small = (refl, omega arith)
after_lem (suc n) r two small =
    let r' = record r { rotation = (r.rotation + 1) % 2 ^ 64 } in
    let (same, at) = after_lem n r' two (omega arith) in (ground (arith, same), ground (arith, at))

turn : (a n k : ℕ) → k < n → (i : ℕ) × (i < n) × ((a + i) % n ≡ k)
turn a n k h = elim (Bool-cases (leb (a % n) k)) [
  | inl low ↦
      let i = k - a % n in
      (i, ground arith, sym (mod-add-mod a n i) ∙ ap (λ x. x % n) (ground arith) ∙ mod-eq_of_lt h)
  | inr high ↦
      let i = k + n - a % n in
      let m : a % n < n = mod-lt a (omega arith) in
      (
        i,
        ground arith,
        sym (mod-add-mod a n i)
            ∙ ap (λ x. x % n) (ground arith)
            ∙ add-mod_right k n
            ∙ mod-eq_of_lt h,
      )
]

get_relay_server_at :
    (r : RelayServers)
    → 2 ≤ length r.relay_servers
    → (get_relay_server r).0 ≡ nth r.relay_servers (r.rotation % length r.relay_servers)
unfolding get_relay_server
get_relay_server_at r two = ground arith

-- Among as many calls in a row as there are relay servers, two at least, each server is handed out:
-- none is left out (as long as the rotation counter does not wrap).
pub get_relay_server_fair :
    (r : RelayServers) (k : ℕ)
    → 2 ≤ length r.relay_servers
    → k < length r.relay_servers
    → r.rotation + length r.relay_servers < 2 ^ 64
    → (i : ℕ) × (i < length r.relay_servers)
      × ((get_relay_server (after i r)).0 ≡ nth r.relay_servers k)
get_relay_server_fair r k two h small =
    let n = length r.relay_servers in
    let (i, below, at) = turn r.rotation n k h in
    let (same, c) = after_lem i r two (omega arith) in
    let two' : 2 ≤ length (after i r).relay_servers = rw same two in
    (
      i,
      below,
      get_relay_server_at (after i r) two'
          ∙ ap₂ (λ xs c. nth xs (c % length xs)) same c
          ∙ ap (nth r.relay_servers) at,
    )
