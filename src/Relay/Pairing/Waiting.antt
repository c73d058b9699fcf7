-- ===== src/Relay/Pairing/Waiting.antt =====
-- Who is paired with whom, and who stops waiting (src/relay_server/connection.rs).
use openuu_server.Prelude.{
  ℕ, String, true, false, none, some, ◌∷◌, ◌≡◌, ◌≢◌, arith, String_discrete,
}
use openuu_server.Prelude.Map.{insert, remove, get-insert, get-remove}
use openuu_server.Relay.Pairing.{Relay, take, wait, give_up, arrive, waiting}

-- The second arrival under a uuid is paired with the first, which no longer waits; a connection
-- under another uuid goes on waiting.
arrive-arrive :
    (uuid other : String) (a b : ℕ) (s : Relay)
    → waiting uuid s ≡ none
    → uuid ≢ other
    → let r = arrive uuid b (arrive uuid a s).1 in
      (r.0 ≡ true)
      × (r.1.pairs ≡ (a, b) ∷ s.pairs)
      × (waiting uuid r.1 ≡ none)
      × (waiting other r.1 ≡ waiting other s)
unfolding arrive
arrive-arrive uuid other a b s h apart =
    let m = insert String_discrete uuid a s.peers in
    (
      ground (arith, h, get-insert String_discrete uuid uuid a s.peers),
      ground (arith, h, get-insert String_discrete uuid uuid a s.peers),
      ground (
        arith,
        h,
        get-insert String_discrete uuid uuid a s.peers,
        get-remove String_discrete uuid uuid m,
      ),
      ground (
        arith,
        h,
        apart,
        get-insert String_discrete uuid uuid a s.peers,
        get-insert String_discrete uuid other a s.peers,
        get-remove String_discrete uuid other m,
      ),
    )

-- The timer of a connection that was paired ends the wait of a later one: `a` waits and is paired
-- with `b`, then `d` waits under the same uuid, and the timer of `a` takes `d` out.
give_up_stale :
    (uuid : String) (a b d : ℕ) (s : Relay)
    → waiting uuid s ≡ none
    → let u = (arrive uuid d (arrive uuid b (arrive uuid a s).1).1).1 in
      (waiting uuid u ≡ some d) × (waiting uuid (give_up uuid u) ≡ none)
unfolding arrive give_up
give_up_stale uuid a b d s h =
    let m = insert String_discrete uuid a s.peers in
    let n = remove String_discrete uuid m in
    let o = insert String_discrete uuid d n in
    (
      ground (
        arith,
        h,
        get-insert String_discrete uuid uuid a s.peers,
        get-remove String_discrete uuid uuid m,
        get-insert String_discrete uuid uuid d n,
      ),
      ground (
        arith,
        h,
        get-insert String_discrete uuid uuid a s.peers,
        get-remove String_discrete uuid uuid m,
        get-remove String_discrete uuid uuid o,
      ),
    )

-- Two connections that look for each other before either waits are not paired: both wait, and the
-- later one takes the place of the other.
wait-wait :
    (uuid : String) (a b : ℕ) (s : Relay)
    → waiting uuid s ≡ none
    → let s₁ = (take uuid a s).1 in
      let s₂ = (take uuid b s₁).1 in
      let u = wait uuid b (wait uuid a s₂) in
      ((take uuid a s).0 ≡ false)
      × ((take uuid b s₁).0 ≡ false)
      × (u.pairs ≡ s.pairs)
      × (waiting uuid u ≡ some b)
unfolding take wait
wait-wait uuid a b s h =
    let m = insert String_discrete uuid a s.peers in
    (
      ground (arith, h),
      ground (arith, h),
      ground (arith, h),
      ground (arith, h, get-insert String_discrete uuid uuid b m),
    )
