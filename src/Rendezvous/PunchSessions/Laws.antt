-- ===== src/Rendezvous/PunchSessions/Laws.antt =====
-- What `token_for` finds after `remember` (src/rendezvous_server/sessions.rs).
use openuu_server.Prelude.{
  ℕ, ◌+◌, ◌≤◌, String, none, some, ltb, if◌then◌else◌, ◌≡◌, arith, eqb, Option-cases, inl, inr,
}
use openuu_server.Prelude.Map.{
  get, retain, get-insert, get-retain, Distinct, retain-Distinct, insert-Distinct,
}
use openuu_server.Net.{SocketAddr, AddrTools}
use openuu_server.Rendezvous.PunchSessions.{
  Key-discrete, PunchSessions, ttl, is_fresh, key, remember, token_for,
}

module _ (net : AddrTools) (now : ℕ) (controller : SocketAddr) (target_id token : String)
    (m : PunchSessions) where
  pub remember-Distinct :
      Distinct Key-discrete m
      → Distinct Key-discrete (remember net now controller target_id token m)
  unfolding remember
  remember-Distinct d =
      insert-Distinct Key-discrete (key net controller target_id) (token, now)
        (retain (is_fresh now) m) (retain-Distinct Key-discrete (is_fresh now) m d)

  -- A lookup after `remember`, in a map with distinct keys: for the same controller (up to the v4
  -- form of its address) and target it gives the token for a minute; for any other pair it gives
  -- what it gave before, from now on.
  pub token_for-remember :
      (later : ℕ) (other : SocketAddr) (other_id : String)
      → Distinct Key-discrete m
      → now ≤ later
      → token_for net later other other_id (remember net now controller target_id token m) ≡ (
          if eqb Key-discrete (key net controller target_id) (key net other other_id)
          then (if ltb later (now + ttl) then some token else none)
          else token_for net later other other_id m)
  unfolding remember token_for
  token_for-remember later other other_id d le =
      let k = key net controller target_id in
      let j = key net other other_id in
      elim (Option-cases (get Key-discrete j m)) [
        | inl e ↦ ground (
          arith,
          e,
          get-insert Key-discrete k j (token, now) (retain (is_fresh now) m),
          get-retain Key-discrete (is_fresh now) j m d,
        )
        | inr ((t, at), e) ↦ ground (
          arith,
          e,
          get-insert Key-discrete k j (token, now) (retain (is_fresh now) m),
          get-retain Key-discrete (is_fresh now) j m d,
        )
      ]
