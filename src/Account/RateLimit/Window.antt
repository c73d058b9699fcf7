-- ===== src/Account/RateLimit/Window.antt =====
-- How many requests of one address pass in a minute (src/account/api.rs, src/account/audit.rs).
use openuu_server.Prelude.{
  ℕ, suc, ◌+◌, ◌-◌, ◌^◌, ◌≤◌, ◌<◌, false, ◌&&◌, none, some, List, [], ◌∷◌, ◌≡◌, arith, leb, eqb,
  if◌then◌else◌, length, inl, inr, ◌≢◌, ◌⊎◌,
}
use openuu_server.Prelude.Map.{get, insert, retain, get-insert, get-retain, Distinct, filter_at}
use openuu_server.Prelude.Table.{All}
use openuu_server.Net.{IpAddr, IpAddr-discrete}
use openuu_server.Account.RateLimit.{Rates, attempt, attempt-Distinct, in_window, bumped}

module _ (limit : ℕ) where
  -- How many of the requests of `ip` pass, in a run of requests of any addresses.
  pub admitted : IpAddr → List (IpAddr × ℕ) → Rates → ℕ
  admitted ip [] rates = 0
  admitted ip ((j, now) ∷ events) rates =
      let rest = admitted ip events (attempt limit now j rates).0 in
      if eqb IpAddr-discrete j ip && (attempt limit now j rates).1 then suc rest else rest

  module _ (ip j : IpAddr) (now : ℕ) (rates : Rates) (d : Distinct IpAddr-discrete rates) where
    kept_lookup :
        get IpAddr-discrete ip (retain (in_window now) rates)
        ≡ filter_at IpAddr-discrete (in_window now) ip (get IpAddr-discrete ip rates)
    kept_lookup = get-retain IpAddr-discrete (in_window now) ip rates d

    written :
        get IpAddr-discrete ip (
          insert IpAddr-discrete j
            (bumped now (get IpAddr-discrete j (retain (in_window now) rates)))
            (retain (in_window now) rates))
        ≡ (if eqb IpAddr-discrete j ip
            then some (bumped now (get IpAddr-discrete j (retain (in_window now) rates)))
            else get IpAddr-discrete ip (retain (in_window now) rates))
    written = get-insert IpAddr-discrete j ip _ _

    -- A request of another address leaves a running window as it is.
    attempt_other :
        (s n : ℕ)
        → j ≢ ip
        → get IpAddr-discrete ip rates ≡ some (s, n)
        → now < s + 60
        → get IpAddr-discrete ip (attempt limit now j rates).0 ≡ some (s, n)
    unfolding attempt
    attempt_other s n other h w = ground (arith, kept_lookup, written)

    attempt_absent :
        j ≢ ip
        → get IpAddr-discrete ip rates ≡ none
        → get IpAddr-discrete ip (attempt limit now j rates).0 ≡ none
    unfolding attempt
    attempt_absent other h = ground (arith, kept_lookup, written)

    -- A request of the address is counted, and passes if the count is within the limit.
    attempt_counted :
        (s n : ℕ)
        → j ≡ ip
        → get IpAddr-discrete ip rates ≡ some (s, n)
        → now < s + 60
        → n + 1 < 2 ^ 32
        → (get IpAddr-discrete ip (attempt limit now j rates).0 ≡ some (s, n + 1))
          × ((attempt limit now j rates).1 ≡ leb (n + 1) limit)
    unfolding attempt
    attempt_counted s n same h w small = ground (arith, kept_lookup, written)

    attempt_first :
        j ≡ ip
        → get IpAddr-discrete ip rates ≡ none
        → ((get IpAddr-discrete ip (attempt limit now j rates).0 ≡ some (now, 1))
            × ((attempt limit now j rates).1 ≡ leb 1 limit))
          ⊎ ((get IpAddr-discrete ip (attempt limit now j rates).0 ≡ none)
              × ((attempt limit now j rates).1 ≡ false))
    unfolding attempt
    attempt_first same h = ground (arith, kept_lookup, written)

  -- Once the window runs, the requests that pass are those up to the limit.
  admitted_running :
      (ip : IpAddr) (s n : ℕ) (events : List (IpAddr × ℕ)) (rates : Rates)
      → Distinct IpAddr-discrete rates
      → get IpAddr-discrete ip rates ≡ some (s, n)
      → All (λ (e : IpAddr × ℕ). e.1 < s + 60) events
      → n + length events < 2 ^ 32
      → admitted ip events rates ≤ limit - n
  unfolding admitted
  admitted_running ip s n [] rates d h all small = omega arith
  admitted_running ip s n ((j, now) ∷ events) rates d h all small =
      let d' = attempt-Distinct limit now j rates d in
      let rates' = (attempt limit now j rates).0 in
      elim (IpAddr-discrete j ip) [
        | yes same ↦
            let (counted, passed) =
              attempt_counted ip j now rates d s n same h all.0 (omega arith) in
            ground (
              arith,
              counted,
              passed,
              admitted_running ip s (n + 1) events rates' d' counted all.1 (omega arith),
            )
        | no other ↦
            let still = attempt_other ip j now rates d s n other h all.0 in
            ground (arith, admitted_running ip s n events rates' d' still all.1 (omega arith))
      ]

  later_window :
      (t now : ℕ) (events : List (IpAddr × ℕ))
      → t ≤ now
      → All (λ (e : IpAddr × ℕ). (t ≤ e.1) × (e.1 < t + 60)) events
      → All (λ (e : IpAddr × ℕ). e.1 < now + 60) events
  later_window t now [] h all = tt
  later_window t now (e ∷ events) h all = (omega arith, later_window t now events h all.1)

  -- Of the requests that an address without a counter makes in an interval of sixty seconds, no
  -- more than the limit pass, whatever the other addresses do, as long as fewer than 2 ^ 32
  -- requests are made in all.
  pub admitted-le :
      (ip : IpAddr) (t : ℕ) (events : List (IpAddr × ℕ)) (rates : Rates)
      → Distinct IpAddr-discrete rates
      → get IpAddr-discrete ip rates ≡ none
      → All (λ (e : IpAddr × ℕ). (t ≤ e.1) × (e.1 < t + 60)) events
      → length events < 2 ^ 32
      → admitted ip events rates ≤ limit
  unfolding admitted
  admitted-le ip t [] rates d h all small = omega arith
  admitted-le ip t ((j, now) ∷ events) rates d h all small =
      let d' = attempt-Distinct limit now j rates d in
      let rates' = (attempt limit now j rates).0 in
      elim (IpAddr-discrete j ip) [
        | yes same ↦ elim (attempt_first ip j now rates d same h) [
          | inl (counted, passed) ↦ ground (
            arith,
            passed,
            admitted_running ip now 1 events rates' d' counted
                (later_window t now events all.0.0 all.1) (omega arith),
          )
          | inr (still, refused) ↦
              ground (arith, refused, admitted-le ip t events rates' d' still all.1 (omega arith))
        ]
        | no other ↦
            let still = attempt_absent ip j now rates d other h in
            ground (arith, admitted-le ip t events rates' d' still all.1 (omega arith))
      ]
