-- ===== src/Account/RateLimit.antt =====
-- The request counters of src/account: `attempts` of src/account/api.rs (login) and `audit_rate` of
-- src/account/audit.rs. Both count the requests of an address in a window of a minute.
pub mod Window
use openuu_server.Prelude.{
  ℕ, suc, ◌+◌, ◌-◌, ◌%◌, ◌^◌, ◌≤◌, ◌<◌, Bool, true, false, not, ◌&&◌, Option, none, some, List, [],
  ◌∷◌, ◌≡◌, refl, arith, ltb, leb, eqb, if◌then◌else◌, length, Option-cases, inl, inr,
}
use openuu_server.Prelude.Map.{
  get, contains_key, insert, retain, get-insert, get-retain, Distinct, retain-Distinct,
  insert-Distinct, length-retain-le, length-insert-le, length-insert_present,
}
use openuu_server.Prelude.Table.{All}
use openuu_server.Net.{IpAddr, IpAddr-discrete}

-- since when, and how many
abbrev pub Rates : Type 0
Rates = List (IpAddr × (ℕ × ℕ))

abbrev pub in_window : ℕ → IpAddr → ℕ × ℕ → Bool
in_window now ip (since, n) = ltb (now - since) 60

abbrev pub or_insert : ℕ → Option (ℕ × ℕ) → ℕ × ℕ
or_insert now none = (now, 0)
or_insert now (some e) = e

-- `entry.1 += 1` on a u32
abbrev pub bumped : ℕ → Option (ℕ × ℕ) → ℕ × ℕ
bumped now o = let (since, n) = or_insert now o in (since, (n + 1) % 2 ^ 32)

-- The counter after a request, and whether the request may go on.
unfoldable pub attempt : ℕ → ℕ → IpAddr → Rates → Rates × Bool
unfolding contains_key
attempt limit now ip rates =
    let kept = retain (in_window now) rates in
    if leb 10000 (length kept) && not (contains_key IpAddr-discrete ip kept)
    then (kept, false)
    else (let entry = bumped now (get IpAddr-discrete ip kept) in
        (insert IpAddr-discrete ip entry kept, leb entry.1 limit))

-- the guard of `login`
unfoldable pub login_attempt : ℕ → IpAddr → Rates → Rates × Bool
unfolding attempt
login_attempt now ip rates = attempt 10 now ip rates

-- `over_limit`
unfoldable pub over_limit : ℕ → IpAddr → Rates → Rates × Bool
unfolding attempt
over_limit now ip rates = let (rates', admitted) = attempt 60 now ip rates in (rates', not admitted)

pub attempt-Distinct :
    (limit now : ℕ) (ip : IpAddr) (rates : Rates)
    → Distinct IpAddr-discrete rates
    → Distinct IpAddr-discrete (attempt limit now ip rates).0
unfolding attempt
attempt-Distinct limit now ip rates d = ground (
  arith,
  retain-Distinct IpAddr-discrete (in_window now) rates d,
  insert-Distinct IpAddr-discrete ip
      (bumped now (get IpAddr-discrete ip (retain (in_window now) rates)))
      (retain (in_window now) rates),
)

-- The counters never take more than ten thousand entries.
length-attempt :
    (limit now : ℕ) (ip : IpAddr) (rates : Rates)
    → length rates ≤ 10000
    → length (attempt limit now ip rates).0 ≤ 10000
unfolding attempt
length-attempt limit now ip rates h =
    let kept = retain (in_window now) rates in
    let entry = bumped now (get IpAddr-discrete ip kept) in
    elim (Option-cases (get IpAddr-discrete ip kept)) [
      | inl e ↦ ground (
        arith,
        e,
        length-retain-le (in_window now) rates,
        length-insert-le IpAddr-discrete ip entry kept,
      )
      | inr (v, e) ↦ ground (
        arith,
        e,
        length-retain-le (in_window now) rates,
        length-insert_present IpAddr-discrete ip entry v kept e,
      )
    ]
