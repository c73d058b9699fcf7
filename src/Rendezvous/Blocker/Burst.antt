-- ===== src/Rendezvous/Blocker/Burst.antt =====
-- How often one address gets through `check_ip_blocker` (src/rendezvous_server/relay.rs).
use openuu_server.Prelude.{
  ℕ, suc, ◌+◌, ◌-◌, ◌≤◌, ◌<◌, String, false, ◌&&◌, Option, none, some, List, [], ◌∷◌, ◌≡◌, ◌≢◌, ◌⊎◌,
  refl, ltb, arith, sym, ap, ◌∙◌, Bool-cases, if◌then◌else◌, eqb, String_discrete, inl, inr,
}
use openuu_server.Prelude.Map.{get, get-insert}
use openuu_server.Prelude.Table.{All}
use openuu_server.Rendezvous.Blocker.{
  Blocker, BlockEntry, counted, check_ip_blocker, check_ids, elapsed_secs, ip_block_dur,
}

-- A call of `check_ip_blocker`: the address, the id, and when.
pub record Request : Type 0 where
  pub ip : String
  pub id : String
  pub now : ℕ

-- How many of the requests of `ip` get through, in a run of requests of any addresses.
pub admitted : String → List Request → Blocker → ℕ
admitted ip [] b = 0
admitted ip (r ∷ rs) b =
    let rest = admitted ip rs (check_ip_blocker r.now r.ip r.id b).0 in
    if eqb String_discrete r.ip ip && (check_ip_blocker r.now r.ip r.id b).1 then suc rest else rest

check_ids_counter :
    (now : ℕ) (id : String) (e : BlockEntry)
    → ((check_ids now id e).0.count ≡ e.count) × ((check_ids now id e).0.count_at ≡ e.count_at)
unfolding check_ids
check_ids_counter now id e = (ground arith, ground arith)

request_other :
    (r : Request) (ip : String) (b : Blocker) (o : Option BlockEntry)
    → get String_discrete r.ip b ≡ o
    → r.ip ≢ ip
    → get String_discrete ip (check_ip_blocker r.now r.ip r.id b).0 ≡ get String_discrete ip b
unfolding check_ip_blocker
request_other r ip b none q other = ground (
  arith,
  get-insert String_discrete r.ip ip
      (record { count = 0; count_at = r.now; ids = []; ids_at = r.now }) b,
)
request_other r ip b (some e) q other =
    ground (arith, get-insert String_discrete r.ip ip (check_ids r.now r.id (counted r.now e)).0 b)

-- A request within the minute of the last counted one is counted or refused.
request_counted :
    (r : Request) (b : Blocker) (e : BlockEntry)
    → get String_discrete r.ip b ≡ some e
    → elapsed_secs r.now e.count_at ≤ ip_block_dur
    → ((e' : BlockEntry) × (get String_discrete r.ip (check_ip_blocker r.now r.ip r.id b).0
          ≡ some e')
        × (e'.count ≡ e.count + 1)
        × (e'.count_at ≡ r.now)
        × (e.count ≤ 30))
      ⊎ ((get String_discrete r.ip (check_ip_blocker r.now r.ip r.id b).0 ≡ some e)
          × ((check_ip_blocker r.now r.ip r.id b).1 ≡ false))
unfolding check_ip_blocker
request_counted r b e h w = elim (Bool-cases (ltb 30 e.count)) [
  | inl over ↦ inr (ground arith, ground arith)
  | inr under ↦
      let e' = (check_ids r.now r.id (counted r.now e)).0 in
      inl (
        e',
        ground (arith, get-insert String_discrete r.ip r.ip e' b),
        ground (arith, check_ids_counter r.now r.id (counted r.now e)),
        ground (arith, check_ids_counter r.now r.id (counted r.now e)),
        ground arith,
      )
]

request_first :
    (r : Request) (b : Blocker)
    → get String_discrete r.ip b ≡ none
    → (e : BlockEntry) × (get String_discrete r.ip (check_ip_blocker r.now r.ip r.id b).0 ≡ some e)
      × (e.count ≡ 0)
      × (e.count_at ≡ r.now)
unfolding check_ip_blocker
request_first r b h =
    let e : BlockEntry = record { count = 0; count_at = r.now; ids = []; ids_at = r.now } in
    (e, ground (arith, get-insert String_discrete r.ip r.ip e b), refl, refl)

abbrev pub WithinMinute : ℕ → List Request → Type 0
WithinMinute t = All (λ (r : Request). (t ≤ r.now) × (r.now < t + 61000))

admitted_running :
    (ip : String) (t : ℕ) (rs : List Request) (b : Blocker) (e : BlockEntry)
    → get String_discrete ip b ≡ some e
    → t ≤ e.count_at
    → WithinMinute t rs
    → admitted ip rs b ≤ 31 - e.count
unfolding admitted
admitted_running ip t [] b e h s all = omega arith
admitted_running ip t (r ∷ rs) b e h s all =
    let b' = (check_ip_blocker r.now r.ip r.id b).0 in
    elim (String_discrete r.ip ip) [
      | no other ↦
          let same = request_other r ip b (get String_discrete r.ip b) refl other ∙ h in
          ground (arith, admitted_running ip t rs b' e same s all.1)
      | yes is ↦
          elim (request_counted r b e (ap (λ x. get String_discrete x b) is ∙ h) (omega arith)) [
            | inl (e', found, c, at, low) ↦ ground (
              arith,
              admitted_running ip t rs b' e' (ap (λ x. get String_discrete x b') (sym is) ∙ found)
                  (omega arith) all.1,
            )
            | inr (found, refused) ↦ ground (
              arith,
              refused,
              admitted_running ip t rs b' e (ap (λ x. get String_discrete x b') (sym is) ∙ found) s
                  all.1,
            )
          ]
    ]

-- Of the requests that an address without an entry makes in an interval of 61 seconds, at most 32
-- get through, whatever ids they name and whatever the other addresses do.
pub check_ip_blocker_burst :
    (ip : String) (t : ℕ) (rs : List Request) (b : Blocker)
    → get String_discrete ip b ≡ none
    → WithinMinute t rs
    → admitted ip rs b ≤ 32
unfolding admitted
check_ip_blocker_burst ip t [] b h all = omega arith
check_ip_blocker_burst ip t (r ∷ rs) b h all =
    let b' = (check_ip_blocker r.now r.ip r.id b).0 in
    elim (String_discrete r.ip ip) [
      | no other ↦
          let same = request_other r ip b (get String_discrete r.ip b) refl other ∙ h in
          ground (arith, check_ip_blocker_burst ip t rs b' same all.1)
      | yes is ↦
          let (e, found, c, at) = request_first r b (ap (λ x. get String_discrete x b) is ∙ h) in
          ground (
            arith,
            admitted_running ip t rs b' e (ap (λ x. get String_discrete x b') (sym is) ∙ found)
                (omega arith) all.1,
          )
    ]
