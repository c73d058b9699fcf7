-- ===== src/Account/Wol/Lease.antt =====
-- What a wake request becomes (src/account/wol.rs).
use openuu_server.Prelude.{
  ℕ, ◌+◌, ◌<◌, String, Bool, true, not, Option, none, some, List, [], ◌∷◌, ltb, leb, refl, ap, sym,
  arith, ◌≡◌, ◌∙◌, keep, find?, Bool-cases, inl, inr, ◌≢◌, ◌≤◌, ◌&&◌, subst, eqb, Bytes-discrete,
}
use mathlib.Core.List.{Memᴰ}
use openuu_server.Prelude.Table.{any_member}
use openuu_server.Account.Tables.{Session, WolDevice, WolJob, Accounts}
use openuu_server.Account.Store.{Crypto, string_eq}
use openuu_server.Account.Wol.{
  State, targets, queued, availability, is_helper, has_session, mem, is_device, is_job, is_leased,
  latest, poll_as, wanted, wake_as, helper_found, target_found, later_of, answer, wake_by,
}

latest_among :
    (p : WolDevice → Bool) (ds : List WolDevice) (d : WolDevice)
    → latest (keep p ds) ≡ some d
    → p d ≡ true
unfolding keep latest
latest_among p [] d h = cc
latest_among p (x ∷ ds) d h = elim (Bool-cases (p x)) [
  | inr no_x ↦ latest_among p ds d (ground (arith, h, no_x))
  | inl yes_x ↦
      among x (latest (keep p ds)) (latest_among p ds d) refl yes_x (ground (arith, h, yes_x))
]
  where
    among :
        (x : WolDevice) (o : Option WolDevice)
        → (latest (keep p ds) ≡ some d → p d ≡ true)
        → latest (keep p ds) ≡ o
        → p x ≡ true
        → later_of x o ≡ d
        → p d ≡ true
    among x none ih e t k = ap p (sym k) ∙ t
    among x (some y) ih e t k = elim (Bool-cases (ltb x.seen y.seen)) [
      | inl less ↦ let same : y ≡ d = ground (arith, k, less) in ih (e ∙ ap some same)
      | inr more ↦ let same : x ≡ d = ground (arith, k, more) in ap p (sym same) ∙ t
    ]

keep-kept_none : (p : WolJob → Bool) (jobs : List WolJob) → keep p (keep (λ j. not (p j)) jobs) ≡ []
unfolding keep
keep-kept_none p [] = refl
keep-kept_none p (j ∷ jobs) = ground (arith, keep-kept_none p jobs)

-- What the device that is told to wake another one is.
abbrev pub CanWake : Accounts → ℕ → String → String → WolDevice → Type 0
CanWake db now owner target d =
    (d.owner ≡ owner)
    × (d.id ≢ target)
    × (now ≤ d.seen + 30)
    × Memᴰ target d.peers
    × ((s : Session) × Memᴰ s db.account_sessions
        × (s.token_hash ≡ d.session)
        × (s.name ≡ owner)
        × (now < s.expires))

listed : (x : String) (xs : List String) → mem x xs ≡ true → Memᴰ x xs
listed x xs h =
    let (y, there, same) = any_member (λ y. string_eq y x) xs h in
    let is : y ≡ x = ground (arith, same) in subst (λ z. Memᴰ z xs) is there

is_helper-CanWake :
    (db : Accounts) (now : ℕ) (owner target : String) (d : WolDevice)
    → is_helper db now owner target d ≡ true
    → CanWake db now owner target d
is_helper-CanWake db now owner target d h =
    let of_session : has_session db.account_sessions now d ≡ true = ground (arith, h) in
    let (s, there, fits) =
      any_member
        (λ s.
          eqb Bytes-discrete s.token_hash d.session
          && ltb now s.expires
          && string_eq s.name d.owner)
        db.account_sessions of_session in
    let mine : d.owner ≡ owner = ground (arith, h) in
    let its : s.name ≡ d.owner = ground (arith, fits) in
    (
      mine,
      (λ same. absurd (ground (arith, h, same))),
      ground (arith, h),
      listed target d.peers (ground (arith, h)),
      (s, there, ground (arith, fits), its ∙ mine, ground (arith, fits)),
    )

module _ (c : Crypto) where
  -- What a poll that is answered gives out: the targets of the jobs that were leased to the device,
  -- and these jobs are gone.
  poll_as_some :
      (now : ℕ) (owner bearer id : String) (peers : List String) (db : Accounts) {ts : List String}
      {db' : Accounts}
      → poll_as c now owner bearer id peers db ≡ (targets ts, db')
      → (ts ≡ wanted c now peers (keep (is_leased owner id) db.wol_jobs))
        × (db'.wol_jobs ≡ keep (λ j. not (is_leased owner id j)) db.wol_jobs)
  unfolding poll_as
  poll_as_some now owner bearer id peers db h = (ground (arith, h), ground (arith, h))

  -- Each wake request is given out once: of two polls of a device in a row, whatever sessions of
  -- the owner they use and whatever peers they list, the second gets no target.
  pub poll_as_once :
      (now later : ℕ) (owner bearer bearer' id : String) (peers peers' : List String)
      (db : Accounts) {ts ts' : List String} {db' db'' : Accounts}
      → poll_as c now owner bearer id peers db ≡ (targets ts, db')
      → poll_as c later owner bearer' id peers' db' ≡ (targets ts', db'')
      → ts' ≡ []
  unfolding keep
  poll_as_once now later owner bearer bearer' id peers peers' db {ts} {ts'} {db'} {db''} h k =
      let (_, gone) = poll_as_some now owner bearer id peers db h in
      let (out, _) = poll_as_some later owner bearer' id peers' db' k in
      out
      ∙ ap (λ jobs. wanted c later peers' (keep (is_leased owner id) jobs)) gone
      ∙ ap (wanted c later peers') (keep-kept_none (is_leased owner id) db.wol_jobs)

  abbrev job : ℕ → String → String → String → WolJob
  job now owner target helper = record {
    owner = owner;
    target = target;
    helper = helper;
    expires = now + 30;
  }

  woke :
      (now : ℕ) (owner target : String) (a : State × Option String) (db : Accounts) {db' : Accounts}
      → answer (wake_by c now owner target a db) ≡ (queued, db')
      → (id : String) × (a.1 ≡ some id)
        × (db'.wol_jobs
            ≡ job now owner target id ∷ keep (λ j. not (is_job owner target j)) db.wol_jobs)
  woke now owner target (s, none) db h = absurd (ground (arith, h))
  woke now owner target (s, some id) db h = (id, refl, ground (arith, h))

  helper_from :
      (o : Option WolDevice) {s : State} {id : String}
      → helper_found o ≡ (s, some id)
      → (d : WolDevice) × (o ≡ some d) × (d.id ≡ id)
  helper_from none h = absurd (ground (arith, h))
  helper_from (some d) h = (d, refl, ground (arith, h))

  found_from :
      (db : Accounts) (now : ℕ) (owner target : String) (o : Option WolDevice) {s : State}
      {id : String}
      → target_found db now owner target o ≡ (s, some id)
      → (row : WolDevice) × (o ≡ some row)
        × (row.seen + 30 < now)
        × (helper_found (latest (keep (is_helper db now owner target) db.wol_devices))
            ≡ (s, some id))
  found_from db now owner target none h = absurd (ground (arith, h))
  found_from db now owner target (some row) h = elim (Bool-cases (leb now (row.seen + 30))) [
    | inl early ↦ absurd (ground (arith, h, early))
    | inr late ↦ (row, refl, ground arith, ground (arith, h, late))
  ]

  newest :
      (now : ℕ) (owner target helper : String) (jobs : List WolJob)
      → find? (is_job owner target) (job now owner target helper ∷ jobs)
        ≡ some (job now owner target helper)
  unfolding find?
  newest now owner target helper jobs = ground arith

  -- A wake request is queued only for a device of the owner that has not polled for thirty seconds,
  -- and for a helper: another device of the owner that polled within thirty seconds with a session
  -- of the owner that is not expired, and that listed the target. Then the job of this target is
  -- one for this helper, and good for thirty seconds.
  pub wake_as_queued :
      (now : ℕ) (owner target : String) (db : Accounts) {db' : Accounts}
      → wake_as c now owner target db ≡ (queued, db')
      → (row helper : WolDevice) × (find? (is_device owner target) db.wol_devices ≡ some row)
        × (row.seen + 30 < now)
        × CanWake db now owner target helper
        × (find? (is_job owner target) db'.wol_jobs ≡ some (job now owner target helper.id))
  unfolding wake_as availability
  wake_as_queued now owner target db {db'} h = elim (Bool-cases db.available) [
    | inr down ↦ absurd (ground (arith, h, down))
    | inl up ↦
        let a = target_found db now owner target (find? (is_device owner target) db.wol_devices) in
        let (id, e, jobs) = woke now owner target a db {db' = db'} (ground (arith, h, up)) in
        let (row, found, late, via) =
          found_from db now owner target (find? (is_device owner target) db.wol_devices) {s = a.0}
            {id = id} (λ i. (a.0, e i)) in
        let (d, last, same) =
          helper_from (latest (keep (is_helper db now owner target) db.wol_devices)) via in
        (
          row,
          d,
          found,
          late,
          is_helper-CanWake db now owner target d
              (latest_among (is_helper db now owner target) db.wol_devices d last),
          ap (find? (is_job owner target)) jobs
              ∙ newest now owner target id (keep (λ j. not (is_job owner target j)) db.wol_jobs)
              ∙ ap (λ x. some (job now owner target x)) (sym same),
        )
  ]
