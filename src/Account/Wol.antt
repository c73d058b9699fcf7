-- ===== src/Account/Wol.antt =====
-- Wake on LAN, src/account/wol.rs: a device polls for the wake requests that it is the helper of.
-- `peers` is kept as the list that its JSON text was made from.
pub mod Lease
pub mod Apart
use Prim.Native.String.{len}
use openuu_server.Prelude.{
  ℕ, ◌+◌, String, Bool, true, false, not, ◌&&◌, ◌||◌, Option, none, some, List, [], ◌∷◌, map, ltb,
  leb, ◌==◌, if◌then◌else◌, eqb, Bytes-discrete, Bytes, length, keep, any, find?, is_empty,
}
use openuu_server.Account.Tables.{
  Session, WolDevice, WolJob, Accounts, Db, Result, ok, err, ◌>>=◌, ◌>>◌, pure, query, execute,
}
use openuu_server.Account.Store.{Crypto, digest, user, string_eq, all_name_chars}
use openuu_server.Account.Api.{
  StatusCode, bad_request, unauthorized, service_unavailable, too_many_requests,
}

pub data State : Type 0 where
  unregistered online available no_helper : State

pub data Answer : Type 0 where
  targets : List String → Answer
  state : State → Answer
  queued : Answer
  refused : StatusCode → Answer
  -- CONFLICT, with the state as its message
  conflict_state : State → Answer

unfoldable pub valid : String → Bool
unfolding all_name_chars
valid id = not (len id == 0) && leb (len id) 128 && all_name_chars id

abbrev pub mem : String → List String → Bool
mem x xs = any (λ y. string_eq y x) xs

abbrev pub is_device : String → String → WolDevice → Bool
is_device owner id d = string_eq d.owner owner && string_eq d.id id

abbrev pub is_job : String → String → WolJob → Bool
is_job owner target j = string_eq j.owner owner && string_eq j.target target

-- WHERE owner=? AND helper=?
abbrev pub is_leased : String → String → WolJob → Bool
is_leased owner id j = string_eq j.owner owner && string_eq j.helper id

-- `s.expires>? AND s.name=d.owner` of the session that the device polled with
abbrev pub has_session : List Session → ℕ → WolDevice → Bool
has_session sessions now d =
    any
      (λ s.
        eqb Bytes-discrete s.token_hash d.session && ltb now s.expires && string_eq s.name d.owner)
      sessions

-- a helper that can wake the target
abbrev pub is_helper : Accounts → ℕ → String → String → WolDevice → Bool
is_helper db now owner target d =
    string_eq d.owner owner
    && not (string_eq d.id target)
    && leb now (d.seen + 30)
    && has_session db.account_sessions now d
    && mem target d.peers

abbrev pub later_of : WolDevice → Option WolDevice → WolDevice
later_of d none = d
later_of d (some e) = if ltb d.seen e.seen then e else d

-- ORDER BY seen DESC, and the first row; rows seen in the same second may come in any order
unfoldable pub latest : List WolDevice → Option WolDevice
latest [] = none
latest (d ∷ ds) = let rest = latest ds in some (later_of d rest)

abbrev pub helper_found : Option WolDevice → State × Option String
helper_found none = (no_helper, none)
helper_found (some d) = (available, some d.id)

abbrev pub target_found : Accounts → ℕ → String → String → Option WolDevice → State × Option String
target_found db now owner target none = (unregistered, none)
target_found db now owner target (some row) =
    if leb now (row.seen + 30)
    then (online, none)
    else helper_found (latest (keep (is_helper db now owner target) db.wol_devices))

unfoldable pub availability : ℕ → String → String → Db (State × Option String)
unfolding latest
availability now owner target =
    query λ db. target_found db now owner target (find? (is_device owner target) db.wol_devices)

-- `map_err(unavailable)`
abbrev pub answer : Result Answer × Accounts → Answer × Accounts
answer (ok a, db) = (a, db)
answer (err e, db) = (refused service_unavailable, db)

module _ (c : Crypto) where
  -- the helper function `owner`, and the handler on the owner
  abbrev pub as_owner :
      (String → Accounts → Answer × Accounts)
      → Result (Option String) × Accounts
      → Answer × Accounts
  as_owner handler (err e, db) = (refused service_unavailable, db)
  as_owner handler (ok none, db) = (refused unauthorized, db)
  as_owner handler (ok (some owner), db) = handler owner db

  abbrev pub polled : ℕ → String → String → String → List String → WolDevice
  polled now owner bearer id peers = record {
    owner = owner;
    id = id;
    seen = now;
    session = digest c bearer;
    peers = peers;
  }

  abbrev pub wanted : ℕ → List String → List WolJob → List String
  wanted now peers jobs =
      keep (λ t. mem t peers) (map (λ (j : WolJob). j.target) (keep (λ j. ltb now j.expires) jobs))

  unfoldable pub poll_as : ℕ → String → String → String → List String → Accounts → Answer × Accounts
  unfolding valid
  poll_as now owner bearer id peers db =
      if not (valid id) || ltb 256 (length peers) || any (λ p. not (valid p)) peers
      then (refused bad_request, db)
      else answer (poll_rows db)
    where
      poll_rows : Db Answer
      poll_rows = do
        execute λ db. record db {
          wol_devices =
              polled now owner bearer id peers
              ∷ keep (λ d. not (is_device owner id d)) db.wol_devices;
        }
        jobs ← query (λ db. keep (is_leased owner id) db.wol_jobs)
        execute λ db. record db { wol_jobs = keep (λ j. not (is_leased owner id j)) db.wol_jobs }
        pure (targets (wanted now peers jobs))

  unfoldable pub poll : ℕ → String → String → List String → Accounts → Answer × Accounts
  unfolding user poll_as
  poll now bearer id peers db =
      as_owner (λ owner. poll_as now owner bearer id peers) (user c now bearer db)

  unfoldable pub status : ℕ → String → String → Accounts → Answer × Accounts
  unfolding user availability
  status now bearer target db =
      as_owner
        (λ owner db. answer ((availability now owner target >>= λ (s, h). pure (state s)) db))
        (user c now bearer db)

  -- INSERT ... ON CONFLICT(owner,target) DO UPDATE ... WHERE wol_jobs.expires<?
  abbrev pub enqueue : ℕ → String → String → String → Db Bool
  enqueue now owner target helper = do
    taken ← query (λ db. any (λ j. is_job owner target j && not (ltb j.expires now)) db.wol_jobs)
    if taken then pure false else do
      execute λ db. record db {
        wol_jobs =
            record { owner = owner; target = target; helper = helper; expires = now + 30 }
            ∷ keep (λ j. not (is_job owner target j)) db.wol_jobs;
      }
      pure true

  abbrev pub wake_by : ℕ → String → String → State × Option String → Db Answer
  wake_by now owner target (s, none) = pure (conflict_state s)
  wake_by now owner target (s, some helper) = do
    inserted ← enqueue now owner target helper
    if inserted then pure queued else pure (refused too_many_requests)

  unfoldable pub wake_as : ℕ → String → String → Accounts → Answer × Accounts
  unfolding availability
  wake_as now owner target db =
      answer ((availability now owner target >>= wake_by now owner target) db)

  unfoldable pub wake : ℕ → String → String → Accounts → Answer × Accounts
  unfolding user wake_as
  wake now bearer target db = as_owner (λ owner. wake_as now owner target) (user c now bearer db)
