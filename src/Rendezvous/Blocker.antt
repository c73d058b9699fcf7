-- ===== src/Rendezvous/Blocker.antt =====
-- IP_BLOCKER of src/peer.rs and `check_ip_blocker` of src/rendezvous_server/relay.rs. Instants are
-- milliseconds, and `elapsed().as_secs()` rounds down.
pub mod Bounds
pub mod Burst
use openuu_server.Prelude.{
  ℕ, suc, ◌+◌, ◌-◌, ◌*◌, ◌/◌, ◌≤◌, ◌<◌, String, Bool, true, false, not, ◌&&◌, Option, none, some,
  List, [], ◌∷◌, ◌≡◌, refl, ltb, arith, if◌then◌else◌, eqb, String_discrete, any, length,
}
use openuu_server.Prelude.Map.{get, insert, get-insert}

-- peer.rs, in seconds
abbrev pub ip_block_dur : ℕ
ip_block_dur = 60

abbrev pub day_seconds : ℕ
day_seconds = 3600 * 24

pub record BlockEntry : Type 0 where
  -- the request counter, and its instant
  pub count : ℕ
  pub count_at : ℕ
  -- the set of ids, and its instant
  pub ids : List String
  pub ids_at : ℕ

abbrev pub Blocker : Type 0
Blocker = List (String × BlockEntry)

abbrev pub elapsed_secs : ℕ → ℕ → ℕ
elapsed_secs now t = (now - t) / 1000

abbrev pub has_id : String → List String → Bool
has_id id ids = any (λ x. eqb String_discrete x id) ids

-- the second half: the ids seen from this address
unfoldable pub check_ids : ℕ → String → BlockEntry → BlockEntry × Bool
check_ids now id e =
    let is_new = not (has_id id e.ids) in
    if ltb day_seconds (elapsed_secs now e.ids_at)
    then (record e { ids = if is_new then id ∷ [] else []; ids_at = now }, true)
    else if ltb 300 (length e.ids)
    then (e, not is_new)
    else (record e { ids = if is_new then id ∷ e.ids else e.ids; ids_at = now }, true)

abbrev pub counted : ℕ → BlockEntry → BlockEntry
counted now e = record e {
  count = (if ltb ip_block_dur (elapsed_secs now e.count_at) then 0 else e.count) + 1;
  count_at = now;
}

abbrev pub check_entry : ℕ → String → String → BlockEntry → Blocker → Blocker × Bool
check_entry now ip id e b =
    let expired = ltb ip_block_dur (elapsed_secs now e.count_at) in
    if not expired && ltb 30 e.count
    then (b, false)
    else (let (e', admitted) = check_ids now id (counted now e) in
        (insert String_discrete ip e' b, admitted))

abbrev check_found : ℕ → String → String → Option BlockEntry → Blocker → Blocker × Bool
check_found now ip id none b = (
  insert String_discrete ip (record { count = 0; count_at = now; ids = []; ids_at = now }) b,
  true,
)
check_found now ip id (some e) b = check_entry now ip id e b

unfoldable pub check_ip_blocker : ℕ → String → String → Blocker → Blocker × Bool
check_ip_blocker now ip id b = check_found now ip id (get String_discrete ip b) b

-- What an entry can hold.
pub record IsBounded (e : BlockEntry) : Type 0 where
  pub count : e.count ≤ 31
  pub ids : length e.ids ≤ 301

abbrev pub AllBounded : Blocker → Type 0
AllBounded b = (ip : String) (e : BlockEntry) → get String_discrete ip b ≡ some e → IsBounded e
