-- ===== src/Account/Invariant.antt =====
-- The primary keys of the tables of src/account/store.rs, from one call to the next, with the calls of
-- src/account/wol.rs.
use openuu_server.Prelude.{
  ℕ, String, Bool, not, List, [], ◌∷◌, ◌≡◌, refl, arith, keep, map, leb, eqb, if◌then◌else◌,
  String_discrete, Bytes-discrete,
}
use openuu_server.Prelude.Table.{Unique, keep-Unique, map-Unique}
use openuu_server.Account.Tables.{Account, Session, RelayTicket, Accounts}
use openuu_server.Account.Store.{
  Crypto, named, digest, owned_by, is_redeemable, revoke_user, create_user, set_password,
  set_enabled, delete_user, login, ticket, redeem, revoke,
}
use openuu_server.Account.Wol.{poll, wake}
use openuu_server.Account.Wol.Apart.{Apart, poll-Apart, wake-Apart}

pub record WellFormed (db : Accounts) : Type 0 where
  pub names : Unique String_discrete (λ (a : Account). a.name) db.accounts
  pub sessions : Unique Bytes-discrete (λ (s : Session). s.token_hash) db.account_sessions
  pub tickets : Unique Bytes-discrete (λ (t : RelayTicket). t.hash) db.relay_tickets

module _ {db : Accounts} (w : WellFormed db) where
  keep_accounts :
      (p : Account → Bool) → Unique String_discrete (λ (a : Account). a.name) (keep p db.accounts)
  keep_accounts p = keep-Unique String_discrete (λ (a : Account). a.name) p db.accounts w.names

  keep_sessions :
      (p : Session → Bool)
      → Unique Bytes-discrete (λ (s : Session). s.token_hash) (keep p db.account_sessions)
  keep_sessions p =
      keep-Unique Bytes-discrete (λ (s : Session). s.token_hash) p db.account_sessions w.sessions

  keep_tickets :
      (p : RelayTicket → Bool)
      → Unique Bytes-discrete (λ (t : RelayTicket). t.hash) (keep p db.relay_tickets)
  keep_tickets p =
      keep-Unique Bytes-discrete (λ (t : RelayTicket). t.hash) p db.relay_tickets w.tickets

  pub revoke_user-WellFormed : (name : String) → WellFormed (revoke_user name db).1
  unfolding revoke_user
  revoke_user-WellFormed name = ground (
    arith,
    keep_tickets (λ t. not (owned_by name db.account_sessions t.session_hash)),
    keep_sessions (λ s. not (eqb String_discrete s.name name)),
  )

  module _ (c : Crypto) where
    pub create_user-WellFormed :
        (salt name password : String) → WellFormed (create_user c salt name password db).1
    unfolding create_user
    create_user-WellFormed salt name password = ground arith

    pub login-WellFormed :
        (now : ℕ) (token name password : String) → WellFormed (login c now token name password db).1
    unfolding login
    login-WellFormed now token name password =
        ground (arith, keep_sessions (λ s. not (leb s.expires now)))

    pub ticket-WellFormed :
        (now : ℕ) (new token id : String) → WellFormed (ticket c now new token id db).1
    unfolding ticket
    ticket-WellFormed now new token id = ground (arith, keep_tickets (λ t. not (leb t.expires now)))

    pub redeem-WellFormed : (now : ℕ) (t id : String) → WellFormed (redeem c now t id db).1
    unfolding redeem
    redeem-WellFormed now t id =
        ground (arith, keep_tickets (λ r. not (is_redeemable db now (digest c t) id r)))

    revoke-WellFormed : (token : String) → WellFormed (revoke c token db).1
    unfolding revoke
    revoke-WellFormed token =
        ground (arith, keep_sessions (λ s. not (eqb Bytes-discrete s.token_hash (digest c token))))

  -- An UPDATE that leaves the names alone keeps them distinct.
  update_accounts :
      (name : String) (f : Account → Account)
      → ((a : Account) → (f a).name ≡ a.name)
      → Unique String_discrete
          (λ (a : Account). a.name)
          (map (λ a. if named name a then f a else a) db.accounts)
  update_accounts name f h =
      map-Unique String_discrete (λ (a : Account). a.name) (λ a. if named name a then f a else a)
        db.accounts (λ a. ground (arith, h a)) w.names

  module _ (c : Crypto) where
    pub set_password-WellFormed :
        (salt name password : String) → WellFormed (set_password c salt name password db).1
    unfolding set_password
    set_password-WellFormed salt name password = ground (
      arith,
      update_accounts name (λ a. record a { password_hash = c.hash salt password }) (λ a. refl),
      keep_tickets (λ t. not (owned_by name db.account_sessions t.session_hash)),
      keep_sessions (λ s. not (eqb String_discrete s.name name)),
    )

    pub set_enabled-WellFormed :
        (name : String) (enabled : Bool) → WellFormed (set_enabled c name enabled db).1
    unfolding set_enabled
    set_enabled-WellFormed name enabled = ground (
      arith,
      update_accounts name (λ a. record a { enabled = enabled }) (λ a. refl),
      keep_tickets (λ t. not (owned_by name db.account_sessions t.session_hash)),
      keep_sessions (λ s. not (eqb String_discrete s.name name)),
    )

    pub delete_user-WellFormed : (name : String) → WellFormed (delete_user c name db).1
    unfolding delete_user
    delete_user-WellFormed name = ground (
      arith,
      keep_accounts (λ a. not (named name a)),
      keep_tickets (λ t. not (owned_by name db.account_sessions t.session_hash)),
      keep_sessions (λ s. not (eqb String_discrete s.name name)),
    )

Apart-WellFormed : {db db' : Accounts} → Apart db db' → WellFormed db → WellFormed db'
Apart-WellFormed a w = record {
  names = rw a.accounts w.names;
  sessions = rw a.sessions w.sessions;
  tickets = rw a.tickets w.tickets;
}

-- A call of the account service that can write to the tables: those of store.rs, and two requests of
-- wol.rs.
pub data Call : Type 0 where
  creates_user sets_password : String → String → String → Call
  sets_enabled : String → Bool → Call
  deletes_user revokes : String → Call
  logs_in tickets : ℕ → String → String → String → Call
  redeems : ℕ → String → String → Call
  -- with the token of the session
  polls : ℕ → String → String → List String → Call
  wakes : ℕ → String → String → Call

module _ (c : Crypto) where
  -- the tables after a call, whatever it returned
  unfoldable pub step : Call → Accounts → Accounts
  step (creates_user salt name password) db = (create_user c salt name password db).1
  step (sets_password salt name password) db = (set_password c salt name password db).1
  step (sets_enabled name enabled) db = (set_enabled c name enabled db).1
  step (deletes_user name) db = (delete_user c name db).1
  step (revokes token) db = (revoke c token db).1
  step (logs_in now token name password) db = (login c now token name password db).1
  step (tickets now new token id) db = (ticket c now new token id db).1
  step (redeems now t id) db = (redeem c now t id db).1
  step (polls now bearer id peers) db = (poll c now bearer id peers db).1
  step (wakes now bearer target) db = (wake c now bearer target db).1

  unfoldable pub run : List Call → Accounts → Accounts
  run [] db = db
  run (op ∷ ops) db = run ops (step op db)

  pub step-WellFormed : (op : Call) {db : Accounts} → WellFormed db → WellFormed (step op db)
  unfolding step
  step-WellFormed (creates_user salt name password) w =
      create_user-WellFormed w c salt name password
  step-WellFormed (sets_password salt name password) w =
      set_password-WellFormed w c salt name password
  step-WellFormed (sets_enabled name enabled) w = set_enabled-WellFormed w c name enabled
  step-WellFormed (deletes_user name) w = delete_user-WellFormed w c name
  step-WellFormed (revokes token) w = revoke-WellFormed w c token
  step-WellFormed (logs_in now token name password) w = login-WellFormed w c now token name password
  step-WellFormed (tickets now new token id) w = ticket-WellFormed w c now new token id
  step-WellFormed (redeems now t id) w = redeem-WellFormed w c now t id
  step-WellFormed (polls now bearer id peers) {db} w =
      Apart-WellFormed (poll-Apart c now bearer id peers db) w
  step-WellFormed (wakes now bearer target) {db} w =
      Apart-WellFormed (wake-Apart c now bearer target db) w

  -- Whatever calls are made, and whether they succeed or fail, the account names, the session
  -- hashes and the ticket hashes stay distinct.
  pub run-WellFormed : (ops : List Call) {db : Accounts} → WellFormed db → WellFormed (run ops db)
  unfolding run
  run-WellFormed [] w = w
  run-WellFormed (op ∷ ops) w = run-WellFormed ops (step-WellFormed op w)
