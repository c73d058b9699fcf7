-- ===== src/Account/Tables.antt =====
-- The SQLite tables of src/account/store.rs and src/account/wol.rs, and what a statement can do.
use openuu_server.Prelude.{ℕ, String, Bool, List, if◌then◌else◌, Bytes}

-- accounts(name PRIMARY KEY, password_hash, enabled)
pub record Account : Type 0 where
  pub name : String
  pub password_hash : String
  pub enabled : Bool

-- account_sessions(token_hash PRIMARY KEY, name, expires)
pub record Session : Type 0 where
  pub token_hash : Bytes
  pub name : String
  pub expires : ℕ

-- relay_tickets(hash PRIMARY KEY, session_hash, relay_id, expires)
pub record RelayTicket : Type 0 where
  pub hash : Bytes
  pub session_hash : Bytes
  pub relay_id : String
  pub expires : ℕ

-- wol_devices(owner, id, seen, session, peers, PRIMARY KEY(owner, id))
pub record WolDevice : Type 0 where
  pub owner : String
  pub id : String
  pub seen : ℕ
  pub session : Bytes
  pub peers : List String

-- wol_jobs(owner, target, helper, expires, PRIMARY KEY(owner, target))
pub record WolJob : Type 0 where
  pub owner : String
  pub target : String
  pub helper : String
  pub expires : ℕ

-- `available` is false while the database file cannot be used: every statement fails.
pub record Accounts : Type 0 where
  pub accounts : List Account
  pub account_sessions : List Session
  pub relay_tickets : List RelayTicket
  pub wol_devices : List WolDevice
  pub wol_jobs : List WolJob
  pub available : Bool

pub data Error : Type 0 where
  unavailable conflict bad_password bad_name no_such_account : Error

pub data Result {ℓ} (A : Type ℓ) : Type ℓ where
  ok : A → Result A
  err : Error → Result A

-- An operation keeps what it wrote before it failed, so the tables come back beside an error too.
abbrev pub Db {ℓ} : Type ℓ → Type ℓ
Db A = Accounts → Result A × Accounts

module _ {ℓ κ} {A : Type ℓ} {B : Type κ} where
  abbrev pub continue :
      Result A → (A → Accounts → Result B × Accounts) → Accounts → Result B × Accounts
  continue (ok a) f db = f a db
  continue (err e) f db = (err e, db)

  infixl 5 ◌>>=◌ ◌>>◌
  abbrev pub ◌>>=◌ : Db A → (A → Db B) → Db B
  ◌>>=◌ m f db = let (r, db') = m db in continue r f db'

  abbrev pub ◌>>◌ : Db A → Db B → Db B
  m >> n = m >>= λ _. n

module _ {ℓ} {A : Type ℓ} where
  abbrev pub pure : A → Db A
  pure a db = (ok a, db)

  abbrev pub fail : Error → Db A
  fail e db = (err e, db)

  -- A query reads the tables.
  abbrev pub query : (Accounts → A) → Db A
  query f db = if db.available then (ok (f db), db) else (err unavailable, db)

-- An UPDATE or DELETE writes them.
abbrev pub execute : (Accounts → Accounts) → Db (Unit {0})
execute f db = if db.available then (ok tt, f db) else (err unavailable, db)

-- An INSERT fails on a primary key that is taken.
abbrev pub insert_into : (Accounts → Bool) → (Accounts → Accounts) → Db (Unit {0})
insert_into taken f db =
    if db.available
    then (if taken db then (err conflict, db) else (ok tt, f db))
    else (err unavailable, db)
