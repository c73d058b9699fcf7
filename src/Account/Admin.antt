-- ===== src/Account/Admin.antt =====
-- The command line of the account service: `admin` and the dispatch of `main` of src/account_main.rs, and
-- `list_users` of src/account/store.rs.
pub mod Listing
use openuu_server.Prelude.{
  ℕ, String, Bool, true, false, not, ◌&&◌, ◌||◌, Option, none, some, List, [], ◌∷◌, map, ltb, ◌==◌,
  if◌then◌else◌, count, length, String_discrete,
}
use openuu_server.Account.Tables.{Account, Session, Accounts, Error, Result, ok, err, Db, query}
use openuu_server.Account.Store.{
  Crypto, string_eq, create_user, set_password, set_enabled, delete_user,
}

pub record AccountSummary : Type 0 where
  pub name : String
  pub enabled : Bool
  pub sessions : ℕ

-- ORDER BY a.name, by the collation of SQLite
module _ (name_le : String → String → Bool) where
  unfoldable pub insert_row : AccountSummary → List AccountSummary → List AccountSummary
  insert_row r [] = r ∷ []
  insert_row r (q ∷ rows) =
      let rest = insert_row r rows in if name_le r.name q.name then r ∷ q ∷ rows else q ∷ rest

  unfoldable pub order_by_name : List AccountSummary → List AccountSummary
  unfolding insert_row
  order_by_name [] = []
  order_by_name (r ∷ rows) = insert_row r (order_by_name rows)

abbrev pub summary : ℕ → List Session → Account → AccountSummary
summary now sessions a = record {
  name = a.name;
  enabled = a.enabled;
  sessions = count (λ s. string_eq s.name a.name && ltb now s.expires) sessions;
}

unfoldable pub list_users : (String → String → Bool) → ℕ → Db (List AccountSummary)
unfolding order_by_name
list_users name_le now =
    query (λ db. order_by_name name_le (map (summary now db.account_sessions) db.accounts))

-- What the program prints, or why it fails.
pub data Outcome : Type 0 where
  usage no_password done : Outcome
  failed : Error → Outcome
  listed : List AccountSummary → Outcome

abbrev unit_outcome : Result (Unit {0}) × Accounts → Outcome × Accounts
unit_outcome (ok _, db) = (done, db)
unit_outcome (err e, db) = (failed e, db)

abbrev list_outcome : Result (List AccountSummary) × Accounts → Outcome × Accounts
list_outcome (ok rows, db) = (listed rows, db)
list_outcome (err e, db) = (failed e, db)

-- `new_password()?` before an operation
abbrev with_password : Option String → (String → Db (Unit {0})) → Accounts → Outcome × Accounts
with_password none f db = (no_password, db)
with_password (some password) f db = unit_outcome (f password db)

module _ (c : Crypto) (name_le : String → String → Bool) (now : ℕ) (salt : String)
    (password : Option String) where
  abbrev named_command : String → String → Accounts → Outcome × Accounts
  named_command command name db =
      if string_eq command "create"
      then with_password password (λ p. create_user c salt name p) db
      else if string_eq command "passwd"
      then with_password password (λ p. set_password c salt name p) db
      else if string_eq command "disable"
      then unit_outcome (set_enabled c name false db)
      else if string_eq command "enable"
      then unit_outcome (set_enabled c name true db)
      else if string_eq command "delete"
      then unit_outcome (delete_user c name db)
      else (usage, db)

  -- `password` is OPENUU_NEW_PASSWORD
  unfoldable pub admin : String → Option String → Accounts → Outcome × Accounts
  unfolding create_user set_password set_enabled delete_user list_users String_discrete
  admin command none db =
      if string_eq command "list" then list_outcome (list_users name_le now db) else (usage, db)
  admin command (some name) db =
      if string_eq command "list" then (usage, db) else named_command command name db

  abbrev run_command : String → List String → Accounts → Outcome × Accounts
  run_command command [] db = admin command none db
  run_command command (name ∷ []) db = admin command (some name) db
  run_command command (name ∷ more ∷ args) db = (usage, db)

  -- the arguments of main after the program's name: the first, and the others
  unfoldable pub command_line : String → List String → Accounts → Outcome × Accounts
  unfolding admin
  command_line command args db =
      if string_eq command "-h" || string_eq command "--help" || string_eq command "help"
      then (usage, db)
      else run_command command args db
