-- ===== src/Account/Store.antt =====
-- `impl Accounts` of src/account/store.rs. A method is an action on the tables. The clock (`now`,
-- in seconds) is read once for an operation; the random tokens and the bcrypt salt are arguments.
use Prim.Native.Char.{code}
use Prim.Native.String.{len}
use openuu_server.Prelude.{
  ℕ, ◌+◌, String, Bool, true, false, not, ◌&&◌, ◌||◌, Option, none, some, List, ◌∷◌, map, ltb, leb,
  ◌==◌, if◌then◌else◌, eqb, String_discrete, Bytes, Bytes-discrete, keep, any, count, find?,
}
use openuu_server.Account.Tables.{
  Account, Session, RelayTicket, Accounts, Db, bad_password, bad_name, no_such_account, ◌>>=◌, ◌>>◌,
  pure, fail, query, execute, insert_into,
}

-- What the service takes from sodiumoxide and bcrypt.
pub record Crypto : Type 0 where
  pub sha256 : String → Bytes
  -- bcrypt::hash, with the salt it draws
  pub hash : String → String → String
  -- bcrypt::verify
  pub verify : String → String → Bool

abbrev pub string_eq : String → String → Bool
string_eq = eqb String_discrete

-- c.is_ascii_alphanumeric()
unfoldable pub is_ascii_alphanumeric : ℕ → Bool
is_ascii_alphanumeric c =
    leb b'0' c && leb c b'9' || leb b'a' c && leb c b'z' || leb b'A' c && leb c b'Z'

unfoldable pub all_name_chars : String → Bool
unfolding is_ascii_alphanumeric
all_name_chars String.[] = true
all_name_chars (String.◌∷◌ c s) =
    let rest = all_name_chars s in
    let n = code c in (is_ascii_alphanumeric n || n == b'.' || n == b'_' || n == b'-') && rest

unfoldable pub valid_name : String → Bool
unfolding all_name_chars
valid_name name = ltb 0 (len name) && leb (len name) 64 && all_name_chars name

-- DELETE FROM relay_tickets WHERE session_hash IN (SELECT ... WHERE name=?)
abbrev pub owned_by : String → List Session → Bytes → Bool
owned_by name sessions h =
    any (λ s. eqb Bytes-discrete s.token_hash h && string_eq s.name name) sessions

-- `s.expires>? AND a.enabled=1` of a session joined to its account
abbrev pub is_live : List Account → ℕ → Session → Bool
is_live accounts now s =
    ltb now s.expires && any (λ a. string_eq a.name s.name && a.enabled) accounts

-- `session_hash IN (SELECT s.token_hash FROM account_sessions s JOIN accounts a ...)`
abbrev pub has_live_session : Accounts → ℕ → Bytes → Bool
has_live_session db now h =
    any (λ s. eqb Bytes-discrete s.token_hash h && is_live db.accounts now s) db.account_sessions

-- the WHERE clause of `redeem`
abbrev pub is_redeemable : Accounts → ℕ → Bytes → String → RelayTicket → Bool
is_redeemable db now h relay_id t =
    eqb Bytes-discrete t.hash h
    && string_eq t.relay_id relay_id
    && ltb now t.expires
    && has_live_session db now t.session_hash

unfoldable pub revoke_user : String → Db (Unit {0})
revoke_user name = do
  execute λ db. record db {
    relay_tickets =
        keep (λ t. not (owned_by name db.account_sessions t.session_hash)) db.relay_tickets;
  }
  execute λ db. record db {
    account_sessions = keep (λ s. not (string_eq s.name name)) db.account_sessions;
  }

abbrev pub named : String → Account → Bool
named name a = string_eq a.name name

-- UPDATE accounts SET ... WHERE name=?, and its `rows_affected() == 0` check
abbrev pub update_account : String → (Account → Account) → Db (Unit {0})
update_account name f = do
  n ← query (λ db. count (named name) db.accounts)
  execute λ db. record db { accounts = map (λ a. if named name a then f a else a) db.accounts }
  if n == 0 then fail no_such_account else pure tt

-- SELECT password_hash FROM accounts WHERE name=? AND enabled=1
abbrev pub find_enabled : Accounts → String → Option Account
find_enabled db name = find? (λ a. named name a && a.enabled) db.accounts

-- why `redeem` said no
pub data Failure : Type 0 where
  unknown expired relay_mismatch : Failure

module _ (c : Crypto) where
  abbrev pub digest : String → Bytes
  digest token = c.sha256 token

  unfoldable pub hash_password : String → String → Db String
  hash_password salt password =
      if ltb (len password) 12 || ltb 72 (len password)
      then fail bad_password
      else pure (c.hash salt password)

  unfoldable pub create_user : String → String → String → Db (Unit {0})
  unfolding hash_password valid_name
  create_user salt name password = if not (valid_name name) then fail bad_name else do
    hash ← hash_password salt password
    insert_into (λ db. any (named name) db.accounts)
        λ db. record db {
          accounts = record { name = name; password_hash = hash; enabled = true } ∷ db.accounts;
        }

  unfoldable pub set_password : String → String → String → Db (Unit {0})
  unfolding hash_password revoke_user
  set_password salt name password = do
    hash ← hash_password salt password
    update_account name (λ a. record a { password_hash = hash })
    revoke_user name

  unfoldable pub set_enabled : String → Bool → Db (Unit {0})
  unfolding revoke_user
  set_enabled name enabled = do
    update_account name (λ a. record a { enabled = enabled })
    if enabled then pure tt else revoke_user name

  unfoldable pub delete_user : String → Db (Unit {0})
  unfolding revoke_user
  delete_user name = do
    revoke_user name
    execute λ db. record db { wol_jobs = keep (λ j. not (string_eq j.owner name)) db.wol_jobs }
    execute
        λ db. record db { wol_devices = keep (λ d. not (string_eq d.owner name)) db.wol_devices }
    n ← query (λ db. count (named name) db.accounts)
    execute λ db. record db { accounts = keep (λ a. not (named name a)) db.accounts }
    if n == 0 then fail no_such_account else pure tt

  -- the session of a token, if it is live
  abbrev pub find_session : Accounts → ℕ → String → Option Session
  find_session db now token =
      find? (λ s. eqb Bytes-discrete s.token_hash (digest token) && is_live db.accounts now s)
        db.account_sessions

  abbrev pub session_name : Option Session → Option String
  session_name none = none
  session_name (some s) = some s.name

  unfoldable pub user : ℕ → String → Db (Option String)
  user now token =
      if not (len token == 64)
      then pure none
      else query (λ db. session_name (find_session db now token))

  abbrev pub verified : String → Option Account → Bool
  verified password none = false
  verified password (some a) = c.verify password a.password_hash

  -- `token` is the text of the two random uuids
  unfoldable pub login : ℕ → String → String → String → Db (Option String)
  login now token name password =
      if ltb 64 (len name) || ltb 72 (len password) then pure none else do
        row ← query (λ db. find_enabled db name)
        if not (verified password row) then pure none else do
          execute λ db. record db {
            account_sessions = keep (λ s. not (leb s.expires now)) db.account_sessions;
          }
          insert_into
              (λ db. any (λ s. eqb Bytes-discrete s.token_hash (digest token)) db.account_sessions)
              λ db. record db {
                account_sessions =
                    record { token_hash = digest token; name = name; expires = now + 86400 }
                    ∷ db.account_sessions;
              }
          pure (some token)

  abbrev is_none {ℓ} : {A : Type ℓ} → Option A → Bool
  is_none none = true
  is_none (some _) = false

  -- `ticket` is the text of the two random uuids
  unfoldable pub ticket : ℕ → String → String → String → Db (Option String)
  unfolding user
  ticket now new_ticket token relay_id =
      if len relay_id == 0 || ltb 128 (len relay_id) then pure none else do
        u ← user now token
        if is_none u then pure none else do
          execute λ db. record db {
            relay_tickets = keep (λ t. not (leb t.expires now)) db.relay_tickets;
          }
          insert_into
              (λ db. any (λ t. eqb Bytes-discrete t.hash (digest new_ticket)) db.relay_tickets)
              λ db. record db {
                relay_tickets =
                    record {
                      hash = digest new_ticket;
                      session_hash = digest token;
                      relay_id = relay_id;
                      expires = now + 60;
                    }
                    ∷ db.relay_tickets;
              }
          pure (some new_ticket)

  unfoldable pub redeem : ℕ → String → String → Db Bool
  redeem now t relay_id = if not (len t == 64) then pure false else do
    n ← query (λ db. count (is_redeemable db now (digest t) relay_id) db.relay_tickets)
    execute λ db. record db {
      relay_tickets = keep (λ r. not (is_redeemable db now (digest t) relay_id r)) db.relay_tickets;
    }
    pure (n == 1)

  unfoldable pub revoke : String → Db (Unit {0})
  revoke token = execute λ db. record db {
    account_sessions =
        keep (λ s. not (eqb Bytes-discrete s.token_hash (digest token))) db.account_sessions;
  }

  -- the answer of `ticket_failure`
  unfoldable pub ticket_failure : ℕ → String → String → Db Failure
  ticket_failure now t relay_id = query λ db.
      elim (find? (λ r. eqb Bytes-discrete r.hash (digest t)) db.relay_tickets) [
        | none ↦ unknown
        | some r ↦
            if leb r.expires now
            then expired
            else if not (string_eq r.relay_id relay_id)
            then relay_mismatch
            else unknown
      ]
