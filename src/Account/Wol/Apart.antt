-- ===== src/Account/Wol/Apart.antt =====
-- What wake on LAN leaves alone of the database (src/account/wol.rs).
use openuu_server.Prelude.{ℕ, String, Option, none, some, List, ◌≡◌, refl, arith, find?}
use openuu_server.Account.Tables.{Accounts, Result, ok, err}
use openuu_server.Account.Store.{Crypto, user}
use openuu_server.Account.Wol.{
  State, Answer, target_found, is_device, availability, answer, as_owner, poll_as, poll, wake_by,
  wake_as, wake,
}

-- The tables of store.rs are the same.
pub record Apart (db db' : Accounts) : Type 0 where
  pub accounts : db'.accounts ≡ db.accounts
  pub sessions : db'.account_sessions ≡ db.account_sessions
  pub tickets : db'.relay_tickets ≡ db.relay_tickets

module _ (c : Crypto) where
  as_owner-Apart :
      (handler : String → Accounts → Answer × Accounts) (db : Accounts)
      (r : Result (Option String) × Accounts)
      → ((owner : String) (db' : Accounts) → Apart db' (handler owner db').1)
      → r.1 ≡ db
      → Apart db (as_owner c handler r).1
  as_owner-Apart handler db (err e, db') each same =
      rw same (record { accounts = refl; sessions = refl; tickets = refl })
  as_owner-Apart handler db (ok none, db') each same =
      rw same (record { accounts = refl; sessions = refl; tickets = refl })
  as_owner-Apart handler db (ok (some owner), db') each same = rw same (each owner db)

  user-reads : (now : ℕ) (bearer : String) (db : Accounts) → (user c now bearer db).1 ≡ db
  unfolding user
  user-reads now bearer db = ground arith

  poll_as-Apart :
      (now : ℕ) (owner bearer id : String) (peers : List String) (db : Accounts)
      → Apart db (poll_as c now owner bearer id peers db).1
  unfolding poll_as
  poll_as-Apart now owner bearer id peers db = record {
    accounts = ground arith;
    sessions = ground arith;
    tickets = ground arith;
  }

  pub poll-Apart :
      (now : ℕ) (bearer id : String) (peers : List String) (db : Accounts)
      → Apart db (poll c now bearer id peers db).1
  unfolding poll
  poll-Apart now bearer id peers db =
      as_owner-Apart (λ owner. poll_as c now owner bearer id peers) db (user c now bearer db)
        (λ owner db'. poll_as-Apart now owner bearer id peers db') (user-reads now bearer db)

  woken-Apart :
      (now : ℕ) (owner target : String) (r : State × Option String) (db : Accounts)
      → Apart db (answer (wake_by c now owner target r db)).1
  woken-Apart now owner target (s, none) db = record {
    accounts = refl;
    sessions = refl;
    tickets = refl;
  }
  woken-Apart now owner target (s, some helper) db = record {
    accounts = ground arith;
    sessions = ground arith;
    tickets = ground arith;
  }

  wake_as-Apart :
      (now : ℕ) (owner target : String) (db : Accounts) → Apart db (wake_as c now owner target db).1
  unfolding wake_as availability
  wake_as-Apart now owner target db =
      let found =
        target_found db now owner target (find? (is_device owner target) db.wol_devices) in
      let a = woken-Apart now owner target found db in
      record {
        accounts = ground (arith, a.accounts);
        sessions = ground (arith, a.sessions);
        tickets = ground (arith, a.tickets);
      }

  pub wake-Apart :
      (now : ℕ) (bearer target : String) (db : Accounts) → Apart db (wake c now bearer target db).1
  unfolding wake
  wake-Apart now bearer target db =
      as_owner-Apart (λ owner. wake_as c now owner target) db (user c now bearer db)
        (λ owner db'. wake_as-Apart now owner target db') (user-reads now bearer db)
