-- ===== src/Account/Admin/Listing.antt =====
-- What the list of the accounts shows after a command (`admin` of src/account_main.rs).
use openuu_server.Prelude.{
  ℕ, String, Bool, true, false, not, ◌&&◌, Option, none, some, List, [], ◌∷◌, map, ltb, ◌≡◌, refl,
  ap, ◌∙◌, arith, if◌then◌else◌, keep, count, String_discrete,
}
use openuu_server.Account.Tables.{Account, Session, Accounts}
use openuu_server.Account.Store.{Crypto, string_eq, named, set_enabled}
use openuu_server.Account.Admin.{
  AccountSummary, insert_row, order_by_name, summary, list_users, done, listed, admin,
}

module _ (name_le : String → String → Bool) (f : AccountSummary → AccountSummary)
    (same_name : (r : AccountSummary) → (f r).name ≡ r.name) where
  insert_row-map :
      (r : AccountSummary) (rows : List AccountSummary)
      → insert_row name_le (f r) (map f rows) ≡ map f (insert_row name_le r rows)
  unfolding insert_row
  insert_row-map r [] = refl
  insert_row-map r (q ∷ rows) = ground (arith, same_name r, same_name q, insert_row-map r rows)

  order_by_name-map :
      (rows : List AccountSummary)
      → order_by_name name_le (map f rows) ≡ map f (order_by_name name_le rows)
  unfolding order_by_name
  order_by_name-map [] = refl
  order_by_name-map (r ∷ rows) =
      ap (insert_row name_le (f r)) (order_by_name-map rows)
      ∙ insert_row-map r (order_by_name name_le rows)

-- the row of a disabled account
abbrev pub disabled_row : String → AccountSummary → AccountSummary
disabled_row name r =
    if string_eq r.name name then record r { enabled = false; sessions = 0 } else r

sessions_left :
    (now : ℕ) (name n : String) (sessions : List Session)
    → count
        (λ s. string_eq s.name n && ltb now s.expires)
        (keep (λ s. not (string_eq s.name name)) sessions)
      ≡ (if string_eq n name
          then 0
          else count (λ s. string_eq s.name n && ltb now s.expires) sessions)
unfolding count keep
sessions_left now name n [] = ground arith
sessions_left now name n (s ∷ sessions) = ground (arith, sessions_left now name n sessions)

module _ (c : Crypto) (name_le : String → String → Bool) (now later : ℕ) (salt : String)
    (password : Option String) where
  -- What a successful `disable` did to what the list reads.
  disabled :
      (name : String) (db db' : Accounts)
      → admin c name_le now salt password "disable" (some name) db ≡ (done, db')
      → (db'.available ≡ true)
        × (db.available ≡ true)
        × (db'.accounts
            ≡ map (λ a. if named name a then record a { enabled = false } else a) db.accounts)
        × (db'.account_sessions ≡ keep (λ s. not (string_eq s.name name)) db.account_sessions)
  unfolding admin set_enabled String_discrete openuu_server.Account.Store.revoke_user
  disabled name db db' h = (ground arith, ground arith, ground arith, ground arith)

  row_after :
      (name : String) (sessions : List Session) (a : Account)
      → summary later
          (keep (λ s. not (string_eq s.name name)) sessions)
          (if named name a then record a { enabled = false } else a)
        ≡ disabled_row name (summary later sessions a)
  row_after name sessions a = ground (arith, sessions_left later name a.name sessions)

  rows_after :
      (name : String) (sessions : List Session) (accounts : List Account)
      → map
          (summary later (keep (λ s. not (string_eq s.name name)) sessions))
          (map (λ a. if named name a then record a { enabled = false } else a) accounts)
        ≡ map (disabled_row name) (map (summary later sessions) accounts)
  rows_after name sessions [] = refl
  rows_after name sessions (a ∷ accounts) =
      cc (row_after name sessions a, rows_after name sessions accounts)

  listed_rows :
      (db : Accounts)
      → db.available ≡ true
      → admin c name_le later salt password "list" none db
        ≡ (listed (order_by_name name_le (map (summary later db.account_sessions) db.accounts)), db)
  unfolding admin list_users String_discrete
  listed_rows db a = rw a refl

  -- After `disable NAME` has succeeded, `list` shows what it would have shown without it, in the same
  -- order, but NAME as disabled and with no live session.
  pub admin_disable-list_users :
      (name : String) (db db' : Accounts)
      → admin c name_le now salt password "disable" (some name) db ≡ (done, db')
      → (rows : List AccountSummary) × ((admin c name_le later salt password "list" none db).0
          ≡ listed rows)
        × ((admin c name_le later salt password "list" none db').0
            ≡ listed (map (disabled_row name) rows))
  admin_disable-list_users name db db' h =
      let (a', a, accounts, sessions) = disabled name db db' h in
      let before = map (summary later db.account_sessions) db.accounts in
      let shown : map (summary later db'.account_sessions) db'.accounts
          ≡ map (disabled_row name) before =
        rw (accounts, sessions) (rows_after name db.account_sessions db.accounts) in
      let same_name : (r : AccountSummary) → (disabled_row name r).name ≡ r.name =
        λ r. ground arith in
      (
        order_by_name name_le before,
        ap (λ r. r.0) (listed_rows db a),
        ap (λ r. r.0) (listed_rows db' a')
            ∙ ap (λ rows. listed (order_by_name name_le rows)) shown
            ∙ ap listed (order_by_name-map name_le (disabled_row name) same_name before),
      )
