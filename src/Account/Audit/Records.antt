-- ===== src/Account/Audit/Records.antt =====
-- What the audit stores (src/account/audit.rs).
use openuu_server.Prelude.{
  ℕ, ◌≤◌, String, true, false, Option, none, some, List, [], ◌∷◌, ◌≡◌, ◌⊎◌, inl, inr, refl, ap, ◌∙◌,
  arith, ltb, any, Bytes, length, Bool-cases,
}
use openuu_server.Net.{IpAddr}
use openuu_server.Account.RateLimit.{over_limit}
use openuu_server.Account.Audit.{
  Json, ConnAudit, Audit, Status, ok, same_nonce, registered, text, non_empty, record_of,
  insert_or_ignore, stored, parsed, conn,
}

-- No nonce twice.
abbrev pub Distinct : {Int : Type 0} → List (ConnAudit Int) → Type 0
Distinct [] = Unit
Distinct (r ∷ rows) = (any (same_nonce r.nonce) rows ≡ false) × Distinct rows

module _ {Value Int : Type 0} (j : Json Value Int) (now : ℕ) (ip : IpAddr) (from_ip : String)
    (body : Bytes) where
  -- A record that a request may store: the limiter admitted the request, it is no longer than 4096
  -- bytes, and it names a peer that hbbs registered and a nonce that no record has. The record takes
  -- nonce, peer and action from the body, and address and time from the server.
  pub data Stores (s : Audit Int) : ConnAudit Int → Type 0 where
    stores :
        (v : Value) (nonce id : String) (row : ConnAudit Int)
        → (over_limit now ip s.audit_rate).1 ≡ false
        → length body ≤ 4096
        → j.parse body ≡ some v
        → non_empty j (text j v "nonce") ≡ some nonce
        → non_empty j (text j v "id") ≡ some id
        → registered s id ≡ true
        → any (same_nonce nonce) s.conn_audit ≡ false
        → row.nonce ≡ nonce
        → row.id ≡ id
        → row.action ≡ text j v "action"
        → row.from_ip ≡ from_ip
        → row.received_at ≡ now
        → Stores s row

  -- No row is added, or one with the property, and then the answer is OK.
  abbrev Grows : (ConnAudit Int → Type 0) → List (ConnAudit Int) → Status × Audit Int → Type 0
  Grows P rows r =
      (r.1.conn_audit ≡ rows)
      ⊎ ((row : ConnAudit Int) × P row × (r.0 ≡ ok) × (r.1.conn_audit ≡ row ∷ rows))

  abbrev counted : Audit Int → Audit Int
  counted s = record s { audit_rate = (over_limit now ip s.audit_rate).0 }

  insert_or_ignore-Grows :
      (P : ConnAudit Int → Type 0) (s : Audit Int) (row : ConnAudit Int)
      → (any (same_nonce row.nonce) s.conn_audit ≡ false → P row)
      → Grows P s.conn_audit (insert_or_ignore j row s)
  insert_or_ignore-Grows P s row good = elim (Bool-cases s.available) [
    | inr down ↦ rw down (inl refl)
    | inl up ↦ elim (Bool-cases (any (same_nonce row.nonce) s.conn_audit)) [
      | inl seen ↦ rw (up, seen) (inl refl)
      | inr new ↦ rw (up, new) (inr (row, good new, refl, refl))
    ]
  ]

  stored-Grows :
      (s : Audit Int) (v : Value) (o o' : Option String)
      → (over_limit now ip s.audit_rate).1 ≡ false
      → length body ≤ 4096
      → j.parse body ≡ some v
      → non_empty j (text j v "nonce") ≡ o
      → non_empty j (text j v "id") ≡ o'
      → Grows (Stores s) s.conn_audit (stored j now from_ip o o' v (counted s))
  unfolding registered
  stored-Grows s v none o' free small good n i = inl refl
  stored-Grows s v (some nonce) none free small good n i = inl refl
  stored-Grows s v (some nonce) (some id) free small good n i =
      elim (Bool-cases (registered s id)) [
        | inr unknown ↦ rw unknown (inl refl)
        | inl known ↦ rw known (
            insert_or_ignore-Grows (Stores s) (counted s) (record_of j now from_ip nonce id v)
              (λ new.
                stores v nonce id (record_of j now from_ip nonce id v) free small good n i known new
                  refl refl refl refl refl))
      ]

  parsed-Grows :
      (s : Audit Int) (o : Option Value)
      → (over_limit now ip s.audit_rate).1 ≡ false
      → length body ≤ 4096
      → j.parse body ≡ o
      → Grows (Stores s) s.conn_audit (parsed j now from_ip o (counted s))
  parsed-Grows s none free small good = inl refl
  parsed-Grows s (some v) free small good = stored-Grows s v _ _ free small good refl refl

  -- A request stores nothing, or one record, with the nonce, the peer and the action that the body
  -- gives and the address and the time of the request; then it is answered OK. A record is stored only
  -- if the limiter admits the request, the body has 4096 bytes at most, the peer is registered, and no
  -- record has the nonce.
  pub conn-Stores :
      (s : Audit Int)
      → ((conn j now ip from_ip body s).1.conn_audit ≡ s.conn_audit)
        ⊎ ((row : ConnAudit Int) × Stores s row
            × ((conn j now ip from_ip body s).0 ≡ ok)
            × ((conn j now ip from_ip body s).1.conn_audit ≡ row ∷ s.conn_audit))
  unfolding conn registered
  conn-Stores s = elim (Bool-cases (over_limit now ip s.audit_rate).1) [
    | inl over ↦ rw over (inl refl)
    | inr free ↦ elim (Bool-cases (ltb 4096 (length body))) [
      | inl large ↦ rw (free, large) (inl refl)
      | inr small ↦
          rw (free, small) (parsed-Grows s (j.parse body) free (ground (arith, small)) refl)
    ]
  ]

  stored-Distinct :
      (s : Audit Int) (row : ConnAudit Int)
      → Stores s row
      → Distinct s.conn_audit
      → Distinct (row ∷ s.conn_audit)
  stored-Distinct s row (stores v nonce id r free small good n i known new is same_id act from at)
        d =
      (ap (λ m. any (same_nonce m) s.conn_audit) is ∙ new, d)

  -- Records with distinct nonces stay so: what a client sends again is not stored again.
  conn-Distinct :
      (s : Audit Int) → Distinct s.conn_audit → Distinct (conn j now ip from_ip body s).1.conn_audit
  conn-Distinct s d = elim (conn-Stores s) [
    | inl same ↦ rw same d
    | inr (row, good, answer, more) ↦ rw more (stored-Distinct s row good d)
  ]
