-- ===== src/Account/Audit.antt =====
-- The audit of connections: `conn` of src/account/audit.rs, with its table `conn_audit`. serde_json is
-- an argument; the peers are those of the database that hbbs writes.
pub mod Records
use openuu_server.Prelude.{
  ℕ, String, Bool, true, false, not, ◌||◌, Option, none, some, List, [], ◌∷◌, ltb, if◌then◌else◌,
  any, Bytes, length, eqb, String_discrete,
}
use openuu_server.Prelude.Text.{is_empty_text, take_chars}
use openuu_server.Net.{IpAddr}
use openuu_server.Account.RateLimit.{Rates, over_limit}
use openuu_server.Account.Api.{
  StatusCode, too_many_requests, payload_too_large, bad_request, service_unavailable,
}
use openuu_server.Rendezvous.Peers.{PeerRow, Database, get_peer}

-- serde_json::Value; `Int` is i64.
pub record Json (Value Int : Type 0) : Type 0 where
  pub parse : Bytes → Option Value
  pub get_key : Value → String → Option Value
  pub get_index : Value → ℕ → Option Value
  pub as_str : Value → Option String
  pub as_i64 : Value → Option Int
  pub is_null : Value → Bool
  pub to_text : Value → String
  -- the object without these keys, any other value as it is
  pub without : List String → Value → Value

-- a row of conn_audit
pub record ConnAudit (Int : Type 0) : Type 0 where
  pub nonce : String
  pub id : String
  pub peer_id : Option String
  pub action : Option String
  pub conn_id : Option Int
  pub session_id : Option Int
  pub note : String
  pub from_ip : String
  pub received_at : ℕ

-- `peers` is the pool on OPENUU_PEER_DB, if there is one; `available` is false while the service's own
-- database cannot be used.
pub record Audit (Int : Type 0) : Type 0 where
  pub audit_rate : Rates
  pub peers : Option Database
  pub conn_audit : List (ConnAudit Int)
  pub available : Bool

pub data Status : Type 0 where
  ok no_content : Status
  error : StatusCode → Status

abbrev max_body : ℕ
max_body = 4096

abbrev pub same_nonce : {Int : Type 0} → String → ConnAudit Int → Bool
same_nonce nonce r = eqb String_discrete r.nonce nonce

abbrev is_found : Option PeerRow → Bool
is_found none = false
is_found (some row) = true

abbrev registered_in : Option Database → String → Bool
registered_in none id = false
registered_in (some db) id = is_found (get_peer id db)

unfoldable pub registered : {Int : Type 0} → Audit Int → String → Bool
unfolding get_peer
registered s id = registered_in s.peers id

abbrev bind : {A B : Type 0} → Option A → (A → Option B) → Option B
bind none f = none
bind (some a) f = f a

module _ {Value Int : Type 0} (j : Json Value Int) where
  abbrev text_or : Value → Option String → Option String
  text_or v (some s) = some (take_chars 256 s)
  text_or v none = if j.is_null v then none else some (take_chars 256 (j.to_text v))

  -- text
  unfoldable pub text : Value → String → Option String
  text v key = bind (j.get_key v key) (λ w. text_or w (j.as_str w))

  abbrev pub non_empty : Option String → Option String
  non_empty none = none
  non_empty (some s) = if is_empty_text s then none else some s

  abbrev pub record_of : ℕ → String → String → String → Value → ConnAudit Int
  record_of now from_ip nonce id v = record {
    nonce = nonce;
    id = id;
    peer_id =
        bind (j.get_key v "peer")
          (λ p. bind (j.get_index p 0) (λ q. bind (j.as_str q) (λ s. some (take_chars 256 s))));
    action = text v "action";
    conn_id = bind (j.get_key v "conn_id") j.as_i64;
    session_id = bind (j.get_key v "session_id") j.as_i64;
    note =
        j.to_text (j.without ("nonce" ∷ "id" ∷ "ip" ∷ "action" ∷ "conn_id" ∷ "session_id" ∷ []) v);
    from_ip = from_ip;
    received_at = now;
  }

  -- INSERT OR IGNORE
  abbrev pub insert_or_ignore : ConnAudit Int → Audit Int → Status × Audit Int
  insert_or_ignore r s =
      if not s.available
      then (error service_unavailable, s)
      else if any (same_nonce r.nonce) s.conn_audit
      then (ok, s)
      else (ok, record s { conn_audit = r ∷ s.conn_audit })

  abbrev pub stored :
      ℕ → String → Option String → Option String → Value → Audit Int → Status × Audit Int
  stored now from_ip none id v s = (error bad_request, s)
  stored now from_ip (some nonce) none v s = (error bad_request, s)
  stored now from_ip (some nonce) (some id) v s =
      if not (registered s id)
      then (no_content, s)
      else insert_or_ignore (record_of now from_ip nonce id v) s

  abbrev pub parsed : ℕ → String → Option Value → Audit Int → Status × Audit Int
  parsed now from_ip none s = (error bad_request, s)
  parsed now from_ip (some v) s =
      stored now from_ip (non_empty (text v "nonce")) (non_empty (text v "id")) v s

  -- `from_ip` is the text of the address
  unfoldable pub conn : ℕ → IpAddr → String → Bytes → Audit Int → Status × Audit Int
  unfolding over_limit text registered any
  conn now ip from_ip body s =
      let (rates, over) = over_limit now ip s.audit_rate in
      let s₁ = record s { audit_rate = rates } in
      if over
      then (error too_many_requests, s₁)
      else if ltb max_body (length body)
      then (error payload_too_large, s₁)
      else parsed now from_ip (j.parse body) s₁
