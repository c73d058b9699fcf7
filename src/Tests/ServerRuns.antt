-- ===== src/Tests/ServerRuns.antt =====
-- Runs of the audit, of the console of hbbs and of the key of the servers.
use Prim.Native.Char.{code}
use openuu_server.Prelude.{
  ℕ, zero, suc, ◌+◌, ◌==◌, ap, ◌∙◌, arith, String, Bytes, List, [], ◌∷◌, ◌≡◌, ◌⊎◌, refl, true,
  false, some, none, Option, Bool, reverse, if◌then◌else◌, eqb, String_discrete, ◌||◌,
}
use openuu_server.Prelude.Text.{trim, trim_start, trim_end}
use openuu_server.Net.{v4}
use openuu_server.Account.Audit.{Json, ConnAudit, Audit, ok, conn}
use openuu_server.Account.Audit.Records.{Stores, conn-Stores}
use openuu_server.Rendezvous.Peers.{string_eq}
use openuu_server.Rendezvous.RelayServers.{get_relay_server}
use openuu_server.Rendezvous.Tcp.Wire.{TcpServer}
use openuu_server.Rendezvous.Console.{relay_servers0, check_cmd, handle_data}
use openuu_server.Rendezvous.Console.Relays.{always_use_relay-get_relay_server}
use openuu_server.Keys.{KeyTools, KeyFiles, keys, get_server_sk, relay_get_server_sk}
use openuu_server.Keys.Agreement.{Laws, get_server_sk-relay_get_server_sk}
use openuu_server.Tests.Data.{peer_id, one_peer, one_session}

-- every value is an object that has the peer as its id and its keys as their values
abbrev echo : Json String ℕ
echo = record {
  parse = λ bytes. some "";
  get_key = λ v key. some (if eqb String_discrete key "id" then peer_id else key);
  get_index = λ v i. none;
  as_str = λ v. some v;
  as_i64 = λ v. none;
  is_null = λ v. false;
  to_text = λ v. v;
  without = λ ks v. v;
}

abbrev no_audit : Audit ℕ
no_audit = record { audit_rate = []; peers = some one_peer.db; conn_audit = []; available = true }

conn-Stores_example :
    ((conn echo 100 (v4 1) "1" [] no_audit).1.conn_audit ≡ [])
    ⊎ ((row : ConnAudit ℕ) × Stores echo 100 (v4 1) "1" [] no_audit row
        × ((conn echo 100 (v4 1) "1" [] no_audit).0 ≡ ok)
        × ((conn echo 100 (v4 1) "1" [] no_audit).1.conn_audit ≡ row ∷ []))
conn-Stores_example = conn-Stores echo 100 (v4 1) "1" [] no_audit

abbrev relaying : TcpServer
relaying = record {
  registry = record { pm = one_peer; ip_blocker = []; ip_changes = [] };
  punch_reqs = [];
  relays = record { relay_servers0 = "r" ∷ []; relay_servers = "r" ∷ []; rotation = 0 };
  always_use_relay = false;
  mask = none;
  local_ip = "";
  punch_sessions = [];
  tcp_punch = [];
  tcp_peers = [];
  accounts = one_session;
  serial = 1;
  rendezvous_servers = [];
  sk = none;
}

abbrev is_r : String → Bool
is_r s = string_eq s "r"

always_use_relay-get_relay_server_example :
    let r = check_cmd is_r 5000 "always-use-relay Y" relaying in
    (r.2.always_use_relay ≡ true)
    × (r.1 ≡ some (relay_servers0 "Y"))
    × ((get_relay_server (handle_data is_r (relay_servers0 "Y") r.2).relays).0 ≡ "")
unfolding openuu_server.Prelude.Text.split trim openuu_server.Rendezvous.RelayServers.get_servers
    openuu_server.Prelude.keep String_discrete
always_use_relay-get_relay_server_example =
    always_use_relay-get_relay_server is_r is_r 5000 "always-use-relay Y" "Y" [] relaying refl refl

abbrev pub no_files : KeyFiles
no_files = record {
  sk_file = none;
  pub_file = none;
  can_create_pub = true;
  can_create_sk = true;
  can_write_sk = true;
  can_write_pub = true;
}

-- a byte as so many ones before a zero
abbrev encode_one : ℕ → String → String
encode_one zero s = String.◌∷◌ "0" s
encode_one (suc n) s = String.◌∷◌ "1" (encode_one n s)

unfoldable pub encode : Bytes → String
encode [] = ""
encode (b ∷ bytes) = encode_one b (encode bytes)

abbrev before : ℕ → Option Bytes → Option Bytes
before b none = none
before b (some bytes) = some (b ∷ bytes)

unfoldable pub decode_from : ℕ → String → Option Bytes
decode_from n String.[] = if n == 0 then some [] else none
decode_from n (String.◌∷◌ c s) =
    let more = decode_from (suc n) s in
    let done = before n (decode_from 0 s) in
    if code c == 48 then done else if code c == 49 then more else none

abbrev pub zeros : ℕ → Bytes
zeros zero = []
zeros (suc n) = 0 ∷ zeros n

abbrev pub unary : KeyTools
unary = record { encode = encode; decode = decode_from 0; gen_keypair = λ n. (zeros 32, zeros 64) }

decode_from-encode_one :
    (m n : ℕ) (s : String) → decode_from m (encode_one n s) ≡ before (m + n) (decode_from 0 s)
unfolding decode_from
decode_from-encode_one m zero s =
    ap (λ k. before k (decode_from 0 s)) {x = m} {y = m + 0} (omega arith)
decode_from-encode_one m (suc n) s =
    decode_from-encode_one (suc m) n s
    ∙ ap (λ k. before k (decode_from 0 s)) {x = suc m + n} {y = m + suc n} (omega arith)

decode-encode : (bytes : Bytes) → decode_from 0 (encode bytes) ≡ some bytes
unfolding decode_from encode
decode-encode [] = refl
decode-encode (b ∷ bytes) =
    decode_from-encode_one 0 b (encode bytes)
    ∙ ap (λ k. before k (decode_from 0 (encode bytes))) {x = 0 + b} {y = b} (omega arith)
    ∙ ap (before b) (decode-encode bytes)

trim_end-encode_one :
    (n : ℕ) (s : String) → trim_end s ≡ s → trim_end (encode_one n s) ≡ encode_one n s
trim_end-encode_one zero s h = ground (arith, h)
trim_end-encode_one (suc n) s h = ground (arith, trim_end-encode_one n s h)

trim_end-encode : (bytes : Bytes) → trim_end (encode bytes) ≡ encode bytes
unfolding encode
trim_end-encode [] = refl
trim_end-encode (b ∷ bytes) = trim_end-encode_one b (encode bytes) (trim_end-encode bytes)

trim_start-encode_one : (n : ℕ) (s : String) → trim_start (encode_one n s) ≡ encode_one n s
trim_start-encode_one zero s = refl
trim_start-encode_one (suc n) s = refl

trim_start-encode : (bytes : Bytes) → trim_start (encode bytes) ≡ encode bytes
unfolding encode
trim_start-encode [] = refl
trim_start-encode (b ∷ bytes) = trim_start-encode_one b (encode bytes)

trim-encode : (bytes : Bytes) → trim (encode bytes) ≡ encode bytes
unfolding trim
trim-encode bytes = ap trim_end (trim_start-encode bytes) ∙ trim_end-encode bytes

pub unary-Laws : Laws unary
unary-Laws = record {
  decode_encode = decode-encode;
  trim_encode = trim-encode;
  secret_length = λ n. refl;
  public_half = λ n. refl;
}

abbrev pub with_files : KeyFiles
with_files = record no_files {
  sk_file = some (some (encode (zeros 64)));
  pub_file = some (some (encode (zeros 32)));
}

get_server_sk-relay_get_server_sk_example :
    (o : Option Bytes) × (relay_get_server_sk unary "-" with_files
      ≡ (keys (encode (zeros 32)) o, with_files))
unfolding get_server_sk decode_from String_discrete encode
get_server_sk-relay_get_server_sk_example =
    get_server_sk-relay_get_server_sk unary unary-Laws "-" no_files with_files (encode (zeros 32))
      (zeros 64) refl
