-- ===== src/Tests/Data.antt =====
-- The data of the runs.
use Prim.Native.Char.{code}
use Prim.Native.String.{len}
use openuu_server.Prelude.{
  ℕ, zero, suc, false, String, Bytes, some, [], ◌∷◌, true, eqb, String_discrete,
}
use openuu_server.Net.{IpAddr, v4, v6, SocketAddr, AddrTools}
use openuu_server.Account.Tables.{Account, Session, RelayTicket, Accounts}
use openuu_server.Account.Store.{Crypto}
use openuu_server.Rendezvous.Peers.{InfoCodec, Peer, PeerMap}

-- a digest that computes: the first character, and the length
unfoldable pub short_hash : String → Bytes
short_hash String.[] = []
short_hash (String.◌∷◌ c s) = code c ∷ suc (len s) ∷ []

-- sha256 and bcrypt by functions that compute
abbrev pub plain : Crypto
plain = record {
  sha256 = short_hash;
  hash = λ salt password. password;
  verify = λ password hash. eqb String_discrete password hash;
}

abbrev pub first_token : String
first_token = "aaaaaaaaaaaaaaaaaaaaaaaaaaaaaaaaaaaaaaaaaaaaaaaaaaaaaaaaaaaaaaaa"

abbrev pub second_token : String
second_token = "bbbbbbbbbbbbbbbbbbbbbbbbbbbbbbbbbbbbbbbbbbbbbbbbbbbbbbbbbbbbbbbb"

abbrev pub third_token : String
third_token = "cccccccccccccccccccccccccccccccccccccccccccccccccccccccccccccccc"

abbrev pub alice_account : Account
alice_account = record { name = "alice"; password_hash = "correct horse"; enabled = true }

-- one account, and nothing else
abbrev pub one_account : Accounts
one_account = record {
  accounts = alice_account ∷ [];
  account_sessions = [];
  relay_tickets = [];
  wol_devices = [];
  wol_jobs = [];
  available = true;
}

abbrev pub alice_session : Session
alice_session = record { token_hash = short_hash first_token; name = "alice"; expires = 86500 }

-- its session
abbrev pub one_session : Accounts
one_session = record one_account { account_sessions = alice_session ∷ [] }

abbrev pub alice_ticket : RelayTicket
alice_ticket = record {
  hash = short_hash second_token;
  session_hash = short_hash first_token;
  relay_id = "relay-1";
  expires = 170;
}

-- a ticket of the session
abbrev pub one_ticket : Accounts
one_ticket = record one_session { relay_tickets = alice_ticket ∷ [] }

abbrev pub bob_account : Account
bob_account = record { name = "bob"; password_hash = "staple battery"; enabled = true }

abbrev pub bob_session : Session
bob_session = record { token_hash = short_hash third_token; name = "bob"; expires = 86500 }

-- two accounts, each with a session, and a ticket of the first
abbrev pub two_accounts : Accounts
two_accounts = record one_ticket {
  accounts = alice_account ∷ bob_account ∷ [];
  account_sessions = alice_session ∷ bob_session ∷ [];
}

-- the same after the first was disabled
abbrev pub one_disabled : Accounts
one_disabled = record two_accounts {
  accounts = record alice_account { enabled = false } ∷ bob_account ∷ [];
  account_sessions = bob_session ∷ [];
  relay_tickets = [];
}

-- addresses that all are IPv4, written down by their number
unfoldable pub number_text : ℕ → String
number_text zero = "0"
number_text (suc n) = "1"

abbrev number_of : IpAddr → ℕ
number_of (v4 n) = n
number_of (v6 n) = n

abbrev pub plain_net : AddrTools
plain_net = record {
  try_into_v4 = λ a. a;
  encode = λ a. number_of a.ip ∷ a.port ∷ [];
  decode = λ b. record { ip = v4 0; port = 0 };
  ip_text = λ a. number_text (number_of a);
}

abbrev pub plain_codec : InfoCodec
plain_codec = record { to_text = λ ip. ip; from_text = λ text. some text }

abbrev pub home : SocketAddr
home = record { ip = v4 0; port = 21116 }

abbrev pub office : SocketAddr
office = record { ip = v4 3; port = 21116 }

abbrev pub peer_id : String
peer_id = "peer-1"

abbrev pub peer : Peer
peer = record {
  socket_addr = home;
  last_reg_time = 4000;
  guid = 5 ∷ [];
  uuid = 1 ∷ [];
  pk = 2 ∷ [];
  info_ip = "0";
  reg_pk = (0, 0);
}

abbrev pub one_peer : PeerMap
one_peer = record {
  map = (peer_id, peer) ∷ [];
  db = record {
    rows = record { guid = 5 ∷ []; id = peer_id; uuid = 1 ∷ []; pk = 2 ∷ []; info = "0" } ∷ [];
    available = true;
  };
}

-- no peer, and no database
abbrev pub down : PeerMap
down = record { map = []; db = record { rows = []; available = false } }
