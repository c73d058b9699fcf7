-- ===== src/Tests/TcpRuns.antt =====
-- Runs of the TCP dispatch and of a connection.
use openuu_server.Prelude.{
  arith, ℕ, ◌+◌, ◌==◌, String, List, [], ◌∷◌, ◌≡◌, ◌≢◌, ◌⊎◌, refl, true, false, some, none, Option,
  Bool, Bytes, if◌then◌else◌,
}
use openuu_server.Prelude.Map.{get}
use openuu_server.Net.{SocketAddr-discrete}
use openuu_server.Account.Api.{redeem_ticket}
use openuu_server.Account.Invariant.{WellFormed}
use openuu_server.Rendezvous.Register.{RegisterPk}
use openuu_server.Rendezvous.TcpPeers.{stream}
use openuu_server.Rendezvous.Tcp.Wire.{
  RequestRelay, RelayResponse, id, written, grant_relay, request_relay, Effect, pushed,
  forward_relay, TcpServer, Conn, Outside, Moment,
}
use openuu_server.Rendezvous.PunchSessions.{PunchSessions, remember}
use openuu_server.Rendezvous.Tcp.Handlers.{handle_tcp}
use openuu_server.Rendezvous.Tcp.Replies.{answer_peer_initiated_relay}
use openuu_server.Rendezvous.Tcp.PeerInitiated.{answer_peer_initiated_relay-redeem_ticket}
use openuu_server.Rendezvous.Tcp.Sending.{pushes}
use openuu_server.Rendezvous.Tcp.Pushes.{Sends, handle_tcp-pushes}
use openuu_server.Rendezvous.Tcp.Granting.{handle_tcp-redeem_ticket}
use openuu_server.Rendezvous.Tcp.Connection.{
  Codec, clear, offered, read_frames, handle_tcp_listener,
}
use openuu_server.Rendezvous.Tcp.Connection.Decryption.{read_frames-readable}
use openuu_server.Rendezvous.Tcp.Connection.Closing.{handle_tcp_listener_frees}
use openuu_server.Tests.Data.{
  plain, plain_net, plain_codec, first_token, second_token, one_session, home, office, peer_id,
  peer, one_peer,
}

abbrev pub outside : Outside
outside = record {
  net = plain_net;
  codec = plain_codec;
  crypto = plain;
  sign_id_pk = λ sk id pk. pk;
  now = 5000;
  unix_now = 110;
  new_guid = 7 ∷ [];
  new_ticket = second_token;
}

abbrev pub server : TcpServer
server = record {
  registry = record { pm = one_peer; ip_blocker = []; ip_changes = [] };
  punch_reqs = [];
  relays = record { relay_servers0 = []; relay_servers = []; rotation = 0 };
  always_use_relay = false;
  mask = none;
  local_ip = "";
  punch_sessions = [];
  tcp_punch = [];
  tcp_peers = [];
  accounts = one_session;
  serial = 1;
  rendezvous_servers = [];
  sk = none;
}

abbrev conn : Conn
conn = record { sink = some 1; out = []; server = server }

abbrev pub wanted : RequestRelay
wanted = record {
  id = peer_id;
  uuid = "relay-1";
  token = first_token;
  socket_addr = [];
  relay_server = "";
  rest = [];
}

abbrev granted : RequestRelay
granted = record wanted { token = second_token; socket_addr = 3 ∷ 21116 ∷ [] }

abbrev pub stranger : RegisterPk
stranger = record { id = peer_id; uuid = 9 ∷ []; pk = 8 ∷ [] }

handle_tcp-pushes_example :
    (pushes (handle_tcp outside (request_relay wanted) office "" false conn).1 ≡ pushes conn)
    ⊎ ((e : Effect) × Sends outside office "" conn (request_relay wanted) e
        × (pushes (handle_tcp outside (request_relay wanted) office "" false conn).1
            ≡ e ∷ pushes conn))
handle_tcp-pushes_example = handle_tcp-pushes outside office (request_relay wanted) "" false conn

tcp_accounts-WellFormed : WellFormed one_session
unfolding openuu_server.Prelude.any
tcp_accounts-WellFormed = record { names = (refl, tt); sessions = (refl, tt); tickets = tt }

handle_tcp-redeem_ticket_example :
    let r = handle_tcp outside (request_relay wanted) office "" false conn in
    (r.0 ≡ true)
    × (pushes r.1 ≡ pushed home (forward_relay granted) ∷ [])
    × ((redeem_ticket plain 150 second_token "relay-1" r.1.server.accounts).0 ≡ true)
unfolding openuu_server.Account.Api.authorized openuu_server.Account.Store.user
    openuu_server.Prelude.find? openuu_server.Prelude.Bytes-discrete
    openuu_server.Tests.Data.short_hash openuu_server.Prelude.any
    openuu_server.Prelude.String_discrete openuu_server.Account.Api.peer_ticket
    openuu_server.Account.Store.ticket openuu_server.Prelude.keep get pushes handle_tcp
handle_tcp-redeem_ticket_example =
    handle_tcp-redeem_ticket outside office wanted "" false conn peer 150 "relay-1"
      tcp_accounts-WellFormed refl refl refl refl

abbrev pub now : Moment
now = record { now = 5000; unix_now = 110; new_guid = 7 ∷ []; new_ticket = second_token }

-- a cipher that counts: each byte string starts with the number of the frame
abbrev counted : ℕ → Bytes → Option (Bytes × ℕ)
counted n [] = none
counted n (b ∷ bytes) = if b == n then some (bytes, n + 1) else none

abbrev pub codec : Codec ℕ
codec = record {
  parse = λ bytes. request_relay wanted;
  exchange_keys = λ bytes. some (bytes ∷ bytes ∷ []);
  sodium = record {
    public_key = λ b. some b;
    secret_key = λ b. some b;
    zero_nonce = [];
    open_box = λ sealed nonce pk sk. some sealed;
    sign = λ m sk. m;
  };
  new_encrypt = λ key. 1;
  dec = counted;
}

abbrev frames : List (Moment × Bytes)
frames = (now, 9 ∷ []) ∷ (now, 1 ∷ 5 ∷ []) ∷ (now, 7 ∷ []) ∷ []

read_frames-readable_example :
    read_frames codec outside office "" (offered []) frames conn
    ≡ read_frames codec outside office "" clear ((now, 5 ∷ []) ∷ []) conn
unfolding openuu_server.Rendezvous.Tcp.Secure.accept
read_frames-readable_example = read_frames-readable codec outside office "" (offered []) frames conn

handle_tcp_listener_frees_example :
    let s' = (handle_tcp_listener codec outside office "" 1 ([], []) frames server).server in
    (get SocketAddr-discrete office s'.tcp_punch ≢ some 1)
    × (get SocketAddr-discrete office s'.tcp_peers ≢ some (stream 1))
unfolding get
handle_tcp_listener_frees_example =
    handle_tcp_listener_frees codec outside office "" 1 ([], []) frames server
      (λ j. ((λ e. absurd (cc)), (λ e. absurd (cc)))) office

-- office asked for the peer a second ago
abbrev asked_sessions : PunchSessions
asked_sessions = remember plain_net 4000 office peer_id first_token []

abbrev peer_conn : Conn
peer_conn = record conn { server = record server { punch_sessions = asked_sessions } }

abbrev chosen : RelayResponse
chosen = record {
  socket_addr = [];
  uuid = "relay-1";
  relay_server = "";
  peer = id peer_id;
  version = "";
  refuse_reason = "";
}

answer_peer_initiated_relay-redeem_ticket_example :
    let c' = answer_peer_initiated_relay outside chosen office home peer_conn in
    (c'.out ≡ written 1 (grant_relay "relay-1" second_token) ∷ [])
    × ((redeem_ticket plain 150 second_token "relay-1" c'.server.accounts).0 ≡ true)
unfolding openuu_server.Account.Api.peer_ticket openuu_server.Account.Store.ticket
    openuu_server.Prelude.find? openuu_server.Prelude.Bytes-discrete
    openuu_server.Tests.Data.short_hash openuu_server.Prelude.any
    openuu_server.Prelude.String_discrete openuu_server.Prelude.keep answer_peer_initiated_relay
    openuu_server.Rendezvous.PunchSessions.token_for get remember openuu_server.Prelude.Map.insert
    openuu_server.Rendezvous.PunchSessions.Key-discrete
answer_peer_initiated_relay-redeem_ticket_example =
    answer_peer_initiated_relay-redeem_ticket outside office home 4000 1 first_token [] chosen
      peer_conn 150 "relay-1" tt refl (omega arith) (omega arith) refl refl tcp_accounts-WellFormed
      refl refl
