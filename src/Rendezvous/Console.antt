-- ===== src/Rendezvous/Console.antt =====
-- The console of hbbs: `check_cmd` of src/rendezvous_server/console.rs, and what the loop of io.rs does
-- with the data it sends. An answer stands for its text.
pub mod Relays
use openuu_server.Prelude.{
  ℕ, ◌*◌, ◌-◌, String, Bool, true, false, ◌&&◌, ◌||◌, Option, none, some, List, [], ◌∷◌, ltb, leb,
  ◌==◌, if◌then◌else◌, take, drop, length, map, reverse, String_discrete,
}
use openuu_server.Prelude.Map.{get, remove, retain}
use openuu_server.Prelude.Text.{split, trim, parse_usize, parse_natural_i32}
use openuu_server.Rendezvous.Blocker.{Blocker, BlockEntry, ip_block_dur, day_seconds, elapsed_secs}
use openuu_server.Rendezvous.Peers.{string_eq}
use openuu_server.Rendezvous.Punch.{PunchReqEntry}
use openuu_server.Rendezvous.Register.{IpChanges, ip_change_dur}
use openuu_server.Rendezvous.RelayServers.{
  RelayServers, parse_relay_servers, use_relay_servers, get_relay_server,
}
use openuu_server.Rendezvous.Tcp.Wire.{TcpServer}

-- the enum Data, apart from its messages
pub data Data : Type 0 where
  relay_servers0 : String → Data
  relay_servers : List String → Data

pub record BlockLine : Type 0 where
  pub ip : String
  pub count : ℕ
  pub count_secs : ℕ
  pub ids : ℕ
  pub ids_secs : ℕ

pub record ChangeLine : Type 0 where
  pub id : String
  pub secs : ℕ
  pub ips : List (String × ℕ)

pub data Answer : Type 0 where
  nothing help_text : Answer
  servers : List String → Answer
  -- how many there are, the one that was asked for, and a page of ten
  blocked : ℕ → Option BlockLine → List BlockLine → Answer
  changes : ℕ → Option ChangeLine → List ChangeLine → Answer
  -- the entries with their age in milliseconds
  requests : List (PunchReqEntry × ℕ) → Answer
  using_relay : Bool → Answer
  relay : String → Answer

abbrev pub next : List String → Option String
next [] = none
next (w ∷ ws) = some w

abbrev pub rest : List String → List String
rest [] = []
rest (w ∷ ws) = ws

abbrev is_dash : Option String → Bool
is_dash none = false
is_dash (some w) = string_eq w "-"

abbrev block_line : ℕ → String × BlockEntry → BlockLine
block_line now (ip, e) = record {
  ip = ip;
  count = e.count;
  count_secs = elapsed_secs now e.count_at;
  ids = length e.ids;
  ids_secs = elapsed_secs now e.ids_at;
}

abbrev with_key : {V L : Type 0} → (String × V → L) → String → Option V → Option L
with_key f k none = none
with_key f k (some v) = some (f (k, v))

-- `for i in 0..(start + 10)`; where `start + 10` overflows, both sides are empty
abbrev page : {A : Type 0} → ℕ → List A → List A
page start xs = take 10 (drop start xs)

abbrev found_block : ℕ → List String → Option String → Option ℕ → Blocker → Answer × Blocker
found_block now ws none start b = (blocked (length b) none (page 0 (map (block_line now) b)), b)
found_block now ws (some ip) (some start) b =
    (blocked (length b) none (page start (map (block_line now) b)), b)
found_block now ws (some ip) none b = (
  blocked (length b) (with_key (block_line now) ip (get String_discrete ip b)) [],
  if is_dash (next ws) then remove String_discrete ip b else b,
)

abbrev start_of : Option String → Option ℕ
start_of none = none
start_of (some w) = parse_natural_i32 w

-- ip-blocker, on the words that follow
unfoldable pub ip_blocker_cmd : ℕ → List String → Blocker → Answer × Blocker
unfolding parse_natural_i32
ip_blocker_cmd now ws b =
    let kept =
      retain
        (λ _ e.
          leb (elapsed_secs now e.count_at) ip_block_dur
          || leb (elapsed_secs now e.ids_at) day_seconds)
        b in
    found_block now (rest ws) (next ws) (start_of (next ws)) kept

abbrev change_line : ℕ → String × (ℕ × List (String × ℕ)) → ChangeLine
change_line now (id, (tm, ips)) = record { id = id; secs = elapsed_secs now tm; ips = ips }

abbrev change_page : ℕ → Option ℕ → IpChanges → List ChangeLine
change_page now none m = []
change_page now (some start) m = page start (map (change_line now) m)

abbrev one_change : ℕ → List String → String → Option ℕ → IpChanges → Answer × IpChanges
one_change now ws id start m =
    let m' = if is_dash (next ws) then remove String_discrete id m else m in
    (
      changes (length m) (with_key (change_line now) id (get String_discrete id m))
          (change_page now start m'),
      m',
    )

abbrev found_change : ℕ → List String → Option String → Option ℕ → IpChanges → Answer × IpChanges
found_change now ws none start m = (changes (length m) none (change_page now (some 0) m), m)
found_change now ws (some id) none m = one_change now ws id none m
found_change now ws (some id) (some start) m =
    if leb start 10000000
    then (changes (length m) none (change_page now (some start) m), m)
    else one_change now ws id (some start) m

-- ip-changes; IP_CHANGE_DUR_X2 is twice IP_CHANGE_DUR
unfoldable pub ip_changes_cmd : ℕ → List String → IpChanges → Answer × IpChanges
unfolding parse_natural_i32
ip_changes_cmd now ws m =
    let kept =
      retain (λ _ v. ltb (elapsed_secs now v.0) (ip_change_dur * 2) && ltb 1 (length v.1)) m in
    found_change now (rest ws) (next ws) (start_of (next ws)) kept

abbrev number_or : ℕ → Option String → ℕ
number_or n none = n
number_or n (some w) = elim (parse_usize w) [ none ↦ n | some k ↦ k ]

-- punch-requests; the head of the list is the back of the vector
unfoldable pub punch_requests_cmd :
    ℕ → List String → List PunchReqEntry → Answer × List PunchReqEntry
unfolding parse_usize
punch_requests_cmd now ws reqs =
    if is_dash (next ws)
    then (nothing, [])
    else (let size = number_or 10 (next (rest ws)) in
        (
          requests (
              map (λ e. (e, now - e.tm))
                (take (if size == 0 then 10 else size)
                  (drop (number_or 0 (next ws)) (reverse reqs)))),
          reqs,
        ))

abbrev pub Run : Type 0
Run = Answer × Option Data × TcpServer

abbrev is_one : String → String → String → Bool
is_one w long short = string_eq w long || string_eq w short

abbrev pub relay_servers_cmd : Option String → TcpServer → Run
relay_servers_cmd none s = (servers s.relays.relay_servers, none, s)
relay_servers_cmd (some rs) s = (nothing, some (relay_servers0 rs), s)

abbrev pub always_use_relay_cmd : Option String → TcpServer → Run
always_use_relay_cmd none s = (using_relay s.always_use_relay, none, s)
always_use_relay_cmd (some rs) s = (
  nothing,
  some (relay_servers0 rs),
  record s { always_use_relay = string_eq rs "Y" || string_eq rs "y" },
)

abbrev tested : TcpServer → Run
tested s =
    let (r, relays) = get_relay_server s.relays in (relay r, none, record s { relays = relays })

-- `is_ip` says whether a text is an address
abbrev pub test_geo_cmd : (String → Bool) → List String → TcpServer → Run
test_geo_cmd is_ip [] s = (nothing, none, s)
test_geo_cmd is_ip (a ∷ []) s = if is_ip a then tested s else (nothing, none, s)
test_geo_cmd is_ip (a ∷ b ∷ ws) s = if is_ip a && is_ip b then tested s else (nothing, none, s)

module _ (is_ip : String → Bool) (now : ℕ) where
  abbrev pub run : List String → TcpServer → Run
  run [] s = (nothing, none, s)
  run (w ∷ ws) s =
      if string_eq w "h"
      then (help_text, none, s)
      else if is_one w "relay-servers" "rs"
      then relay_servers_cmd (next ws) s
      else if is_one w "ip-blocker" "ib"
      then (let (a, b) = ip_blocker_cmd now ws s.registry.ip_blocker in
          (a, none, record s { registry = record s.registry { ip_blocker = b } }))
      else if is_one w "ip-changes" "ic"
      then (let (a, m) = ip_changes_cmd now ws s.registry.ip_changes in
          (a, none, record s { registry = record s.registry { ip_changes = m } }))
      else if is_one w "punch-requests" "pr"
      then (let (a, reqs) = punch_requests_cmd now ws s.punch_reqs in
          (a, none, record s { punch_reqs = reqs }))
      else if is_one w "always-use-relay" "aur"
      then always_use_relay_cmd (next ws) s
      else if is_one w "test-geo" "tg"
      then test_geo_cmd is_ip ws s
      else (nothing, none, s)

  -- the answer, what is sent to the loop, and the server
  unfoldable pub check_cmd : String → TcpServer → Run
  unfolding ip_blocker_cmd ip_changes_cmd punch_requests_cmd get_relay_server
  check_cmd cmd s = run (split 32 (trim cmd)) s

-- the arms of `rx.recv()`; `valid` is test_if_valid_server
unfoldable pub handle_data : (String → Bool) → Data → TcpServer → TcpServer
unfolding parse_relay_servers use_relay_servers
handle_data valid (relay_servers0 rs) s = record s {
  relays = parse_relay_servers valid rs s.relays;
}
handle_data valid (relay_servers rs) s = record s { relays = use_relay_servers rs s.relays }
