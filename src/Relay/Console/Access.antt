-- ===== src/Relay/Console/Access.antt =====
-- Who may pair at the relay after a command (src/relay_server/console.rs and connection.rs).
use openuu_server.Prelude.{
  String, Bool, false, not, ◌&&◌, ◌||◌, Option, none, some, List, [], ◌∷◌, ◌≡◌, refl, ap, arith,
  if◌then◌else◌, any, keep, String_discrete, Bool-cases, inl, inr,
}
use openuu_server.Prelude.Text.{split, trim}
use openuu_server.Net.{SocketAddr, AddrTools, is_loopback}
use openuu_server.Relay.Settings.{
  string_eq, contains, insert_ip, remove_ip, insert_all, remove_all, Settings, Floats,
}
use openuu_server.Relay.Console.{
  Command, help, blacklist_add, blacklist_remove, blacklist_show, blocklist_add, blocklist_remove,
  blocklist_show, downgrade_threshold, downgrade_start_check, limit_speed, total_bandwidth,
  single_bandwidth, usages, command, next, run, run_words, check_cmd, refused, paired,
  handle_connection,
}

contains-insert_ip :
    (t s : String) (set : List String)
    → contains t (insert_ip s set) ≡ (string_eq t s || contains t set)
unfolding contains insert_ip any
contains-insert_ip t s set = elim (String_discrete t s) [
  | yes is ↦ ground (arith, ap (λ x. any (string_eq x) set) is, is)
  | no other ↦ ground (arith, other)
]

contains-remove_ip :
    (t s : String) (set : List String)
    → contains t (remove_ip s set) ≡ (not (string_eq t s) && contains t set)
unfolding contains remove_ip any keep
contains-remove_ip t s [] = ground arith
contains-remove_ip t s (w ∷ set) = ground (arith, contains-remove_ip t s set)

contains-insert_all :
    (t : String) (ips set : List String)
    → contains t (insert_all ips set) ≡ (contains t ips || contains t set)
unfolding insert_all contains any
contains-insert_all t [] set = ground arith
contains-insert_all t (s ∷ ips) set =
    ground (arith, contains-insert_all t ips (insert_ip s set), contains-insert_ip t s set)

contains-remove_all :
    (t : String) (ips set : List String)
    → contains t (remove_all ips set) ≡ (not (contains t ips) && contains t set)
unfolding remove_all contains any
contains-remove_all t [] set = ground arith
contains-remove_all t (s ∷ ips) set =
    ground (arith, contains-remove_all t ips (remove_ip s set), contains-remove_ip t s set)

-- Whether an address is blocked after a command: it is if it is among those that `blocklist-add`
-- names, it is not if `blocklist-remove` names it or `all`, and else nothing changes.
abbrev pub blocked_by : Option Command → Option String → String → Bool → Bool
blocked_by (some blocklist_add) (some ips) ip before = contains ip (split 124 ips) || before
blocked_by (some blocklist_remove) (some ips) ip before =
    if string_eq ips "all" then false else not (contains ip (split 124 ips)) && before
blocked_by c w ip before = before

abbrev pub blocked_after : List String → String → Bool → Bool
blocked_after [] ip before = before
blocked_after (w ∷ ws) ip before = blocked_by (command w) (next ws) ip before

module _ {F : Type 0} (f : Floats F) (ip : String) where
  run_blocks :
      (c : Option Command) (w : Option String) (s : Settings)
      → contains ip (run f c w s).1.blocklist ≡ blocked_by c w ip (contains ip s.blocklist)
  unfolding contains any
  run_blocks none w s = refl
  run_blocks (some help) w s = refl
  run_blocks (some blacklist_add) w s = refl
  run_blocks (some blacklist_remove) w s = refl
  run_blocks (some blacklist_show) w s = refl
  run_blocks (some blocklist_show) w s = refl
  run_blocks (some usages) w s = refl
  run_blocks (some downgrade_threshold) none s = refl
  run_blocks (some downgrade_threshold) (some v) s = refl
  run_blocks (some downgrade_start_check) none s = refl
  run_blocks (some downgrade_start_check) (some v) s = refl
  run_blocks (some limit_speed) none s = refl
  run_blocks (some limit_speed) (some v) s = refl
  run_blocks (some single_bandwidth) none s = refl
  run_blocks (some single_bandwidth) (some v) s = refl
  run_blocks (some total_bandwidth) none s = refl
  run_blocks (some total_bandwidth) (some v) s = ground arith
  run_blocks (some blocklist_add) none s = refl
  run_blocks (some blocklist_add) (some ips) s = contains-insert_all ip (split 124 ips) s.blocklist
  run_blocks (some blocklist_remove) none s = refl
  run_blocks (some blocklist_remove) (some ips) s = elim (Bool-cases (string_eq ips "all")) [
    | inl all ↦ rw all refl
    | inr some_ips ↦ rw some_ips (contains-remove_all ip (split 124 ips) s.blocklist)
  ]

  words_block :
      (words : List String) (s : Settings)
      → contains ip (run_words f words s).1.blocklist
        ≡ blocked_after words ip (contains ip s.blocklist)
  words_block [] s = refl
  words_block (w ∷ ws) s = run_blocks (command w) (next ws) s

-- After a command at the console, a connection that is not for the console itself is refused exactly
-- if its address is blocked: `blocklist-add` blocks the addresses it names, `blocklist-remove` lets
-- those it names in again, and all of them for `all`, and no other command changes who is refused.
pub check_cmd-handle_connection :
    {F : Type 0} (f : Floats F) (net : AddrTools) (cmd : String) (addr : SocketAddr) (ws : Bool)
    (s : Settings)
    → (not ws && is_loopback (net.try_into_v4 addr).ip) ≡ false
    → let ip = net.ip_text (net.try_into_v4 addr).ip in
      handle_connection net addr ws (check_cmd f cmd s).1 ≡ (
        if blocked_after (split 32 (trim cmd)) ip (contains ip s.blocklist)
        then refused
        else paired)
unfolding handle_connection check_cmd
check_cmd-handle_connection f net cmd addr ws s h =
    rw (h, words_block f (net.ip_text (net.try_into_v4 addr).ip) (split 32 (trim cmd)) s) refl
