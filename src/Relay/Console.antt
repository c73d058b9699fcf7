-- ===== src/Relay/Console.antt =====
-- The console of the relay, and who reaches it: `check_cmd` of src/relay_server/console.rs and
-- `handle_connection` of src/relay_server/connection.rs. An answer stands for its text.
pub mod Access
pub mod UsageOrder
use openuu_server.Prelude.{
  ℕ, ◌+◌, ◌/◌, ◌==◌, String, Bool, true, false, not, ◌&&◌, ◌||◌, Option, none, some, List, [], ◌∷◌,
  leb, if◌then◌else◌, map, keep,
}
use openuu_server.Prelude.Text.{split, trim, parse_usize}
use openuu_server.Net.{SocketAddr, AddrTools, is_loopback}
use openuu_server.Relay.Forwarding.{Usage}
use openuu_server.Relay.Settings.{
  string_eq, contains, insert_all, remove_all, Settings, Floats, if_positive, megabits, seconds,
}

pub data Command : Type 0 where
  help : Command
  blacklist_add blacklist_remove blacklist_show : Command
  blocklist_add blocklist_remove blocklist_show : Command
  downgrade_threshold downgrade_start_check limit_speed total_bandwidth single_bandwidth : Command
  usages : Command

abbrev is_one : String → String → String → Bool
is_one w long short = string_eq w long || string_eq w short

-- the patterns of the match on the first word
unfoldable pub command : String → Option Command
command w =
    if string_eq w "h"
    then some help
    else if is_one w "blacklist-add" "ba"
    then some blacklist_add
    else if is_one w "blacklist-remove" "br"
    then some blacklist_remove
    else if is_one w "blacklist" "b"
    then some blacklist_show
    else if is_one w "blocklist-add" "Ba"
    then some blocklist_add
    else if is_one w "blocklist-remove" "Br"
    then some blocklist_remove
    else if is_one w "blocklist" "B"
    then some blocklist_show
    else if is_one w "downgrade-threshold" "dt"
    then some downgrade_threshold
    else if is_one w "downgrade-start-check" "t"
    then some downgrade_start_check
    else if is_one w "limit-speed" "ls"
    then some limit_speed
    else if is_one w "total-bandwidth" "tb"
    then some total_bandwidth
    else if is_one w "single-bandwidth" "sb"
    then some single_bandwidth
    else if is_one w "usage" "u"
    then some usages
    else none

-- a line of `usage`: the connection, seconds, bits in all, and bits per millisecond: the highest, the
-- mean, and now
pub record UsageLine : Type 0 where
  pub id : String
  pub secs : ℕ
  pub total : ℕ
  pub highest : ℕ
  pub mean : ℕ
  pub speed : ℕ

pub data Answer : Type 0 where
  nothing help_text : Answer
  known : Bool → Answer
  listed : List String → Answer
  -- what the setting is, before its unit is worked out
  setting : ℕ → Answer
  usage_lines : List UsageLine → Answer

abbrev pub total_of : String × Usage → ℕ
total_of (id, (elapsed, total, highest, speed)) = total

abbrev pub elapsed_of : String × Usage → ℕ
elapsed_of (id, (elapsed, total, highest, speed)) = elapsed

unfoldable pub insert_sorted : String × Usage → List (String × Usage) → List (String × Usage)
insert_sorted u [] = u ∷ []
insert_sorted u (v ∷ vs) =
    let rest = insert_sorted u vs in if leb (total_of v) (total_of u) then u ∷ v ∷ vs else v ∷ rest

-- Vec::sort_by, which is stable, on the totals in descending order
unfoldable pub sort_by_total : List (String × Usage) → List (String × Usage)
unfolding insert_sorted
sort_by_total [] = []
sort_by_total (u ∷ us) = insert_sorted u (sort_by_total us)

abbrev pub line : String × Usage → UsageLine
line (id, (elapsed, total, highest, speed)) = record {
  id = id;
  secs = elapsed / 1000;
  total = total;
  highest = highest;
  mean = total / elapsed;
  speed = speed;
}

unfoldable pub usage_table : List (String × Usage) → List UsageLine
unfolding sort_by_total
usage_table usage = map line (keep (λ u. not (elapsed_of u == 0)) (sort_by_total usage))

abbrev pub added : Option String → List String → List String
added none set = set
added (some ips) set = insert_all (split 124 ips) set

abbrev pub removed : Option String → List String → List String
removed none set = set
removed (some ips) set = if string_eq ips "all" then [] else remove_all (split 124 ips) set

abbrev shown : Option String → List String → Answer
shown none set = listed set
shown (some ip) set = known (contains ip set)

abbrev pub next : List String → Option String
next [] = none
next (w ∷ ws) = some w

module _ {F : Type 0} (f : Floats F) where
  abbrev set_total : Settings → Option F → Settings
  set_total s none = s
  set_total s (some v) =
      if f.positive v
      then record s {
        total_bandwidth = f.scaled v (megabits f);
        total_speed = some (f.scaled v (megabits f));
      }
      else s

  -- the arms, with the next word if there is one
  abbrev pub run : Option Command → Option String → Settings → Answer × Settings
  run none w s = (nothing, s)
  run (some help) w s = (help_text, s)
  run (some blacklist_add) w s = (nothing, record s { blacklist = added w s.blacklist })
  run (some blacklist_remove) w s = (nothing, record s { blacklist = removed w s.blacklist })
  run (some blacklist_show) w s = (shown w s.blacklist, s)
  run (some blocklist_add) w s = (nothing, record s { blocklist = added w s.blocklist })
  run (some blocklist_remove) w s = (nothing, record s { blocklist = removed w s.blocklist })
  run (some blocklist_show) w s = (shown w s.blocklist, s)
  run (some downgrade_threshold) none s = (setting s.downgrade_threshold_100, s)
  run (some downgrade_threshold) (some v) s = (
    nothing,
    record s { downgrade_threshold_100 = if_positive f 100 s.downgrade_threshold_100 (f.parse v) },
  )
  run (some downgrade_start_check) none s = (setting (s.downgrade_start_check / 1000), s)
  run (some downgrade_start_check) (some v) s = (
    nothing,
    record s { downgrade_start_check = seconds f s.downgrade_start_check (parse_usize v) },
  )
  run (some limit_speed) none s = (setting s.limit_speed, s)
  run (some limit_speed) (some v) s =
      (nothing, record s { limit_speed = if_positive f (megabits f) s.limit_speed (f.parse v) })
  run (some total_bandwidth) none s = (setting s.total_bandwidth, s)
  run (some total_bandwidth) (some v) s = (nothing, set_total s (f.parse v))
  run (some single_bandwidth) none s = (setting s.single_bandwidth, s)
  run (some single_bandwidth) (some v) s = (
    nothing,
    record s { single_bandwidth = if_positive f (megabits f) s.single_bandwidth (f.parse v) },
  )
  run (some usages) w s = (usage_lines (usage_table s.usage), s)

  abbrev pub run_words : List String → Settings → Answer × Settings
  run_words [] s = (nothing, s)
  run_words (w ∷ ws) s = run (command w) (next ws) s

  unfoldable pub check_cmd : String → Settings → Answer × Settings
  unfolding command usage_table
  check_cmd cmd s = run_words (split 32 (trim cmd)) s

-- what handle_connection does with a connection
pub data Verdict : Type 0 where
  console refused paired : Verdict

unfoldable pub handle_connection : AddrTools → SocketAddr → Bool → Settings → Verdict
handle_connection net addr ws s =
    let ip = (net.try_into_v4 addr).ip in
    if not ws && is_loopback ip
    then console
    else if contains (net.ip_text ip) s.blocklist
    then refused
    else paired
