-- ===== src/Relay/Settings.antt =====
-- The lists and limits of the relay: the globals of src/relay_server/mod.rs, with `check_params` and the
-- reading of the two list files. Floats are an argument. `usize` has 64 bits.
use openuu_server.Prelude.{
  ℕ, ◌*◌, ◌%◌, ◌^◌, String, Bool, not, Option, none, some, List, [], ◌∷◌, ltb, if◌then◌else◌, any,
  keep, eqb, String_discrete,
}
use openuu_server.Prelude.Text.{split, trim, parse_usize}
use openuu_server.Relay.Forwarding.{Usage}

abbrev pub string_eq : String → String → Bool
string_eq = eqb String_discrete

-- `HashSet<String>`
unfoldable pub contains : String → List String → Bool
contains s set = any (string_eq s) set

unfoldable pub insert_ip : String → List String → List String
unfolding contains
insert_ip s set = if contains s set then set else s ∷ set

unfoldable pub remove_ip : String → List String → List String
remove_ip s set = keep (λ t. not (string_eq s t)) set

unfoldable pub insert_all : List String → List String → List String
unfolding insert_ip
insert_all [] set = set
insert_all (s ∷ ips) set = insert_all ips (insert_ip s set)

unfoldable pub remove_all : List String → List String → List String
unfolding remove_ip
remove_all [] set = set
remove_all (s ∷ ips) set = remove_all ips (remove_ip s set)

-- `total_speed` is the speed of the limiter that all connections share, once it is set.
pub record Settings : Type 0 where
  pub blacklist : List String
  pub blocklist : List String
  pub downgrade_threshold_100 : ℕ
  pub downgrade_start_check : ℕ
  pub limit_speed : ℕ
  pub total_bandwidth : ℕ
  pub single_bandwidth : ℕ
  pub total_speed : Option ℕ
  pub usage : List (String × Usage)

-- f64: `parse`, whether it is above 0, and `(v * k) as usize`
pub record Floats (F : Type 0) : Type 0 where
  pub parse : String → Option F
  pub positive : F → Bool
  pub scaled : F → ℕ → ℕ

-- the statics before the program starts
abbrev pub initial : Settings
initial = record {
  blacklist = [];
  blocklist = [];
  downgrade_threshold_100 = 66;
  downgrade_start_check = 1800000;
  limit_speed = 32 * 1024 * 1024;
  total_bandwidth = 1024 * 1024 * 1024;
  single_bandwidth = 128 * 1024 * 1024;
  total_speed = none;
  usage = [];
}

abbrev first : List String → Option String
first [] = none
first (s ∷ ss) = some s

abbrev insert_first : Option String → List String → List String
insert_first none set = set
insert_first (some s) set = insert_ip s set

abbrev insert_lines : List String → List String → List String
insert_lines [] set = set
insert_lines (line ∷ lines) set =
    insert_lines lines (insert_first (first (split 32 (trim line))) set)

-- the first word of each line of a list file
unfoldable pub read_list : String → List String → List String
unfolding insert_ip
read_list contents set = insert_lines (split 10 contents) set

module _ {F : Type 0} (f : Floats F) where
  abbrev pub if_positive : ℕ → ℕ → Option F → ℕ
  if_positive k old none = old
  if_positive k old (some v) = if f.positive v then f.scaled v k else old

  abbrev pub megabits : ℕ
  megabits = 1024 * 1024

  abbrev pub seconds : ℕ → Option ℕ → ℕ
  seconds old none = old
  seconds old (some v) = if ltb 0 v then v * 1000 % 2 ^ 64 else old

  -- `get_arg` is common::get_arg, the empty text where an argument is not given
  unfoldable pub check_params : (String → String) → Settings → Settings
  unfolding parse_usize
  check_params get_arg s = record s {
    downgrade_threshold_100 =
        if_positive 100 s.downgrade_threshold_100 (f.parse (get_arg "DOWNGRADE_THRESHOLD"));
    downgrade_start_check =
        seconds s.downgrade_start_check (parse_usize (get_arg "DOWNGRADE_START_CHECK"));
    limit_speed = if_positive megabits s.limit_speed (f.parse (get_arg "LIMIT_SPEED"));
    total_bandwidth = if_positive megabits s.total_bandwidth (f.parse (get_arg "TOTAL_BANDWIDTH"));
    single_bandwidth =
        if_positive megabits s.single_bandwidth (f.parse (get_arg "SINGLE_BANDWIDTH"));
  }
