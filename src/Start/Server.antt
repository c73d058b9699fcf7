-- ===== src/Start/Server.antt =====
-- The state in which hbbs starts (`start_with_bind` of src/rendezvous_server/mod.rs, and the arguments
-- that src/main.rs gives it).
use openuu_server.Prelude.{ℕ, String, Bool, Option, none, some, [], Bytes, String_discrete}
use openuu_server.Account.Tables.{Accounts}
use openuu_server.Rendezvous.Peers.{Database, string_eq}
use openuu_server.Rendezvous.RelayServers.{get_servers, parse_relay_servers}
use openuu_server.System.{System}
use openuu_server.Start.Arguments.{Environment, Cases, get_arg, get_arg_or}

-- What the start takes from outside: test_if_valid_server, the network of a mask if its text is one,
-- the version in a URL (hbb_common), the address of the machine, and parse::<i32> as a serial is
-- modelled, its value plus 2 ^ 31.
pub record Machine : Type 0 where
  pub valid : String → Bool
  pub parse_mask : String → Option (ℕ → Bool)
  pub get_version_from_url : String → String
  pub own_ip : String
  pub parse_serial : String → Option ℕ

abbrev serial_or_zero : Option ℕ → ℕ
serial_or_zero none = 2147483648
serial_or_zero (some serial) = serial

module _ (t : Cases) (m : Machine) (env : Environment) where
  abbrev local_ip_for : Option (ℕ → Bool) → String
  local_ip_for none = ""
  local_ip_for (some network) = get_arg_or t "local-ip" m.own_ip env

  -- `sk` is the signing key of get_server_sk, `peers` and `accounts` the two databases
  unfoldable pub start_with_bind : Option Bytes → Database → Accounts → System
  unfolding get_arg get_arg_or get_servers parse_relay_servers String_discrete
  start_with_bind sk peers accounts =
      let software_url = get_arg t "software-url" env in
      let mask = m.parse_mask (get_arg t "mask" env) in
      record {
        server = record {
          registry = record {
            pm = record { map = []; db = peers };
            ip_blocker = [];
            ip_changes = [];
          };
          punch_reqs = [];
          relays =
              parse_relay_servers m.valid (get_arg t "relay-servers" env)
                (record { relay_servers0 = []; relay_servers = []; rotation = 0 });
          always_use_relay = string_eq (t.to_uppercase (get_arg t "ALWAYS_USE_RELAY" env)) "Y";
          mask = mask;
          local_ip = local_ip_for mask;
          punch_sessions = [];
          tcp_punch = [];
          tcp_peers = [];
          accounts = accounts;
          serial = serial_or_zero (m.parse_serial (get_arg t "serial" env));
          rendezvous_servers = get_servers m.valid (get_arg t "rendezvous-servers" env);
          sk = sk;
        };
        version = m.get_version_from_url software_url;
        software_url = software_url;
        rx = [];
        checks = [];
        clones = [];
        registrations = [];
      }
