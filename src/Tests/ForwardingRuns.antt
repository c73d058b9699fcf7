-- ===== src/Tests/ForwardingRuns.antt =====
-- Runs of the relay's forwarding and of its console.
use openuu_server.Prelude.{
  ℕ, ◌+◌, ◌*◌, ◌%◌, ◌^◌, ◌<◌, ◌==◌, ◌&&◌, not, String, List, [], ◌∷◌, ◌≡◌, refl, true, false, some,
  none, Bool, Option, arith, count, map,
}
use openuu_server.Relay.Forwarding.{
  Usage, peer, stream, received, ticked, Event, Relaying, begin, relay,
}
use openuu_server.Relay.Forwarding.Delivery.{relay_delivers}
use openuu_server.Relay.Forwarding.Idle.{Timely, relay_idle}
use openuu_server.Relay.Settings.{Settings, Floats, initial}
use openuu_server.Relay.Console.{
  refused, check_cmd, handle_connection, usage_table, line, elapsed_of,
}
use openuu_server.Relay.Console.Access.{check_cmd-handle_connection}
use openuu_server.Tests.Data.{plain_net, office}

abbrev arrival : Event
arrival = record {
  select = received peer (1 ∷ 2 ∷ []) true;
  at = 5000;
  checked = 5001;
  blocklisted = false;
  blacklisted = false;
  downgrade_start_check = 1800000;
  reset = 5002;
}

abbrev tick : Event
tick = record arrival { select = ticked; at = 30000; checked = 30000; reset = 30001 }

abbrev events : List Event
events = arrival ∷ tick ∷ []

abbrev fresh : Relaying
fresh = begin 4000 4000 []

abbrev final : Relaying
final = (relay "c" 1000 events fresh).1

relay_delivers_example : (final.sent ≡ (stream, 1 ∷ 2 ∷ []) ∷ []) × (final.total ≡ 16)
unfolding relay begin
relay_delivers_example = relay_delivers "c" 1000 events fresh final (omega arith) refl

relay_idle_example : Timely events 4000
unfolding relay begin
relay_idle_example = relay_idle "c" 1000 events fresh final refl

-- numbers that no text stands for
abbrev no_floats : Floats ℕ
no_floats = record { parse = λ s. none; positive = λ v. true; scaled = λ v k. v * k }

check_cmd-handle_connection_example :
    handle_connection plain_net office false (check_cmd no_floats "Ba 1|2" initial).1 ≡ refused
unfolding openuu_server.Net.is_loopback openuu_server.Prelude.Text.split
    openuu_server.Prelude.Text.trim openuu_server.Relay.Console.command
    openuu_server.Prelude.String_discrete openuu_server.Relay.Settings.contains
    openuu_server.Prelude.any openuu_server.Tests.Data.number_text
check_cmd-handle_connection_example =
    check_cmd-handle_connection no_floats plain_net "Ba 1|2" office false initial refl

abbrev used : List (String × Usage)
used = ("a", (2000, 5, 1, 1)) ∷ ("b", (3000, 9, 1, 1)) ∷ []
