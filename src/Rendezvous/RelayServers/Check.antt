-- ===== src/Rendezvous/RelayServers/Check.antt =====
-- The check which relay servers answer (`check_relay_servers` of src/rendezvous_server/relay.rs).
use Prim.Native.String.{◌++◌}
use openuu_server.Prelude.{String, Bool, Option, none, some, List, if◌then◌else◌, keep, is_empty}
use openuu_server.Prelude.Text.{contains_char}

-- with the port of the relay, as text, where the name has none
abbrev pub with_port : String → String → String
with_port relay_port host = if contains_char b':' host then host else host ++ ":" ++ relay_port

-- Data::RelayServers that is sent, if any. `connects` says whether a connection is made within the
-- time-out, `finished` is the servers in the order in which their tasks finish.
unfoldable pub check_relay_servers : String → (String → Bool) → List String → Option (List String)
unfolding contains_char
check_relay_servers relay_port connects finished =
    let rs = keep (λ x. connects (with_port relay_port x)) finished in
    if is_empty rs then none else some rs
