-- ===== src/Net/Proxy.antt =====
-- The address of a WebSocket client behind a proxy (the callbacks of `handle_listener_inner` in
-- src/rendezvous_server/io.rs and of `make_pair` in src/relay_server/connection.rs). The headers and
-- the parser of socket addresses are arguments.

use Prim.Native.String.{String, ◌++◌}
use openuu_server.Prelude.{Option, none, some, if◌then◌else◌}
use openuu_server.Net.{SocketAddr}
use openuu_server.Prelude.Text.{contains_char}

-- A header's value is `some none` where it is no visible ASCII text.
abbrev text : Option (Option String) → Option String
text none = none
text (some t) = t

abbrev or_else : Option (Option String) → Option (Option String) → Option (Option String)
or_else none b = b
or_else (some v) b = some v

unfoldable pub real_ip : (String → Option (Option String)) → Option String
real_ip headers = text (or_else (headers "X-Real-IP") (headers "X-Forwarded-For"))

abbrev unwrap_or : Option SocketAddr → SocketAddr → SocketAddr
unwrap_or none a = a
unwrap_or (some b) a = b

abbrev from_ip : (String → Option SocketAddr) → Option String → SocketAddr → SocketAddr
from_ip parse none addr = addr
from_ip parse (some ip) addr =
    unwrap_or (parse (if contains_char 46 ip then ip ++ ":0" else "[" ++ ip ++ "]:0")) addr

unfoldable pub forwarded_addr :
    (String → Option SocketAddr) → (String → Option (Option String)) → SocketAddr → SocketAddr
unfolding real_ip contains_char
forwarded_addr parse headers addr = from_ip parse (real_ip headers) addr
