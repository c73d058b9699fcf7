-- ===== src/System/Clones.antt =====
-- The clone of the server that a connection works on (`handle_listener` of
-- src/rendezvous_server/io.rs).
use openuu_server.Prelude.{ℕ, String, Bool, Option, ◌≡◌, refl, ◌∙◌, arith}
use openuu_server.Net.{SocketAddr}
use openuu_server.Rendezvous.RelayServers.{get_relay_server}
use openuu_server.Rendezvous.Tcp.Wire.{TcpMessage, TcpServer, Outside}
use openuu_server.Rendezvous.Tcp.Handlers.{handle_tcp}
use openuu_server.Rendezvous.Tcp.Preserving.{IsKept}
use openuu_server.Rendezvous.Tcp.Preserving.Messages.{handle_tcp_kept}
use openuu_server.System.{Clone, conn_of, clone_of, as_clone}

abbrev Has : Clone → TcpServer → Type 0
Has c s = clone_of s ≡ c

clone_of-rotation :
    (s : TcpServer) → clone_of (record s { relays = (get_relay_server s.relays).1 }) ≡ clone_of s
unfolding get_relay_server
clone_of-rotation s = ground arith

Has-IsKept : (x : Outside) (c : Clone) → IsKept x (Has c)
Has-IsKept x c = record {
  tcp_punch = λ s m h. h;
  tcp_peers = λ s m h. h;
  sessions = λ s m h. h;
  registry = λ s r h. h;
  punch_reqs = λ s q h. h;
  rotation = λ s h. clone_of-rotation s ∙ h;
  accounts = λ s token uuid h. h;
}

-- A message of a connection leaves its clone as it was made, whatever the message is and whatever
-- the loop and other connections have done since: the relay servers, the serial and the rendezvous
-- servers of a connection are for ever those of the time when it was accepted.
handle_tcp-clone_of :
    (x : Outside) (msg : TcpMessage) (addr : SocketAddr) (key : String) (ws : Bool)
    (sink : Option ℕ) (c : Clone) (s : TcpServer)
    → clone_of (handle_tcp x msg addr key ws (conn_of sink (as_clone c s))).1.server ≡ c
handle_tcp-clone_of x msg addr key ws sink c s =
    handle_tcp_kept x (Has c) (Has-IsKept x c) addr msg key ws (conn_of sink (as_clone c s)) refl
