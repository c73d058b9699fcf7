-- ===== src/Rendezvous/Tcp/Connection.antt =====
-- A connection to hbbs from its first byte to its end (`handle_listener_inner` of
-- src/rendezvous_server/io.rs). The frames that arrive before the stream ends, fails or is silent for
-- thirty seconds are an argument, each with the moment it is handled at.
pub mod Decryption
pub mod Sinks
pub mod Closing
use openuu_server.Prelude.{
  ℕ, String, Bool, true, false, Option, none, some, List, [], ◌∷◌, Bytes, if◌then◌else◌,
}
use openuu_server.Prelude.Map.{remove}
use openuu_server.Net.{SocketAddr, SocketAddr-discrete}
use openuu_server.Net.Proxy.{forwarded_addr}
use openuu_server.Rendezvous.Tcp.Wire.{
  TcpMessage, Conn, Outside, Moment, TcpServer, at, serve, emit, written, key_exchange,
}
use openuu_server.Rendezvous.Tcp.Secure.{Sodium, offer, accept, encrypt_pair}
use openuu_server.Rendezvous.Tcp.Handlers.{handle_tcp}

-- `dec` and `offer` of the reading loop: neither, the offer with its secret key, or the decryption
pub data Phase {ℓ} (Enc : Type ℓ) : Type ℓ where
  clear : Phase Enc
  offered : Bytes → Phase Enc
  secured : Enc → Phase Enc

pub data WsMessage : Type 0 where
  binary : Bytes → WsMessage
  other_frame : WsMessage

-- What a connection takes from outside beside what its messages take: the parser of protobuf with the
-- keys of a KeyExchange (`none` for another message), sodiumoxide, and `Encrypt`.
pub record Codec {ℓ} (Enc : Type ℓ) : Type ℓ where
  pub parse : Bytes → TcpMessage
  pub exchange_keys : Bytes → Option (List Bytes)
  pub sodium : Sodium
  pub new_encrypt : Bytes → Enc
  pub dec : Enc → Bytes → Option (Bytes × Enc)

module _ {ℓ} {Enc : Type ℓ} (k : Codec Enc) where
  abbrev decrypted : Option (Bytes × Enc) → Option (Phase Enc × Option Bytes)
  decrypted none = none
  decrypted (some (bytes, d)) = some (secured d, some bytes)

  abbrev accepted : Option Bytes → Option (Phase Enc × Option Bytes)
  accepted none = none
  accepted (some key) = some (secured (encrypt_pair k.new_encrypt key).1, none)

  abbrev answered : Bytes → Bytes → Option (List Bytes) → Option (Phase Enc × Option Bytes)
  answered sk bytes none = some (clear, some bytes)
  answered sk bytes (some keys) = accepted (accept k.sodium sk keys)

  -- One frame up to `handle_tcp`: the next phase with what there is to handle, or none to break.
  unfoldable pub receive : Phase Enc → Bytes → Option (Phase Enc × Option Bytes)
  unfolding accept encrypt_pair
  receive clear bytes = some (clear, some bytes)
  receive (offered sk) bytes = answered sk bytes (k.exchange_keys bytes)
  receive (secured d) bytes = decrypted (k.dec d bytes)

  module _ (x : Outside) (addr : SocketAddr) (key : String) where
    abbrev pub handle_bytes : Bool → Moment → Bytes → Conn → Bool × Conn
    handle_bytes ws m bytes c = handle_tcp (at m x) (k.parse bytes) addr key ws c

    abbrev pub stepped :
        Moment → (Phase Enc → Conn → Conn) → Conn → Option (Phase Enc × Option Bytes) → Conn
    stepped m rest c none = c
    stepped m rest c (some (next, none)) = rest next c
    stepped m rest c (some (next, some plain)) =
        let (more, c') = handle_bytes false m plain c in
        let r = rest next c' in if more then r else c'

    -- the loop of a plain TCP connection
    unfoldable pub read_frames : Phase Enc → List (Moment × Bytes) → Conn → Conn
    unfolding receive handle_tcp
    read_frames phase [] c = c
    read_frames phase ((m, bytes) ∷ frames) c =
        stepped m (λ next c'. read_frames next frames c') c (receive phase bytes)

    -- the loop of a WebSocket connection
    unfoldable pub read_messages : List (Moment × WsMessage) → Conn → Conn
    unfolding handle_tcp
    read_messages [] c = c
    read_messages ((m, binary bytes) ∷ messages) c =
        let (more, c') = handle_bytes true m bytes c in
        let rest = read_messages messages c' in if more then rest else c'
    read_messages ((m, other_frame) ∷ messages) c = read_messages messages c

    abbrev pub forget_punch : Option ℕ → TcpServer → TcpServer
    forget_punch none s = record s {
      tcp_punch = remove SocketAddr-discrete (x.net.try_into_v4 addr) s.tcp_punch;
    }
    forget_punch (some n) s = s

    -- after the loop, with forget_tcp_peer
    unfoldable pub close : Conn → Conn
    close c =
        let s = forget_punch c.sink c.server in
        record c {
          server = record s {
            tcp_peers = remove SocketAddr-discrete (x.net.try_into_v4 addr) s.tcp_peers;
          };
        }

    abbrev pub start : ℕ → Bytes × Bytes → Option Bytes → TcpServer → Phase Enc × Conn
    start n pair none s = (clear, record { sink = some n; out = []; server = s })
    start n pair (some sk) s =
        let (sk_b, signed) = offer k.sodium sk pair in
        (
          offered sk_b,
          record { sink = some n; out = written n (key_exchange signed) ∷ []; server = s },
        )

    -- handle_listener_inner without `ws`, on a connection whose sink is `n`, with the key pair of
    -- the offer
    unfoldable pub handle_tcp_listener :
        ℕ → Bytes × Bytes → List (Moment × Bytes) → TcpServer → Conn
    unfolding read_frames close offer
    handle_tcp_listener n pair frames s =
        let (phase, c) = start n pair s.sk s in close (read_frames phase frames c)

  -- handle_listener_inner with `ws`, after the WebSocket handshake with these headers
  unfoldable pub handle_ws_listener :
      Outside
      → (String → Option SocketAddr)
      → (String → Option (Option String))
      → SocketAddr
      → String
      → ℕ
      → List (Moment × WsMessage)
      → TcpServer
      → Conn
  unfolding read_messages close forwarded_addr
  handle_ws_listener x parse_addr headers addr key n messages s =
      let from = forwarded_addr parse_addr headers addr in
      close x from key
        (read_messages x from key messages (record { sink = some n; out = []; server = s }))
