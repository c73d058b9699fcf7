-- ===== src/Rendezvous/Tcp/Connection/Closing.antt =====
-- What a connection leaves behind (`handle_listener_inner` of src/rendezvous_server/io.rs).
use openuu_server.Prelude.{
  ℕ, true, false, ◌≢◌, String, Option, none, some, List, [], ◌∷◌, ◌≡◌, refl, ap, sym, ◌∙◌, arith,
  inl, inr, Bytes, Bool-cases, is_empty,
}
use openuu_server.Prelude.Map.{get, get-remove, remove}
use openuu_server.Net.{SocketAddr, SocketAddr-discrete}
use openuu_server.Rendezvous.Peers.{Peer, get_in_memory}
use openuu_server.Rendezvous.TcpPeers.{stream}
use openuu_server.Rendezvous.Tcp.Wire.{Conn, Outside, Moment, TcpServer, at, pm_of}
use openuu_server.Rendezvous.Tcp.Owners.{handle_tcp_keeps}
use openuu_server.Rendezvous.Tcp.Owning.{Owns, Mine}
use openuu_server.Net.Proxy.{forwarded_addr}
use openuu_server.Rendezvous.Tcp.Connection.{
  WsMessage, binary, other_frame, read_messages, handle_ws_listener, Phase, Codec, receive, stepped,
  read_frames, handle_bytes, close, start, forget_punch, handle_tcp_listener,
}
use openuu_server.Rendezvous.Tcp.Connection.Sinks.{handle_tcp-Stays}

gone :
    {V : Type 0} (k j : SocketAddr) (v : V) (m : List (SocketAddr × V))
    → (j ≢ k → get SocketAddr-discrete j m ≢ some v)
    → get SocketAddr-discrete j (remove SocketAddr-discrete k m) ≢ some v
gone k j v m away e = elim (SocketAddr-discrete k j) [
  | yes is ↦ absurd (ground (arith, e, get-remove SocketAddr-discrete k j m, is))
  | no other ↦
      absurd (
        away (λ is. other (sym is))
          (ground (arith, e, get-remove SocketAddr-discrete k j m, other)))
]

module _ {ℓ} {Enc : Type ℓ} (k : Codec Enc) (x : Outside) (addr : SocketAddr) (key : String) where
  -- A property of the connection that every message keeps holds when reading ends.
  module _ (P : Conn → Type 0)
      (each : (m : Moment) (bytes : Bytes) (c : Conn)
        → P c
        → P (handle_bytes k x addr key false m bytes c).1) where
    stepped_keeps :
        (m : Moment) (rest : Phase Enc → Conn → Conn)
        → ((next : Phase Enc) (c : Conn) → P c → P (rest next c))
        → (c : Conn) (r : Option (Phase Enc × Option Bytes)) → P c
        → P (stepped k x addr key m rest c r)
    stepped_keeps m rest later c none h = h
    stepped_keeps m rest later c (some (next, none)) h = later next c h
    stepped_keeps m rest later c (some (next, some plain)) h =
        let c' = (handle_bytes k x addr key false m plain c).1 in
        elim (Bool-cases (handle_bytes k x addr key false m plain c).0) [
          | inl more ↦ rw more (later next c' (each m plain c h))
          | inr over ↦ rw over (each m plain c h)
        ]

    read_frames_keeps :
        (phase : Phase Enc) (frames : List (Moment × Bytes)) (c : Conn)
        → P c
        → P (read_frames k x addr key phase frames c)
    unfolding read_frames
    read_frames_keeps phase [] c h = h
    read_frames_keeps phase ((m, bytes) ∷ frames) c h =
        stepped_keeps m (λ next c'. read_frames k x addr key next frames c')
          (λ next c'. read_frames_keeps next frames c') c (receive k phase bytes) h

  abbrev Free : ℕ → TcpServer → Type 0
  Free n s =
      (j : SocketAddr)
      → (get SocketAddr-discrete j s.tcp_punch ≢ some n)
        × (get SocketAddr-discrete j s.tcp_peers ≢ some (stream n))

  forgotten :
      (n : ℕ) (o : Option ℕ) (s : TcpServer)
      → Owns n (x.net.try_into_v4 addr) o s.tcp_punch s.tcp_peers
      → (j : SocketAddr)
      → (get SocketAddr-discrete j (forget_punch k x addr key o s).tcp_punch ≢ some n)
        × (get SocketAddr-discrete j (
              remove SocketAddr-discrete
                (x.net.try_into_v4 addr)
                (forget_punch k x addr key o s).tcp_peers)
            ≢ some (stream n))
  forgotten n none s h j = (
    gone (x.net.try_into_v4 addr) j n s.tcp_punch (h.away_punch j),
    gone (x.net.try_into_v4 addr) j (stream n) s.tcp_peers (h.away_peers j),
  )
  forgotten n (some m) s h j = (
    elim (SocketAddr-discrete j (x.net.try_into_v4 addr)) [
      | yes is ↦ λ e.
          h.kept (λ no_sink. absurd (cc))
            (ap (λ i. get SocketAddr-discrete i s.tcp_punch) (sym is) ∙ e)
      | no other ↦ h.away_punch j other
    ],
    gone (x.net.try_into_v4 addr) j (stream n) s.tcp_peers (h.away_peers j),
  )

  close-Free :
      (n : ℕ) (c : Conn) → Mine n (x.net.try_into_v4 addr) c → Free n (close k x addr key c).server
  unfolding close
  close-Free n c h j = forgotten n c.sink c.server h j

  pub close-registry : (c : Conn) → (close k x addr key c).server.registry ≡ c.server.registry
  unfolding close
  close-registry c = by_sink c.sink
    where
      by_sink : (o : Option ℕ) → (forget_punch k x addr key o c.server).registry ≡ c.server.registry
      by_sink none = refl
      by_sink (some n) = refl

  start-registry :
      (n : ℕ) (pair : Bytes × Bytes) (o : Option Bytes) (s : TcpServer)
      → (start k x addr key n pair o s).1.server.registry ≡ s.registry
  start-registry n pair none s = refl
  start-registry n pair (some sk) s = refl

  started :
      (n : ℕ) (pair : Bytes × Bytes) (o : Option Bytes) (s : TcpServer)
      → Free n s
      → Mine n (x.net.try_into_v4 addr) (start k x addr key n pair o s).1
  started n pair none s free = record {
    away_punch = λ j other. (free j).0;
    away_peers = λ j other. (free j).1;
    kept = λ some_sink. (free (x.net.try_into_v4 addr)).0;
  }
  started n pair (some sk) s free = record {
    away_punch = λ j other. (free j).0;
    away_peers = λ j other. (free j).1;
    kept = λ some_sink. (free (x.net.try_into_v4 addr)).0;
  }

  -- If no map of the server holds the sink of a connection when it starts, then none does when the
  -- connection has ended, whatever was sent on it.
  pub handle_tcp_listener_frees :
      (n : ℕ) (pair : Bytes × Bytes) (frames : List (Moment × Bytes)) (s : TcpServer)
      → ((j : SocketAddr)
          → (get SocketAddr-discrete j s.tcp_punch ≢ some n)
            × (get SocketAddr-discrete j s.tcp_peers ≢ some (stream n)))
      → let s' = (handle_tcp_listener k x addr key n pair frames s).server in
        (j : SocketAddr)
        → (get SocketAddr-discrete j s'.tcp_punch ≢ some n)
          × (get SocketAddr-discrete j s'.tcp_peers ≢ some (stream n))
  unfolding handle_tcp_listener
  handle_tcp_listener_frees n pair frames s free =
      let (phase, c) = start k x addr key n pair s.sk s in
      close-Free n (read_frames k x addr key phase frames c) (
        read_frames_keeps (Mine n (x.net.try_into_v4 addr))
          (λ m bytes c'. handle_tcp-Stays (at m x) addr n (k.parse bytes) key false c') phase frames
          c (started n pair s.sk s free))

  abbrev Same : String → Peer → Conn → Type 0
  Same j p c = (q : Peer) × (get_in_memory j (pm_of c.server) ≡ some q) × (q.uuid ≡ p.uuid)

  each_keeps :
      (j : String) (p : Peer)
      → is_empty p.uuid ≡ false
      → (m : Moment) (bytes : Bytes) (c : Conn) → Same j p c
      → Same j p (handle_bytes k x addr key false m bytes c).1
  each_keeps j p full m bytes c (q, found, uuid) =
      let (r, found', uuid', _) =
        handle_tcp_keeps j q (at m x) addr (k.parse bytes) key false c (ap is_empty uuid ∙ full)
          found in
      (r, found', uuid' ∙ uuid)

  -- Whatever a connection sends, a registered peer in memory is there when it ends, with the uuid that
  -- it had.
  handle_tcp_listener_keeps :
      (n : ℕ) (pair : Bytes × Bytes) (frames : List (Moment × Bytes)) (s : TcpServer) (j : String)
      (p : Peer)
      → is_empty p.uuid ≡ false
      → get_in_memory j (pm_of s) ≡ some p
      → (q : Peer) × (get_in_memory j
            (pm_of (handle_tcp_listener k x addr key n pair frames s).server)
          ≡ some q)
        × (q.uuid ≡ p.uuid)
  unfolding handle_tcp_listener
  handle_tcp_listener_keeps n pair frames s j p full h =
      let (phase, c) = start k x addr key n pair s.sk s in
      let there = ap (λ r. get_in_memory j r.pm) (start-registry n pair s.sk s) ∙ h in
      let (q, found, uuid) =
        read_frames_keeps (Same j p) (each_keeps j p full) phase frames c (p, there, refl) in
      (
        q,
        ap (λ r. get_in_memory j r.pm) (close-registry (read_frames k x addr key phase frames c))
            ∙ found,
        uuid,
      )

  read_messages-Mine :
      (n : ℕ) (messages : List (Moment × WsMessage)) (c : Conn)
      → Mine n (x.net.try_into_v4 addr) c
      → Mine n (x.net.try_into_v4 addr) (read_messages k x addr key messages c)
  unfolding read_messages
  read_messages-Mine n [] c h = h
  read_messages-Mine n ((m, other_frame) ∷ messages) c h = read_messages-Mine n messages c h
  read_messages-Mine n ((m, binary bytes) ∷ messages) c h =
      let r = handle_bytes k x addr key true m bytes c in
      let kept = handle_tcp-Stays (at m x) addr n (k.parse bytes) key true c h in
      elim (Bool-cases r.0) [
        | inl more ↦ rw more (read_messages-Mine n messages r.1 kept)
        | inr over ↦ rw over kept
      ]

-- The same for a WebSocket connection, under the address that its headers give.
handle_ws_listener_frees {ℓ} :
    {Enc : Type ℓ} (k : Codec Enc) (x : Outside) (parse_addr : String → Option SocketAddr)
    (headers : String → Option (Option String)) (addr : SocketAddr) (key : String) (n : ℕ)
    (messages : List (Moment × WsMessage)) (s : TcpServer)
    → ((j : SocketAddr)
        → (get SocketAddr-discrete j s.tcp_punch ≢ some n)
          × (get SocketAddr-discrete j s.tcp_peers ≢ some (stream n)))
    → let s' = (handle_ws_listener k x parse_addr headers addr key n messages s).server in
      (j : SocketAddr)
      → (get SocketAddr-discrete j s'.tcp_punch ≢ some n)
        × (get SocketAddr-discrete j s'.tcp_peers ≢ some (stream n))
unfolding handle_ws_listener
handle_ws_listener_frees k x parse_addr headers addr key n messages s free =
    let from = forwarded_addr parse_addr headers addr in
    let c : Conn = record { sink = some n; out = []; server = s } in
    close-Free k x from key n (read_messages k x from key messages c) (
      read_messages-Mine k x from key n messages c (record {
        away_punch = λ j other. (free j).0;
        away_peers = λ j other. (free j).1;
        kept = λ some_sink. (free (x.net.try_into_v4 from)).0;
      }))
