-- ===== src/System/Handing.antt =====
-- The relay servers that hbbs hands out, from its start (`io_loop` of src/rendezvous_server/io.rs,
-- src/rendezvous_server/relay.rs and console.rs).
pub mod Console
pub mod Kept
pub mod Reached
use openuu_server.Prelude.{
  ℕ, zero, suc, ◌%◌, String, Bool, true, false, not, ◌&&◌, ◌||◌, Option, none, some, List, [], ◌∷◌,
  ◌++◌, ◌≡◌, ◌⊎◌, inl, inr, refl, ap, subst, sym, ◌∙◌, arith, keep, ltb, length, ◌==◌, is_empty,
  Bool-cases, Bytes,
}
use openuu_server.Prelude.Table.{All}
use openuu_server.Prelude.Text.{split, is_empty_text}
use openuu_server.Net.{SocketAddr}
use openuu_server.Account.Tables.{Accounts}
use openuu_server.Rendezvous.Peers.{Database}
use openuu_server.Rendezvous.RelayServers.{
  RelayServers, nth, get_servers, get_relay_server, parse_relay_servers, use_relay_servers,
}
use openuu_server.Rendezvous.RelayServers.Check.{check_relay_servers, with_port}
use openuu_server.Rendezvous.Console.{Data, relay_servers0, relay_servers, handle_data}
use openuu_server.Rendezvous.Tcp.Wire.{TcpServer, Outside, at}
use openuu_server.Rendezvous.Tcp.Preserving.{IsKept}
use openuu_server.System.{
  System, Event, tcp_message, tcp_closed, packet, second_port, data_received, timer_ticks,
  check_ends, account_call, World, conn_of, sent, reached, receives, ticks, ends, perform,
  perform_all,
}

module _ (valid : String → Bool) where
  abbrev pub Valid : String → Type 0
  Valid x = valid x ≡ true

  abbrev pub AllValid : List String → Type 0
  AllValid = All Valid

  abbrev pub DataValid : Data → Type 0
  DataValid (relay_servers0 rs) = Unit
  DataValid (relay_servers rs) = AllValid rs

  abbrev pub ServersValid : TcpServer → Type 0
  ServersValid s = AllValid s.relays.relay_servers0 × AllValid s.relays.relay_servers

  keep-AllValid :
      (p : String → Bool) (xs : List String)
      → ((x : String) → p x ≡ true → Valid x)
      → AllValid (keep p xs)
  unfolding keep
  keep-AllValid p [] h = tt
  keep-AllValid p (x ∷ xs) h = elim (Bool-cases (p x)) [
    | inl stays ↦ rw stays (h x stays, keep-AllValid p xs h)
    | inr goes ↦ rw goes (keep-AllValid p xs h)
  ]

  pub keep-Valid : (p : String → Bool) (xs : List String) → AllValid xs → AllValid (keep p xs)
  unfolding keep
  keep-Valid p [] h = tt
  keep-Valid p (x ∷ xs) h = elim (Bool-cases (p x)) [
    | inl stays ↦ rw stays (h.0, keep-Valid p xs h.1)
    | inr goes ↦ rw goes (keep-Valid p xs h.1)
  ]

  pub get_servers-AllValid : (text : String) → AllValid (get_servers valid text)
  unfolding get_servers
  get_servers-AllValid text =
      keep-AllValid (λ x. not (is_empty_text x) && valid x) (split 44 text) λ x h. ground arith

  pub rotation_kept :
      (r : RelayServers)
      → ((get_relay_server r).1.relay_servers0 ≡ r.relay_servers0)
        × ((get_relay_server r).1.relay_servers ≡ r.relay_servers)
  unfolding get_relay_server
  rotation_kept r = (ground arith, ground arith)

  pub ServersValid-IsKept : (x : Outside) → IsKept x ServersValid
  ServersValid-IsKept x = record {
    tcp_punch = λ s m h. h;
    tcp_peers = λ s m h. h;
    sessions = λ s m h. h;
    registry = λ s r h. h;
    punch_reqs = λ s q h. h;
    rotation = λ s h. rw ((rotation_kept s.relays).0, (rotation_kept s.relays).1) h;
    accounts = λ s token uuid h. h;
  }

  nth-Valid : (xs : List String) (i : ℕ) → AllValid xs → (nth xs i ≡ "") ⊎ Valid (nth xs i)
  nth-Valid [] i h = inl refl
  nth-Valid (x ∷ xs) zero h = inr h.0
  nth-Valid (x ∷ xs) (suc i) h = nth-Valid xs i h.1

  pub handed-Valid :
      (r : RelayServers)
      → AllValid r.relay_servers
      → ((get_relay_server r).0 ≡ "") ⊎ Valid (get_relay_server r).0
  unfolding get_relay_server
  handed-Valid r h = elim (Bool-cases (length r.relay_servers == 0)) [
    | inl empty ↦ rw empty (inl refl)
    | inr filled ↦ elim (Bool-cases (length r.relay_servers == 1)) [
      | inl one ↦ rw (filled, one) (nth-Valid r.relay_servers 0 h)
      | inr more ↦
          rw (filled, more) (nth-Valid r.relay_servers (r.rotation % length r.relay_servers) h)
    ]
  ]
