-- ===== src/Rendezvous/Tcp/Granting.antt =====
-- The relay ticket that goes with a relay request (`handle_request_relay` of
-- src/rendezvous_server/tcp.rs, with `peer_ticket` and `redeem_ticket` of src/account/mod.rs).
use openuu_server.Prelude.{
  ℕ, ◌+◌, String, Bool, true, ◌&&◌, Option, some, ◌∷◌, ◌≡◌, refl, ap, ◌∙◌, ltb,
}
use Prim.Native.String.{len}
use openuu_server.Net.{SocketAddr}
use openuu_server.Account.Api.{authorized, peer_ticket, redeem_ticket, issued, is_true}
use openuu_server.Account.Invariant.{WellFormed}
use openuu_server.Account.Store.{Crypto, digest, ticket, has_live_session}
use openuu_server.Account.Tables.{Accounts, Result, ok, err}
use openuu_server.Account.Tickets.{ticket-redeem}
use openuu_server.Rendezvous.Peers.{Peer, get_in_memory, string_eq}
use openuu_server.Rendezvous.Tcp.Wire.{
  RequestRelay, request_relay, pushed, forward_relay, Conn, Outside, pm_of, serve, move_to_punch,
}
use openuu_server.Rendezvous.Tcp.Handlers.{handle_request_relay, handle_tcp}
use openuu_server.Rendezvous.Tcp.Sending.{pushes, move_to_punch-Quiet}

module _ (k : Crypto) where
  issued-some : (r : Result (Option String)) (t : String) → issued k r ≡ some t → r ≡ ok (some t)
  issued-some (ok o) t h = ap ok h
  issued-some (err e) t h = cc

  -- A ticket that hbbs takes from well-formed tables is accepted by the relay exactly for its uuid,
  -- for less than a minute, while the session lives.
  pub granted-redeem :
      {db : Accounts} (now later : ℕ) (new token id id' : String) {t : String}
      → WellFormed db
      → len new ≡ 64
      → (peer_ticket k now new token id db).0 ≡ some t
      → let db' = (peer_ticket k now new token id db).1 in
        (t ≡ new)
        × ((redeem_ticket k later t id' db').0 ≡ (
            string_eq id id'
            && ltb later (now + 60)
            && has_live_session db' later (digest k token)))
  unfolding peer_ticket redeem_ticket
  granted-redeem {db} now later new token id id' {t} w l h =
      let r = ticket k now new token id db in
      let is : r ≡ (ok (some t), r.1) = ap (λ z. (z, r.1)) (issued-some r.0 t h) in
      let (same, accepted) = ticket-redeem k now later new token id id' w l is in
      (same, ap is_true accepted)

module _ (x : Outside) (addr : SocketAddr) where
  -- When hbbs gets a relay request with the token of a live session for a peer in memory, and the
  -- tables, well-formed before, give a ticket, then it pushes the request to that peer's address with
  -- this ticket and the sender's address, and the connection goes on. The relay accepts the ticket
  -- exactly for the uuid of the request, for less than a minute, while the session lives.
  pub handle_tcp-redeem_ticket :
      (rf : RequestRelay) (key : String) (ws : Bool) (c : Conn) (p : Peer) (later : ℕ)
      (uuid : String) {t : String}
      → WellFormed c.server.accounts
      → len x.new_ticket ≡ 64
      → authorized x.crypto x.unix_now rf.token c.server.accounts ≡ true
      → (peer_ticket x.crypto x.unix_now x.new_ticket rf.token rf.uuid c.server.accounts).0 ≡ some t
      → get_in_memory rf.id (pm_of c.server) ≡ some p
      → let r = handle_tcp x (request_relay rf) addr key ws c in
        (r.0 ≡ true)
        × (pushes r.1
            ≡ pushed p.socket_addr
                (forward_relay (record rf { token = t; socket_addr = x.net.encode addr }))
              ∷ pushes c)
        × ((redeem_ticket x.crypto later t uuid r.1.server.accounts).0 ≡ (
            string_eq rf.uuid uuid
            && ltb later (x.unix_now + 60)
            && has_live_session r.1.server.accounts later (digest x.crypto rf.token)))
  unfolding handle_tcp handle_request_relay pushes
  handle_tcp-redeem_ticket rf key ws c p later uuid {t} w l good granted there =
      let r = peer_ticket x.crypto x.unix_now x.new_ticket rf.token rf.uuid c.server.accounts in
      let c₀ = serve (λ s. record s { accounts = r.1 }) c in
      let q = move_to_punch-Quiet x addr c₀ in
      let found : get_in_memory rf.id (pm_of (move_to_punch x addr c₀).server) ≡ some p =
        ap (λ g. get_in_memory rf.id g.pm) q.registry ∙ there in
      let accepted =
        (granted-redeem x.crypto x.unix_now later x.new_ticket rf.token rf.uuid uuid w l
          granted).1 in
      rw (good, found, granted, q.same_pushes, q.accounts) (refl, refl, accepted)
