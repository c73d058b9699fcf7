-- ===== src/Rendezvous/Tcp/PeerInitiated.antt =====
-- A relay that the peer chooses itself (`answer_peer_initiated_relay` of
-- src/rendezvous_server/tcp.rs, with src/rendezvous_server/sessions.rs and src/account/mod.rs).
use openuu_server.Prelude.{
  ℕ, ◌+◌, ◌≤◌, ◌<◌, String, false, ◌&&◌, some, ◌∷◌, ◌≡◌, refl, ap, arith, ◌∙◌, ltb, eqb_self,
}
use Prim.Native.String.{len}
use openuu_server.Prelude.Map.{Distinct}
use openuu_server.Prelude.Text.{is_empty_text}
use openuu_server.Net.{SocketAddr}
use openuu_server.Account.Api.{peer_ticket, redeem_ticket}
use openuu_server.Account.Invariant.{WellFormed}
use openuu_server.Account.Store.{digest, has_live_session}
use openuu_server.Rendezvous.Peers.{string_eq}
use openuu_server.Rendezvous.PunchSessions.{
  PunchSessions, Key-discrete, key, ttl, remember, token_for,
}
use openuu_server.Rendezvous.PunchSessions.Laws.{token_for-remember}
use openuu_server.Rendezvous.Tcp.Wire.{
  RelayResponse, Conn, Outside, written, grant_relay, reply_on_connection,
}
use openuu_server.Rendezvous.Tcp.Replies.{id_of, answer_peer_initiated_relay}
use openuu_server.Rendezvous.Tcp.Granting.{granted-redeem}

module _ (x : Outside) (controller from : SocketAddr) where
  remembered_token :
      (asked : ℕ) (id token : String) (old : PunchSessions)
      → Distinct Key-discrete old
      → asked ≤ x.now
      → x.now < asked + ttl
      → token_for x.net x.now controller id (remember x.net asked controller id token old)
        ≡ some token
  remembered_token asked id token old d after soon =
      token_for-remember x.net asked controller id token old x.now controller id d after
      ∙ ground (arith, eqb_self Key-discrete (key x.net controller id), soon)

  -- When a peer answers a punch-hole request within a minute by a RelayResponse with a uuid, no other
  -- request was remembered since, the connection still owns its sink (as that of a peer that
  -- registered on it does not), and the well-formed tables give a ticket to the session of the request,
  -- then the peer gets this ticket on its connection. The relay accepts the ticket exactly for this
  -- uuid, for less than a minute, while the session lives.
  pub answer_peer_initiated_relay-redeem_ticket :
      (asked n : ℕ) (token : String) (old : PunchSessions) (rr : RelayResponse) (c : Conn)
      (later : ℕ) (uuid : String) {t : String}
      → Distinct Key-discrete old
      → c.server.punch_sessions ≡ remember x.net asked controller (id_of rr.peer) token old
      → asked ≤ x.now
      → x.now < asked + ttl
      → is_empty_text rr.uuid ≡ false
      → c.sink ≡ some n
      → WellFormed c.server.accounts
      → len x.new_ticket ≡ 64
      → (peer_ticket x.crypto x.unix_now x.new_ticket token rr.uuid c.server.accounts).0 ≡ some t
      → let c' = answer_peer_initiated_relay x rr controller from c in
        (c'.out ≡ written n (grant_relay rr.uuid t) ∷ c.out)
        × ((redeem_ticket x.crypto later t uuid c'.server.accounts).0 ≡ (
            string_eq rr.uuid uuid
            && ltb later (x.unix_now + 60)
            && has_live_session c'.server.accounts later (digest x.crypto token)))
  unfolding answer_peer_initiated_relay reply_on_connection
  answer_peer_initiated_relay-redeem_ticket asked n token old rr c later uuid {t} d asked_at after
        soon given owns w l granted =
      let known : token_for x.net x.now controller (id_of rr.peer) c.server.punch_sessions
          ≡ some token =
        ap (token_for x.net x.now controller (id_of rr.peer)) asked_at
        ∙ remembered_token asked (id_of rr.peer) token old d after soon in
      let accepted =
        (granted-redeem x.crypto x.unix_now later x.new_ticket token rr.uuid uuid w l granted).1 in
      rw (given, known, granted, owns) (refl, accepted)
