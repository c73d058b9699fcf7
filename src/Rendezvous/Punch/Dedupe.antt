-- ===== src/Rendezvous/Punch/Dedupe.antt =====
-- The record of punch requests, PUNCH_REQS (src/rendezvous_server/punch.rs).
use openuu_server.Prelude.{
  ℕ, ◌-◌, ◌≤◌, String, Bool, false, not, ◌&&◌, leb, Option, none, some, List, [], ◌∷◌, Bool-cases,
  inl, inr, ◌≡◌, arith, take, find?,
}
use openuu_server.Net.{SocketAddr, AddrTools}
use openuu_server.Rendezvous.Blocker.{elapsed_secs}
use openuu_server.Rendezvous.Messages.{PunchHoleRequest}
use openuu_server.Rendezvous.Peers.{Peer, InfoCodec, get_or_load, string_eq}
use openuu_server.Prelude.Text.{is_empty_text}
use openuu_server.Rendezvous.Punch.{
  PunchReqEntry, PunchServer, same_route, record_punch_req, recent_dup, reg_timeout,
  handle_punch_hole_request, to_peer, punch_req_dedupe_sec,
}

-- Each entry stands a minute or more after the last entry for the same address and peer among the
-- thirty before it.
abbrev Apart : PunchReqEntry → Option PunchReqEntry → Type 0
Apart e none = Unit {0}
Apart e (some x) = punch_req_dedupe_sec ≤ elapsed_secs e.tm x.tm

abbrev pub IsSpaced : List PunchReqEntry → Type 0
IsSpaced [] = Unit {0}
IsSpaced (e ∷ reqs) = Apart e (find? (same_route e.from_ip e.to_id) (take 30 reqs)) × IsSpaced reqs

not-dup-Apart :
    (e : PunchReqEntry) (o : Option PunchReqEntry) → recent_dup e.tm o ≡ false → Apart e o
not-dup-Apart e none h = tt
not-dup-Apart e (some x) h = ground arith

record_punch_req-IsSpaced :
    (now : ℕ) (from_ip to_ip to_id : String) (reqs : List PunchReqEntry)
    → IsSpaced reqs
    → IsSpaced (record_punch_req now from_ip to_ip to_id reqs)
unfolding record_punch_req
record_punch_req-IsSpaced now from_ip to_ip to_id reqs h =
    let last = find? (same_route from_ip to_id) (take 30 reqs) in
    let e : PunchReqEntry = record { tm = now; from_ip = from_ip; to_ip = to_ip; to_id = to_id } in
    elim (Bool-cases (recent_dup now last)) [
      | inl dup ↦ rw dup h
      | inr new ↦ rw new (not-dup-Apart e last new, h)
    ]

to_peer-IsSpaced :
    (net : AddrTools) (now : ℕ) (addr : SocketAddr) (ph : PunchHoleRequest) (ws : Bool)
    (o : Option Peer) (s : PunchServer)
    → IsSpaced s.punch_reqs
    → IsSpaced (to_peer net now addr ph ws o s).1.punch_reqs
to_peer-IsSpaced net now addr ph ws none s h = h
to_peer-IsSpaced net now addr ph ws (some p) s h =
    elim (Bool-cases (leb reg_timeout (now - p.last_reg_time))) [
      | inl late ↦ rw late h
      | inr fresh ↦ rw fresh (record_punch_req-IsSpaced now _ _ ph.id s.punch_reqs h)
    ]

-- However often an address asks for a peer, two of its entries in the record that stand within
-- thirty entries of each other, with none of its own between them, are a minute apart.
pub handle_punch_hole_request-IsSpaced :
    (net : AddrTools) (codec : InfoCodec) (now : ℕ) (addr : SocketAddr) (ph : PunchHoleRequest)
    (key : String) (ws : Bool) (s : PunchServer)
    → IsSpaced s.punch_reqs
    → IsSpaced (handle_punch_hole_request net codec now addr ph key ws s).1.punch_reqs
unfolding handle_punch_hole_request
handle_punch_hole_request-IsSpaced net codec now addr ph key ws s h =
    elim (Bool-cases (not (is_empty_text key) && not (string_eq ph.licence_key key))) [
      | inl bad ↦ rw bad h
      | inr good ↦
          let r = get_or_load codec now ph.id s.pm in
          rw good (to_peer-IsSpaced net now addr ph ws r.0 (record s { pm = r.1 }) h)
    ]
