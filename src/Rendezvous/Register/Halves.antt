-- ===== src/Rendezvous/Register/Halves.antt =====
-- A registration in its two halves, between which other tasks run: `register_pk_result` of
-- src/rendezvous_server/udp.rs gives up the lock of the peer after it compared the uuid, and takes it
-- again to count and to store.
pub mod Overtaken
pub mod Owner
use Prim.Native.String.{len}
use openuu_server.Prelude.{
  ℕ, String, Bool, true, false, not, Option, none, some, ltb, if◌then◌else◌, Bytes, is_empty,
  String_discrete, Bool-cases, inl, inr, refl, ap, sym, arith, ◌≡◌, ◌≢◌, ◌⊎◌, ◌∙◌,
}
use openuu_server.Net.{SocketAddr, AddrTools}
use openuu_server.Rendezvous.Blocker.{check_ip_blocker}
use openuu_server.Rendezvous.Peers.{
  Peer, PeerMap, InfoCodec, RegisterResult, ok, uuid_mismatch, too_frequent, get_in_memory, get_or,
  set_peer, update_pk,
}
use openuu_server.Rendezvous.Peers.Lookup.{get-set_peer, get_or_lem, update_pk-Stores}
use openuu_server.Rendezvous.Register.{
  RegisterPk, Registry, compare_peer, count_reg_pk, counted, compared, stored, register_pk_result,
}
use openuu_server.Rendezvous.Register.Ownership.{compare_some, still_there}

-- What the first half finds: the answer of a refusal, or (changed, ip_changed).
pub data Checked : Type 0 where
  refused : RegisterResult → Checked
  passed : Bool × Bool → Checked

module _ (net : AddrTools) (codec : InfoCodec) (now : ℕ) where
  abbrev pub checked : Option (Bool × Bool) → Checked
  checked none = refused uuid_mismatch
  checked (some change) = passed change

  unfoldable pub check_registration : RegisterPk → SocketAddr → Registry → Checked × Registry
  unfolding check_ip_blocker get_or compare_peer
  check_registration rk addr s =
      let ip = net.ip_text addr.ip in
      if ltb (len rk.id) 6
      then (refused uuid_mismatch, s)
      else (let (blocker, admitted) = check_ip_blocker now ip rk.id s.ip_blocker in
          let s' = record s { ip_blocker = blocker } in
          if not admitted
          then (refused too_frequent, s')
          else (let (peer, pm) = get_or codec now rk.id s.pm in
              (checked (compare_peer net rk ip peer), record s' { pm = pm })))

  -- The peer that the task holds is taken to be the one of the map, which keeps it: `none` does not
  -- occur. (Two tasks that load a peer from the database at once, of which the second replaces what the
  -- first put into the map, are left out: a load is one step.)
  abbrev pub finished :
      Bytes
      → RegisterPk
      → SocketAddr
      → Bool × Bool
      → Option Peer
      → Registry
      → RegisterResult × Registry
  finished new_guid rk addr change none s = (ok, s)
  finished new_guid rk addr change (some peer) s =
      counted net codec now new_guid rk addr (net.ip_text addr.ip) change
        (count_reg_pk net now peer.reg_pk) peer s

  unfoldable pub finish_registration :
      Bytes → RegisterPk → SocketAddr → Bool × Bool → Registry → RegisterResult × Registry
  unfolding count_reg_pk update_pk
  finish_registration new_guid rk addr change s =
      finished new_guid rk addr change (get_in_memory rk.id s.pm) s

  abbrev pub both : Bytes → RegisterPk → SocketAddr → Checked × Registry → RegisterResult × Registry
  both new_guid rk addr (refused r, s) = (r, s)
  both new_guid rk addr (passed change, s) = finish_registration new_guid rk addr change s

  module _ (new_guid : Bytes) (rk : RegisterPk) (addr : SocketAddr) where
    compared_halves :
        (o : Option (Bool × Bool)) (peer : Peer) (s : Registry)
        → get_in_memory rk.id s.pm ≡ some peer
        → compared net codec now new_guid rk addr (net.ip_text addr.ip) o peer s
          ≡ both new_guid rk addr (checked o, s)
    unfolding finish_registration
    compared_halves none peer s h = refl
    compared_halves (some change) peer s h = rw h refl

    -- A registration that no other task comes between is the one half after the other.
    pub check_registration-finish_registration :
        (s : Registry)
        → register_pk_result net codec now new_guid rk addr s
          ≡ both new_guid rk addr (check_registration rk addr s)
    unfolding register_pk_result check_registration
    check_registration-finish_registration s = elim (Bool-cases (ltb (len rk.id) 6)) [
      | inl short ↦ rw short refl
      | inr long ↦
          let b = check_ip_blocker now (net.ip_text addr.ip) rk.id s.ip_blocker in
          rw long (elim (Bool-cases b.1) [
            | inr turned_away ↦ rw turned_away refl
            | inl admitted ↦
                let (found, _, _) = get_or_lem codec now rk.id s.pm rk.id in
                let r = get_or codec now rk.id s.pm in
                rw admitted (
                  compared_halves (compare_peer net rk (net.ip_text addr.ip) r.0) r.0
                    (record s { ip_blocker = b.0; pm = r.1 }) found)
          ])
    ]
