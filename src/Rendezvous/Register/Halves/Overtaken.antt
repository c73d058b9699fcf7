-- ===== src/Rendezvous/Register/Halves/Overtaken.antt =====
-- Two registrations of one peer under way at once (`register_pk_result` of
-- src/rendezvous_server/udp.rs).
use Prim.Native.String.{len}
use openuu_server.Prelude.{
  ℕ, Bool-cases, inl, inr, ltb, Bool, true, false, Option, none, some, Bytes, is_empty, ap, sym,
  arith, ◌≡◌, ◌∙◌,
}
use openuu_server.Net.{SocketAddr, AddrTools}
use openuu_server.Rendezvous.Blocker.{check_ip_blocker}
use openuu_server.Rendezvous.Peers.{Peer, InfoCodec, RegisterResult, ok, get_in_memory, set_peer}
use openuu_server.Rendezvous.Peers.Lookup.{get_or_lem, update_pk-Stores}
use openuu_server.Rendezvous.Register.{RegisterPk, Registry, compare_peer, count_reg_pk, counted}
use openuu_server.Rendezvous.Register.Halves.{
  passed, checked, check_registration, finished, finish_registration,
}

module _ (net : AddrTools) (codec : InfoCodec) (now : ℕ) (rk : RegisterPk) (addr : SocketAddr) where
  passed_true :
      (p : Peer) (c : Bool × Bool)
      → is_empty p.uuid ≡ true
      → checked net codec now (compare_peer net rk (net.ip_text addr.ip) p) ≡ passed c
      → c.0 ≡ true
  unfolding compare_peer
  passed_true p c empty h = ground (arith, h, empty)

  check_first :
      (s : Registry) (p : Peer) (c : Bool × Bool)
      → get_in_memory rk.id s.pm ≡ some p
      → is_empty p.uuid ≡ true
      → (check_registration net codec now rk addr s).0 ≡ passed c
      → c.0 ≡ true
  unfolding check_registration
  check_first s p c there empty h = elim (Bool-cases (ltb (len rk.id) 6)) [
    | inl short ↦ absurd (ground (arith, h, short))
    | inr long ↦
        let b = check_ip_blocker now (net.ip_text addr.ip) rk.id s.ip_blocker in
        elim (Bool-cases b.1) [
          | inr turned_away ↦ absurd (ground (arith, h, long, turned_away))
          | inl admitted ↦
              let (_, _, found) = get_or_lem codec now rk.id s.pm rk.id in
              passed_true p c empty (
                ap (λ q. checked net codec now (compare_peer net rk (net.ip_text addr.ip) q))
                  (sym (found p there).0)
                ∙ rw (long, admitted) at h)
        ]
  ]

  module _ (later : ℕ) (new_guid : Bytes) where
    counted_takes :
        (change : Bool × Bool) (o : Option (ℕ × ℕ)) (peer : Peer) (s s' : Registry)
        → change.0 ≡ true
        → counted net codec later new_guid rk addr (net.ip_text addr.ip) change o peer s ≡ (ok, s')
        → (q : Peer) × (get_in_memory rk.id s'.pm ≡ some q) × (q.uuid ≡ rk.uuid) × (q.pk ≡ rk.pk)
    counted_takes change none peer s s' first h = absurd (cc)
    counted_takes (true, ip_changed) (some r) peer s s' first h =
        let peer' = record peer { reg_pk = r } in
        let (q, w, found, _) =
          update_pk-Stores codec later new_guid rk.id peer' addr rk.uuid rk.pk (net.ip_text addr.ip)
            (set_peer rk.id peer' s.pm) rk.id in
        (
          q,
          ap (λ (x : RegisterResult × Registry). get_in_memory rk.id x.1.pm) (sym h) ∙ found,
          w.0,
          w.1,
        )
    counted_takes (false, ip_changed) (some r) peer s s' first h = absurd (cc)

    -- The uuid is compared in one half of a registration, and the key is stored in the other: a
    -- registration that passes while the peer has no uuid, and is answered OK in the end, gives the
    -- peer its own uuid and key, even if the peer got another uuid and key in between, which
    -- `register_pk_result` is there to refuse.
    pub finish_registration_overtakes :
        (s s' s'' : Registry) (p between : Peer) (change : Bool × Bool)
        → get_in_memory rk.id s.pm ≡ some p
        → is_empty p.uuid ≡ true
        → (check_registration net codec now rk addr s).0 ≡ passed change
        → get_in_memory rk.id s'.pm ≡ some between
        → finish_registration net codec later new_guid rk addr change s' ≡ (ok, s'')
        → (q : Peer) × (get_in_memory rk.id s''.pm ≡ some q) × (q.uuid ≡ rk.uuid) × (q.pk ≡ rk.pk)
    unfolding finish_registration
    finish_registration_overtakes s s' s'' p between change there empty free held h =
        counted_takes change (count_reg_pk net later between.reg_pk) between s' s''
          (check_first s p change there empty free)
          (ap (λ o. finished net codec later new_guid rk addr change o s') (sym held) ∙ h)
