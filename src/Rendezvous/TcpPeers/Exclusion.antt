-- ===== src/Rendezvous/TcpPeers/Exclusion.antt =====
-- Who holds a connection's sink while sends and registrations interleave
-- (src/rendezvous_server/tcp_register.rs).
use openuu_server.Prelude.{
  ℕ, ◌+◌, ◌≤◌, Bool, true, false, not, ◌&&◌, Option, none, some, List, [], ◌∷◌, ◌==◌, if◌then◌else◌,
  any, keep, count, ◌≡◌, refl, arith, eqb,
}
use openuu_server.Prelude.Map.{get, insert, remove}
use openuu_server.Net.{SocketAddr, SocketAddr-discrete}
use openuu_server.Rendezvous.TcpPeers.{
  Sink, stream, closed, TcpPeers, entry, register, forget, begin_send, finish_send, is_send, Step,
  registers, forgets, begins, finishes, Reach, here, onward, begin_at,
}

abbrev pub is_stream : ℕ → Sink → Bool
is_stream s (stream s') = s' == s
is_stream s closed = false

abbrev one : Bool → ℕ
one b = if b then 1 else 0

-- how many entries of the map hold the sink
unfoldable pub held : ℕ → List (SocketAddr × Sink) → ℕ
unfolding count
held s peers = count (λ e. is_stream s e.1) peers

-- how many sends hold it
unfoldable pub in_flight : ℕ → List (SocketAddr × ℕ) → ℕ
unfolding count
in_flight s sending = count (is_send s) sending

-- A sink is in one place at most, and no sink has a number that is still to be given.
abbrev pub IsExclusive : TcpPeers → Type 0
IsExclusive t =
    (s : ℕ)
    → (held s t.peers + in_flight s t.sending ≤ 1)
      × (t.next ≤ s → held s t.peers + in_flight s t.sending ≡ 0)

held-remove-le :
    (s : ℕ) (k : SocketAddr) (peers : List (SocketAddr × Sink))
    → held s (remove SocketAddr-discrete k peers) ≤ held s peers
unfolding held count remove
held-remove-le s k [] = omega arith
held-remove-le s k ((j, v) ∷ peers) = ground (arith, held-remove-le s k peers)

held-insert-le :
    (s : ℕ) (k : SocketAddr) (v : Sink) (peers : List (SocketAddr × Sink))
    → held s (insert SocketAddr-discrete k v peers) ≤ one (is_stream s v) + held s peers
unfolding held count insert
held-insert-le s k v peers = ground (arith, held-remove-le s k peers)

held-remove_present :
    (s : ℕ) (k : SocketAddr) (v : Sink) (peers : List (SocketAddr × Sink))
    → get SocketAddr-discrete k peers ≡ some v
    → one (is_stream s v) + held s (remove SocketAddr-discrete k peers) ≤ held s peers
unfolding held count remove get
held-remove_present s k v [] h = cc
held-remove_present s k v ((j, w) ∷ peers) h =
    ground (arith, held-remove_present s k v peers, held-remove-le s k peers)

in_flight-keep :
    (s s' : ℕ) (sending : List (SocketAddr × ℕ))
    → in_flight s (keep (λ e. not (is_send s' e)) sending)
      ≡ (if s == s' then 0 else in_flight s sending)
unfolding in_flight count keep
in_flight-keep s s' [] = ground arith
in_flight-keep s s' (e ∷ sending) = ground (arith, in_flight-keep s s' sending)

in_flight-any :
    (k : SocketAddr) (s : ℕ) (sending : List (SocketAddr × ℕ))
    → any (λ e. eqb SocketAddr-discrete e.0 k && is_send s e) sending ≡ true
    → 1 ≤ in_flight s sending
unfolding in_flight count any
in_flight-any k s [] h = cc
in_flight-any k s (e ∷ sending) h = ground (arith, in_flight-any k s sending)

register-IsExclusive : (k : SocketAddr) (t : TcpPeers) → IsExclusive t → IsExclusive (register k t)
unfolding register
register-IsExclusive k t w s =
    let (le, fresh) = w s in
    let added = held-insert-le s k (stream t.next) t.peers in
    (ground (arith, le, fresh, added), λ h. ground (arith, fresh, added, h))

forget-IsExclusive : (k : SocketAddr) (t : TcpPeers) → IsExclusive t → IsExclusive (forget k t)
unfolding forget
forget-IsExclusive k t w s =
    let (le, fresh) = w s in
    let fewer = held-remove-le s k t.peers in
    (omega (arith, le, fewer), λ h. omega (arith, fresh h, fewer))

begin_at-IsExclusive :
    (k : SocketAddr) (o : Option Sink) (t : TcpPeers)
    → entry k t ≡ o
    → IsExclusive t
    → IsExclusive (begin_at k o t).2
unfolding held in_flight count insert
begin_at-IsExclusive k none t e w s = w s
begin_at-IsExclusive k (some closed) t e w s = w s
begin_at-IsExclusive k (some (stream s')) t e w s =
    let (le, fresh) = w s in
    let fewer = held-remove_present s k (stream s') t.peers e in
    (ground (arith, le, fewer), λ h. ground (arith, fresh h, fewer))

begin_send-IsExclusive :
    (k : SocketAddr) (t : TcpPeers) → IsExclusive t → IsExclusive (begin_send k t).2
unfolding begin_send
begin_send-IsExclusive k t = begin_at-IsExclusive k (entry k t) t refl

finish_send-IsExclusive :
    (k : SocketAddr) (s' : ℕ) (t : TcpPeers)
    → any (λ e. eqb SocketAddr-discrete e.0 k && is_send s' e) t.sending ≡ true
    → IsExclusive t
    → IsExclusive (finish_send k s' t)
unfolding finish_send
finish_send-IsExclusive k s' t h w s =
    let (le, fresh) = w s in
    let busy = in_flight-any k s' t.sending h in
    let fewer = in_flight-keep s s' t.sending in
    let added = held-insert-le s k (stream s') t.peers in
    elim (entry k t) [
      | none ↦ (ground (arith, le, fewer), λ n. ground (arith, fresh n, fewer))
      | some (stream _) ↦ (ground (arith, le, fewer), λ n. ground (arith, fresh n, fewer))
      | some closed ↦
          (ground (arith, le, fewer, busy, added), λ n. ground (arith, fresh n, fewer, busy, added))
    ]

Step-IsExclusive : {t u : TcpPeers} → Step t u → IsExclusive t → IsExclusive u
Step-IsExclusive {t} (registers k) w = register-IsExclusive k t w
Step-IsExclusive {t} (forgets k) w = forget-IsExclusive k t w
Step-IsExclusive {t} (begins k) w = begin_send-IsExclusive k t w
Step-IsExclusive {t} (finishes k s h) w = finish_send-IsExclusive k s t h w

-- In any interleaving of registrations, closed connections and the two steps of sends, a sink is
-- never held by two sends, by two entries of the map, or by a send and an entry.
Reach-IsExclusive : {t u : TcpPeers} → IsExclusive t → Reach t u → IsExclusive u
Reach-IsExclusive w here = w
Reach-IsExclusive w (onward r step) = Step-IsExclusive step (Reach-IsExclusive w r)
