-- ===== src/Rendezvous/Online.antt =====
-- The online query, `handle_online_request` of src/rendezvous_server/punch.rs: one bit for each
-- peer that is asked for.
pub mod ByteBits
pub mod Bits
use Prim.Native.Nat.{bit_or}
use openuu_server.Prelude.{
  ℕ, zero, suc, ◌+◌, ◌-◌, ◌*◌, ◌/◌, ◌%◌, ◌^◌, String, Bool, true, false, Option, none, some, List,
  [], ◌∷◌, ltb, if◌then◌else◌, length, Bytes,
}
use openuu_server.Rendezvous.Peers.{Peer, PeerMap, get_in_memory}
use openuu_server.Rendezvous.Punch.{reg_timeout}

-- BytesMut::zeroed
unfoldable pub zeroed : ℕ → Bytes
zeroed zero = []
zeroed (suc n) = 0 ∷ zeroed n

-- `states[i] |= m`; i is in range
unfoldable pub or_at : ℕ → ℕ → Bytes → Bytes
or_at i m [] = []
or_at zero m (b ∷ bs) = bit_or b m ∷ bs
or_at (suc i) m (b ∷ bs) = b ∷ or_at i m bs

abbrev pub is_fresh : ℕ → Option Peer → Bool
is_fresh now none = false
is_fresh now (some p) = ltb (now - p.last_reg_time) reg_timeout

abbrev pub is_online : ℕ → PeerMap → String → Bool
is_online now pm id = is_fresh now (get_in_memory id pm)

-- the bit of the peer with index i, from the left
abbrev pub set_online : ℕ → Bytes → Bytes
set_online i states = or_at (i / 8) (2 ^ (7 - i % 8)) states

-- the loop over `peers.iter().enumerate()`
unfoldable pub mark : ℕ → PeerMap → ℕ → List String → Bytes → Bytes
unfolding or_at
mark now pm i [] states = states
mark now pm i (id ∷ ids) states =
    mark now pm (suc i) ids (if is_online now pm id then set_online i states else states)

-- the `states` of the answer
unfoldable pub handle_online_request : ℕ → PeerMap → List String → Bytes
unfolding mark zeroed
handle_online_request now pm peers = mark now pm 0 peers (zeroed ((length peers + 7) / 8))
