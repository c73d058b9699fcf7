-- ===== src/Rendezvous/Online/Bits.antt =====
-- What the bits of an online answer say (`handle_online_request` of
-- src/rendezvous_server/punch.rs).
use Prim.Native.Nat.{bit_or}
use openuu_server.Prelude.{
  ℕ, zero, suc, ◌+◌, ◌-◌, ◌*◌, ◌/◌, ◌%◌, ◌^◌, ◌<◌, ◌≤◌, String, Bool, true, false, ◌&&◌, ◌||◌, List,
  [], ◌∷◌, ltb, ◌==◌, if◌then◌else◌, length, Bytes, ◌≡◌, refl, arith, ap, ◌∙◌, Bool-cases, inl, inr,
}
use openuu_server.Rendezvous.Peers.{PeerMap}
use openuu_server.Rendezvous.Online.{zeroed, is_online, set_online, mark, handle_online_request}
use openuu_server.Rendezvous.Online.ByteBits.{
  has_bit-or, IsBytes, byte_at-lt, byte_at-or_at, length-or_at, or_at-IsBytes, has_bit, byte_at,
  bit_at,
}

-- Marking a peer sets its bit and no other.
bit_at-set_online :
    (i j : ℕ) (states : Bytes)
    → i / 8 < length states
    → IsBytes states
    → bit_at (set_online i states) j ≡ (if i == j then true else bit_at states j)
unfolding bit_at
bit_at-set_online i j states h all =
    let at = byte_at-or_at (i / 8) (j / 8) (2 ^ (7 - i % 8)) states h in
    let bits =
      has_bit-or (byte_at (j / 8) states) (7 - i % 8) (7 - j % 8) (byte_at-lt (j / 8) states all)
        (omega arith) (omega arith) in
    elim (Bool-cases (i / 8 == j / 8)) [
      | inl same ↦
          let hit : byte_at (j / 8) (set_online i states)
              ≡ bit_or (byte_at (i / 8) states) (2 ^ (7 - i % 8)) =
            ground (arith, at, same) in
          ground (arith, hit, same, bits)
      | inr apart ↦
          let miss : byte_at (j / 8) (set_online i states) ≡ byte_at (j / 8) states =
            ground (arith, at, apart) in
          ground (arith, miss, apart)
    ]

-- Whether the peer with an index is online; beyond the last, no.
abbrev pub online_at : ℕ → PeerMap → List String → ℕ → Bool
online_at now pm [] n = false
online_at now pm (id ∷ ids) zero = is_online now pm id
online_at now pm (id ∷ ids) (suc n) = online_at now pm ids n

-- The loop, from the peer with index i on.
abbrev marked : ℕ → PeerMap → ℕ → List String → Bytes → ℕ → Bool
marked now pm i ids states j =
    if ltb j i then bit_at states j else (online_at now pm ids (j - i) || bit_at states j)

marked_step :
    (now : ℕ) (pm : PeerMap) (i : ℕ) (id : String) (ids : List String) (states states' : Bytes)
    (j : ℕ)
    → bit_at states' j ≡ (if is_online now pm id && i == j then true else bit_at states j)
    → marked now pm (suc i) ids states' j ≡ marked now pm i (id ∷ ids) states j
marked_step now pm i id ids states states' j h = elim (Bool-cases (ltb i j)) [
  | inl later ↦ let e : j - i ≡ suc (j - suc i) = ground arith in rw e (ground (arith, h, later))
  | inr upto ↦ elim (Bool-cases (i == j)) [
    | inl here ↦ let e : j - i ≡ zero = ground arith in rw e (ground (arith, h, here))
    | inr before ↦ ground (arith, h, before, upto)
  ]
]

bit_at-mark :
    (now : ℕ) (pm : PeerMap) (i : ℕ) (ids : List String) (states : Bytes) (j : ℕ)
    → i + length ids ≤ length states * 8
    → IsBytes states
    → bit_at (mark now pm i ids states) j ≡ marked now pm i ids states j
unfolding mark
bit_at-mark now pm i [] states j fits all = ground arith
bit_at-mark now pm i (id ∷ ids) states j fits all = elim (Bool-cases (is_online now pm id)) [
  | inl on ↦
      let states' = set_online i states in
      rw on (
        bit_at-mark now pm (suc i) ids states' j
          (omega (arith, length-or_at (i / 8) (2 ^ (7 - i % 8)) states))
          (or_at-IsBytes (i / 8) (7 - i % 8) states (omega arith) all)
        ∙ marked_step now pm i id ids states states' j
            (bit_at-set_online i j states (omega arith) all ∙ ground (arith, on)))
  | inr off ↦ rw off (
      bit_at-mark now pm (suc i) ids states j (omega arith) all
      ∙ marked_step now pm i id ids states states j (ground (arith, off)))
]

zeroed-IsBytes : (n : ℕ) → IsBytes (zeroed n) × (length (zeroed n) ≡ n)
unfolding zeroed
zeroed-IsBytes zero = (tt, refl)
zeroed-IsBytes (suc n) = let (b, l) = zeroed-IsBytes n in ((omega arith, b), ap suc l)

byte_at-zeroed : (i n : ℕ) → byte_at i (zeroed n) ≡ 0
unfolding zeroed
byte_at-zeroed i zero = refl
byte_at-zeroed zero (suc n) = refl
byte_at-zeroed (suc i) (suc n) = byte_at-zeroed i n

zero-has_bit : (k : ℕ) → has_bit 0 k ≡ false
unfolding has_bit
zero-has_bit k = ground arith

bit_at-zeroed : (n j : ℕ) → bit_at (zeroed n) j ≡ false
unfolding bit_at
bit_at-zeroed n j = rw byte_at-zeroed (zero-has_bit (7 - j % 8))

length-mark :
    (now : ℕ) (pm : PeerMap) (i : ℕ) (ids : List String) (states : Bytes)
    → length (mark now pm i ids states) ≡ length states
unfolding mark
length-mark now pm i [] states = refl
length-mark now pm i (id ∷ ids) states = ground (
  arith,
  length-mark now pm (suc i) ids (set_online i states),
  length-mark now pm (suc i) ids states,
  length-or_at (i / 8) (2 ^ (7 - i % 8)) states,
)

-- The answer has one byte for eight peers, rounded up, and its bits from the left say for each peer
-- that was asked for whether it is in memory and registered less than thirty seconds ago; the bits
-- beyond the last peer are zero.
pub handle_online_request_bits :
    (now : ℕ) (pm : PeerMap) (peers : List String) (j : ℕ)
    → (bit_at (handle_online_request now pm peers) j ≡ online_at now pm peers j)
      × (length (handle_online_request now pm peers) ≡ (length peers + 7) / 8)
unfolding handle_online_request
handle_online_request_bits now pm peers j =
    let n = (length peers + 7) / 8 in
    let (b, l) = zeroed-IsBytes n in
    let z = bit_at-zeroed n j in
    let e : j - 0 ≡ j = omega arith in
    (
      bit_at-mark now pm 0 peers (zeroed n) j (omega (arith, l)) b ∙ rw (e, z) (ground arith),
      length-mark now pm 0 peers (zeroed n) ∙ l,
    )
