-- ===== src/Rendezvous/Online/ByteBits.antt =====
-- The bits of a vector of bytes, and what `states[i] |= m` of src/rendezvous_server/punch.rs does.
use Prim.Native.Nat.{bit_or}
use openuu_server.Prelude.{
  ℕ, zero, suc, ◌-◌, ◌/◌, ◌%◌, ◌^◌, ◌<◌, Bool, true, false, ◌&&◌, [], ◌∷◌, ltb, ◌==◌, if◌then◌else◌,
  length, Bytes, ◌≡◌, refl, arith, ap, Bool-cases, inl, inr, sym,
}
use openuu_server.Prelude.Table.{All}
use openuu_server.Rendezvous.Online.{or_at}

-- The bit with place value 2 ^ k of a byte.
unfoldable pub has_bit : ℕ → ℕ → Bool
has_bit b k = (b / 2 ^ k) % 2 == 1

abbrev pub byte_at : ℕ → Bytes → ℕ
byte_at i [] = 0
byte_at zero (b ∷ bs) = b
byte_at (suc i) (b ∷ bs) = byte_at i bs

-- The bit of index i, from the left.
unfoldable pub bit_at : Bytes → ℕ → Bool
bit_at states i = has_bit (byte_at (i / 8) states) (7 - i % 8)

-- whether a test holds of the first n numbers
every : (ℕ → Bool) → ℕ → Bool
every test zero = true
every test (suc n) = let earlier = every test n in earlier && test n

every_at : (test : ℕ → Bool) (n i : ℕ) → every test n ≡ true → i < n → test i ≡ true
unfolding every
every_at test zero i e h = absurd (omega arith)
every_at test (suc n) i e h = elim (Bool-cases (i == n)) [
  | inl last ↦ ground (arith, e, last)
  | inr before ↦ every_at test n i (ground (arith, e)) (ground (arith, before, h))
]

same_bool : Bool → Bool → Bool
same_bool true b = b
same_bool false true = false
same_bool false false = true

same_bool_eq : (a b : Bool) → same_bool a b ≡ true → a ≡ b
unfolding same_bool
same_bool_eq true b h = sym h
same_bool_eq false true h = cc
same_bool_eq false false h = refl

or_check : ℕ → ℕ → ℕ → Bool
unfolding same_bool has_bit
or_check b k j =
    ltb (bit_or b (2 ^ k)) 256
    && same_bool (has_bit (bit_or b (2 ^ k)) j) (if k == j then true else has_bit b j)

checked_bits : ℕ → ℕ → Bool
unfolding every or_check
checked_bits b k = every (or_check b k) 8

checked_byte : ℕ → Bool
unfolding every checked_bits
checked_byte b = every (checked_bits b) 8

every_byte : every checked_byte 256 ≡ true
unfolding every checked_byte
every_byte = refl

every_bit : (b k j : ℕ) → b < 256 → k < 8 → j < 8 → or_check b k j ≡ true
unfolding checked_bits checked_byte
every_bit b k j hb hk hj =
    every_at (or_check b k) 8 j
      (every_at (checked_bits b) 8 k (every_at checked_byte 256 b every_byte hb) hk) hj

-- Setting a bit of a byte sets that bit and no other.
or_check_sound :
    (b k j : ℕ)
    → or_check b k j ≡ true
    → (bit_or b (2 ^ k) < 256)
      × (has_bit (bit_or b (2 ^ k)) j ≡ (if k == j then true else has_bit b j))
unfolding or_check
or_check_sound b k j t = (ground (arith, t), same_bool_eq _ _ (ground (arith, t)))

pub has_bit-or :
    (b k j : ℕ)
    → b < 256
    → k < 8
    → j < 8
    → (bit_or b (2 ^ k) < 256)
      × (has_bit (bit_or b (2 ^ k)) j ≡ (if k == j then true else has_bit b j))
has_bit-or b k j hb hk hj = or_check_sound b k j (every_bit b k j hb hk hj)

abbrev pub IsBytes : Bytes → Type 0
IsBytes = All (λ (b : ℕ). b < 256)

pub byte_at-lt : (i : ℕ) (bs : Bytes) → IsBytes bs → byte_at i bs < 256
byte_at-lt i [] h = omega arith
byte_at-lt zero (b ∷ bs) h = h.0
byte_at-lt (suc i) (b ∷ bs) h = byte_at-lt i bs h.1

pub byte_at-or_at :
    (i j m : ℕ) (bs : Bytes)
    → i < length bs
    → byte_at j (or_at i m bs) ≡ (if i == j then bit_or (byte_at j bs) m else byte_at j bs)
unfolding or_at
byte_at-or_at i j m [] h = absurd (omega arith)
byte_at-or_at zero zero m (b ∷ bs) h = refl
byte_at-or_at zero (suc j) m (b ∷ bs) h = ground arith
byte_at-or_at (suc i) zero m (b ∷ bs) h = ground arith
byte_at-or_at (suc i) (suc j) m (b ∷ bs) h = ground (arith, byte_at-or_at i j m bs)

pub length-or_at : (i m : ℕ) (bs : Bytes) → length (or_at i m bs) ≡ length bs
unfolding or_at
length-or_at i m [] = refl
length-or_at zero m (b ∷ bs) = refl
length-or_at (suc i) m (b ∷ bs) = ap suc (length-or_at i m bs)

pub or_at-IsBytes : (i k : ℕ) (bs : Bytes) → k < 8 → IsBytes bs → IsBytes (or_at i (2 ^ k) bs)
unfolding or_at
or_at-IsBytes i k [] hk h = tt
or_at-IsBytes zero k (b ∷ bs) hk h = ((has_bit-or b k k h.0 hk hk).0, h.1)
or_at-IsBytes (suc i) k (b ∷ bs) hk h = (h.0, or_at-IsBytes i k bs hk h.1)
