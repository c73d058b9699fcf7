-- ===== src/Rendezvous/Tcp/Secure.antt =====
-- The server's side of the secure_tcp handshake (src/rendezvous_server/secure.rs). sodiumoxide and
-- `Encrypt` of hbb_common are arguments.
use openuu_server.Prelude.{Option, none, some, List, [], ◌∷◌, Bytes}

-- The keys and boxes; `zero_nonce` is `Nonce([0; NONCEBYTES])`.
pub record Sodium : Type 0 where
  -- box_::PublicKey::from_slice and secretbox::Key::from_slice
  pub public_key : Bytes → Option Bytes
  pub secret_key : Bytes → Option Bytes
  pub zero_nonce : Bytes
  -- box_::open: the sealed box, the nonce, their public key and our secret key
  pub open_box : Bytes → Bytes → Bytes → Bytes → Option Bytes
  -- sign::sign of a message by the key
  pub sign : Bytes → Bytes → Bytes

module _ (sodium : Sodium) where
  -- KeyOffer::new, on the key pair of box_::gen_keypair: the secret key to keep, the message's key
  unfoldable pub offer : Bytes → Bytes × Bytes → Bytes × Bytes
  offer sk (pk, sk_b) = (sk_b, sodium.sign pk sk)

  abbrev to_key : Option Bytes → Option Bytes
  to_key none = none
  to_key (some key) = sodium.secret_key key

  abbrev opened : Bytes → Bytes → Option Bytes → Option Bytes
  opened sk_b sealed none = none
  opened sk_b sealed (some their_pk) =
      to_key (sodium.open_box sealed sodium.zero_nonce their_pk sk_b)

  -- KeyOffer::accept, on the keys of the client's KeyExchange
  unfoldable pub accept : Bytes → List Bytes → Option Bytes
  accept sk_b [] = none
  accept sk_b (pk ∷ []) = none
  accept sk_b (pk ∷ sealed ∷ []) = opened sk_b sealed (sodium.public_key pk)
  accept sk_b (pk ∷ sealed ∷ other ∷ keys) = none

module _ {ℓ} {Enc : Type ℓ} (new : Bytes → Enc) where
  unfoldable pub encrypt_pair : Bytes → Enc × Enc
  encrypt_pair key = (new key, new key)
