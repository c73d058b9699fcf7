-- ===== src/Start/KeyPair.antt =====
-- The check of a key pair by openuu-utils: `validate_keypair` of src/utils.rs.
use openuu_server.Prelude.{
  ℕ, String, Option, none, some, true, [], ◌∷◌, ◌==◌, if◌then◌else◌, Bytes, length, Bytes-discrete,
  eqb, ◌≡◌, refl, ap, sym, ◌∙◌, arith,
}
use openuu_server.Keys.{KeyTools, KeyFiles, keys, pair, create, by_file, gen_sk}
use openuu_server.Keys.Agreement.{Laws, choose-pair}

-- sign::sign, and sign::verify with the text that was signed
pub record Signing : Type 0 where
  pub sign : Bytes → Bytes → Bytes
  pub verify : Bytes → Bytes → Option Bytes

pub data Validation : Type 0 where
  valid : Validation
  bad_secret_text bad_secret_length bad_public_text bad_public_length bad_pair : Validation

-- b"This is meh."
abbrev pub test_bytes : Bytes
test_bytes = b'T' ∷ b'h' ∷ b'i' ∷ b's' ∷ 32 ∷ b'i' ∷ b's' ∷ 32 ∷ b'm' ∷ b'e' ∷ b'h' ∷ b'.' ∷ []

module _ (k : KeyTools) (s : Signing) where
  abbrev pub verified : Option Bytes → Validation
  verified none = bad_pair
  verified (some text) = if eqb Bytes-discrete test_bytes text then valid else bad_pair

  abbrev with_public : Bytes → Option Bytes → Validation
  with_public sk none = bad_public_text
  with_public sk (some pk) =
      if length pk == 32 then verified (s.verify (s.sign test_bytes sk) pk) else bad_public_length

  abbrev with_secret : String → Option Bytes → Validation
  with_secret pk none = bad_secret_text
  with_secret pk (some sk) =
      if length sk == 64 then with_public sk (k.decode pk) else bad_secret_length

  unfoldable pub validate_keypair : String → String → Validation
  unfolding Bytes-discrete
  validate_keypair pk sk = with_secret pk (k.decode sk)

  -- What sodiumoxide promises of the pairs it generates.
  pub record SigningLaws : Type 0 where
    pub public_length : (n : ℕ) → length (k.gen_keypair n).0 ≡ 32
    pub verify_sign :
        (n : ℕ) (m : Bytes) → s.verify (s.sign m (k.gen_keypair n).1) (k.gen_keypair n).0 ≡ some m

  module _ (laws : Laws k) (signing : SigningLaws) where
    generated-valid :
        (n : ℕ)
        → validate_keypair (k.encode (k.gen_keypair n).0) (k.encode (k.gen_keypair n).1) ≡ valid
    unfolding validate_keypair
    generated-valid n =
        rw
          (
            laws.decode_encode (k.gen_keypair n).1,
            laws.secret_length n,
            laws.decode_encode (k.gen_keypair n).0,
            signing.public_length n,
            signing.verify_sign n test_bytes,
          )
          refl

    created_files :
        (n : ℕ) (f f' : KeyFiles) (pk : String) (sk : Bytes)
        → f.can_write_pub ≡ true
        → create k (pair k (k.gen_keypair n)) f ≡ (keys pk (some sk), f')
        → (f'.pub_file ≡ some (some (k.encode (k.gen_keypair n).0)))
          × (f'.sk_file ≡ some (some (k.encode (k.gen_keypair n).1)))
    created_files n f f' pk sk writes h = (ground (arith, h, writes), ground (arith, h, writes))

    -- When gen_sk starts without a key file, gives a key pair, and the write of id_ed25519.pub, whose
    -- failure it ignores, does not fail, then the texts that it left in id_ed25519.pub and id_ed25519
    -- are a pair that `openuu-utils validatekeypair` finds valid.
    pub gen_sk-validate_keypair :
        (f f' : KeyFiles) (pk : String) (sk : Bytes)
        → f.sk_file ≡ none
        → f.can_write_pub ≡ true
        → gen_sk k f ≡ (keys pk (some sk), f')
        → (public : String) × (secret : String) × (f'.pub_file ≡ some (some public))
          × (f'.sk_file ≡ some (some secret))
          × (validate_keypair public secret ≡ valid)
    unfolding gen_sk
    gen_sk-validate_keypair f f' pk sk no_file writes h =
        let (n, is) = choose-pair k laws 300 0 in
        let h' : create k (pair k (k.gen_keypair n)) f ≡ (keys pk (some sk), f') =
          ap (λ p. create k p f) (sym is) ∙ ap (λ o. by_file k o f) (sym no_file) ∙ h in
        let (public_there, secret_there) = created_files n f f' pk sk writes h' in
        (
          k.encode (k.gen_keypair n).0,
          k.encode (k.gen_keypair n).1,
          public_there,
          secret_there,
          generated-valid n,
        )
