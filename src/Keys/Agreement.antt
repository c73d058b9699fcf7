-- ===== src/Keys/Agreement.antt =====
-- The key over restarts, and of hbbs and hbbr beside each other (src/common/keys.rs,
-- src/rendezvous_server/tcp.rs and src/relay_server/mod.rs).
use openuu_server.Prelude.{
  ℕ, zero, suc, String, true, false, not, ◌&&◌, if◌then◌else◌, Option, none, some, ◌≡◌, refl, ap,
  sym, ◌∙◌, subst, arith, inl, inr, Bytes, length, drop, String_discrete, Bool-cases,
}
use openuu_server.Prelude.Text.{is_empty_text, trim, contains_char}
use openuu_server.Keys.{
  KeyTools, KeyFiles, File, Generated, exited, keys, pair, choose, create, read_sk, by_file, gen_sk,
  own_key, is_default, with_generated, server_key, get_server_sk, relay_key, relay_get_server_sk,
}

-- What base64 and the key pairs of sodiumoxide promise: texts without spaces that decode to what they
-- encode, and secret keys of 64 bytes that end with the public key.
pub record Laws (k : KeyTools) : Type 0 where
  pub decode_encode : (b : Bytes) → k.decode (k.encode b) ≡ some b
  pub trim_encode : (b : Bytes) → trim (k.encode b) ≡ k.encode b
  pub secret_length : (n : ℕ) → length (k.gen_keypair n).1 ≡ 64
  pub public_half : (n : ℕ) → drop 32 (k.gen_keypair n).1 ≡ (k.gen_keypair n).0

module _ (k : KeyTools) (laws : Laws k) where
  pub choose-pair : (left i : ℕ) → (n : ℕ) × (choose k left i ≡ pair k (k.gen_keypair n))
  choose-pair zero i = (i, refl)
  choose-pair (suc left) i =
      let pk = k.encode (k.gen_keypair i).0 in
      let (n, e) = choose-pair left (suc i) in
      elim (Bool-cases (not (contains_char 47 pk) && not (contains_char 58 pk))) [
        | inl fine ↦ (i, rw fine refl)
        | inr other ↦ (n, rw other e)
      ]

  read_back :
      (n : ℕ)
      → read_sk k (k.decode (trim (k.encode (k.gen_keypair n).1)))
        ≡ keys (k.encode (k.gen_keypair n).0) (some (k.gen_keypair n).1)
  read_back n =
      rw
        (
          laws.trim_encode (k.gen_keypair n).1,
          laws.decode_encode (k.gen_keypair n).1,
          laws.secret_length n,
          laws.public_half n,
        )
        refl

  created :
      (n : ℕ) (f f' : KeyFiles) (pk : String) (sk : Bytes)
      → create k (pair k (k.gen_keypair n)) f ≡ (keys pk (some sk), f')
      → by_file k f'.sk_file f' ≡ (keys pk (some sk), f')
  created n f f' pk sk h = elim (Bool-cases f.can_create_pub) [
    | inr no_pub ↦ absurd (ground (arith, h, no_pub))
    | inl pub_ok ↦ elim (Bool-cases f.can_create_sk) [
      | inr no_sk ↦ absurd (ground (arith, h, pub_ok, no_sk))
      | inl sk_ok ↦ elim (Bool-cases f.can_write_sk) [
        | inr no_write ↦ absurd (ground (arith, h, pub_ok, sk_ok, no_write))
        | inl write_ok ↦
            let (public, secret) = pair k (k.gen_keypair n) in
            let F = record f {
              pub_file = some (some (if f.can_write_pub then public else ""));
              sk_file = some (some (k.encode secret));
            } in
            let done : (keys public (some secret), F) ≡ (keys pk (some sk), f') =
              ground (arith, h, pub_ok, sk_ok, write_ok) in
            subst (λ g. by_file k g.sk_file g ≡ (keys pk (some sk), f')) (ap (λ r. r.1) done)
              (ap (λ g. (g, F)) (read_back n) ∙ done)
      ]
    ]
  ]

  generated :
      (o : Option File) (f f' : KeyFiles) (pk : String) (sk : Bytes)
      → f.sk_file ≡ o
      → by_file k o f ≡ (keys pk (some sk), f')
      → by_file k f'.sk_file f' ≡ (keys pk (some sk), f')
  generated none f f' pk sk e h =
      let (n, is) = choose-pair 300 0 in created n f f' pk sk (ap (λ p. create k p f) (sym is) ∙ h)
  generated (some none) f f' pk sk e h = absurd (cc)
  generated (some (some contents)) f f' pk sk e h =
      subst (λ g. by_file k g.sk_file g ≡ (keys pk (some sk), f')) (ap (λ r. r.1) h)
        (ap (λ o. by_file k o f) e ∙ h)

  -- A key pair that is generated is found again: once gen_sk gives a key pair, every later start gives
  -- this key pair, and writes nothing.
  gen_sk-gen_sk :
      (f f' : KeyFiles) (pk : String) (sk : Bytes)
      → gen_sk k f ≡ (keys pk (some sk), f')
      → gen_sk k f' ≡ (keys pk (some sk), f')
  unfolding gen_sk
  gen_sk-gen_sk f f' pk sk h = generated f.sk_file f f' pk sk refl h

  default_not_empty : (key : String) → is_default k key ≡ true → is_empty_text key ≡ false
  default_not_empty key d = elim (String_discrete key "-") [
    | yes dash ↦ rw dash refl
    | no other ↦ elim (String_discrete key "_") [
      | yes underscore ↦ rw underscore refl
      | no another ↦ absurd (ground (arith, d, other, another))
    ]
  ]

  taken_over :
      (key : String) (r : Generated × KeyFiles) (f' : KeyFiles) (pk : String) (sk : Bytes)
      → is_empty_text key ≡ false
      → with_generated k key r ≡ (keys pk (some sk), f')
      → r ≡ (keys pk (some sk), f')
  taken_over key (exited, f) f' pk sk given h = cc
  taken_over key (keys p o, f) f' pk sk given h = ground (arith, h, given)

  left_empty :
      (key : String) (r : Generated × KeyFiles) (f' : KeyFiles) (pk : String) (sk : Bytes)
      → is_empty_text key ≡ true
      → with_generated k key r ≡ (keys pk (some sk), f')
      → key ≡ pk
  left_empty key (exited, f) f' pk sk empty h = cc
  left_empty key (keys p o, f) f' pk sk empty h = ground (arith, h, empty)

  keys_agree :
      (key : String) (o : Option Bytes) (f f' : KeyFiles) (pk : String) (sk : Bytes)
      → server_key k (key, o) f ≡ (keys pk (some sk), f')
      → (o' : Option Bytes) × (relay_key k (key, o) f' ≡ (keys pk o', f'))
  keys_agree key o f f' pk sk h = elim (Bool-cases (is_default k key)) [
    | inl d ↦
        let given = default_not_empty key d in
        let made = taken_over key (gen_sk k f) f' pk sk given (rw (given, d) at h) in
        (some sk, rw d (gen_sk-gen_sk f f' pk sk made))
    | inr own ↦ elim (Bool-cases (is_empty_text key)) [
      | inl empty ↦
          let same = left_empty key (gen_sk k f) f' pk sk empty (rw empty at h) in
          (none, rw own (ap (λ x. (keys x none, f')) same))
      | inr given ↦
          let same : key ≡ pk = ground (arith, h, own, given) in
          (none, rw own (ap (λ x. (keys x none, f')) same))
    ]
  ]

  -- hbbs and hbbr that start in one directory with the same key argument use the same key text: when
  -- hbbs has a secret key, hbbr, which starts later, has the key text that hbbs asks its clients for.
  -- For the empty argument this is the empty text, that is no key, in both.
  pub get_server_sk-relay_get_server_sk :
      (key : String) (f f' : KeyFiles) (pk : String) (sk : Bytes)
      → get_server_sk k key f ≡ (keys pk (some sk), f')
      → (o : Option Bytes) × (relay_get_server_sk k key f' ≡ (keys pk o, f'))
  unfolding get_server_sk relay_get_server_sk
  get_server_sk-relay_get_server_sk key f f' pk sk h =
      let (own, o) = own_key k key (k.decode key) in keys_agree own o f f' pk sk h
