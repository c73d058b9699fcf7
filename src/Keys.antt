-- ===== src/Keys.antt =====
-- The key of the servers: `gen_sk` of src/common/keys.rs, and `get_server_sk` of
-- src/rendezvous_server/tcp.rs and of src/relay_server/mod.rs. base64 and the key pairs of sodiumoxide
-- are arguments.
pub mod Agreement
use openuu_server.Prelude.{
  ℕ, zero, suc, String, Bool, true, false, not, ◌&&◌, ◌||◌, Option, none, some, ◌==◌, if◌then◌else◌,
  Bytes, length, drop, eqb, String_discrete,
}
use openuu_server.Prelude.Text.{is_empty_text, trim, contains_char}

-- `gen_keypair n` is what the n-th call gives: the public and the secret key.
pub record KeyTools : Type 0 where
  pub encode : Bytes → String
  pub decode : String → Option Bytes
  pub gen_keypair : ℕ → Bytes × Bytes

-- a file that opens, with its text if it can be read
abbrev pub File : Type 0
File = Option String

-- The files id_ed25519 and id_ed25519.pub, and whether they can be created and written.
pub record KeyFiles : Type 0 where
  pub sk_file : Option File
  pub pub_file : Option File
  pub can_create_pub : Bool
  pub can_create_sk : Bool
  pub can_write_sk : Bool
  pub can_write_pub : Bool

-- `exited` where the process ends
pub data Generated : Type 0 where
  exited : Generated
  keys : String → Option Bytes → Generated

module _ (k : KeyTools) where
  abbrev pub pair : Bytes × Bytes → String × Bytes
  pair (pk, sk) = (k.encode pk, sk)

  -- the pair to keep: the first without `/` and `:`, or the last of 301
  abbrev pub choose : ℕ → ℕ → String × Bytes
  choose zero i = pair (k.gen_keypair i)
  choose (suc left) i =
      let later = choose left (suc i) in
      let (pk, sk) = pair (k.gen_keypair i) in
      if not (contains_char 47 pk) && not (contains_char 58 pk) then (pk, sk) else later

  -- a failed write of the public key is ignored, and leaves the file empty
  abbrev pub create : String × Bytes → KeyFiles → Generated × KeyFiles
  create (pk, sk) f =
      if not f.can_create_pub
      then (keys "" none, f)
      else (let f₁ = record f { pub_file = some (some (if f.can_write_pub then pk else "")) } in
          if not f.can_create_sk
          then (keys "" none, f₁)
          else if not f.can_write_sk
          then (keys "" none, record f₁ { sk_file = some (some "") })
          else (keys pk (some sk), record f₁ { sk_file = some (some (k.encode sk)) }))

  -- text that is no base64 counts as no bytes
  abbrev pub read_sk : Option Bytes → Generated
  read_sk none = exited
  read_sk (some sk) = if length sk == 64 then keys (k.encode (drop 32 sk)) (some sk) else exited

  abbrev pub by_file : Option File → KeyFiles → Generated × KeyFiles
  by_file none f = create (choose 300 0) f
  by_file (some none) f = (keys "" none, f)
  by_file (some (some contents)) f = (read_sk (k.decode (trim contents)), f)

  unfoldable pub gen_sk : KeyFiles → Generated × KeyFiles
  unfolding trim contains_char
  gen_sk f = by_file f.sk_file f

  -- a key argument that is a private key stands for its public half
  abbrev pub own_key : String → Option Bytes → String × Option Bytes
  own_key key none = (key, none)
  own_key key (some sk) = if length sk == 64 then (k.encode (drop 32 sk), some sk) else (key, none)

  abbrev pub is_default : String → Bool
  is_default key = eqb String_discrete key "-" || eqb String_discrete key "_"

  abbrev pub with_generated : String → Generated × KeyFiles → Generated × KeyFiles
  with_generated key (exited, f) = (exited, f)
  with_generated key (keys pk sk, f) = (keys (if is_empty_text key then key else pk) sk, f)

  abbrev pub server_key : String × Option Bytes → KeyFiles → Generated × KeyFiles
  server_key (key, sk) f =
      if is_empty_text key || is_default key
      then with_generated key (gen_sk f)
      else (keys key sk, f)

  -- RendezvousServer::get_server_sk
  unfoldable pub get_server_sk : String → KeyFiles → Generated × KeyFiles
  unfolding gen_sk
  get_server_sk key f = server_key (own_key key (k.decode key)) f

  abbrev pub relay_key : String × Option Bytes → KeyFiles → Generated × KeyFiles
  relay_key (key, sk) f = if is_default key then gen_sk f else (keys key none, f)

  -- get_server_sk of the relay, which keeps the public key only
  unfoldable pub relay_get_server_sk : String → KeyFiles → Generated × KeyFiles
  unfolding gen_sk
  relay_get_server_sk key f = relay_key (own_key key (k.decode key)) f
