-- ===== src/Rendezvous/Tcp/Connection/Decryption.antt =====
-- What a connection handles of the frames it reads (`handle_listener_inner` of
-- src/rendezvous_server/io.rs).
use openuu_server.Prelude.{
  String, false, Option, none, some, List, [], ◌∷◌, ◌≡◌, refl, inl, inr, Bytes, Option-cases,
}
use openuu_server.Net.{SocketAddr}
use openuu_server.Rendezvous.Tcp.Wire.{Conn, Outside, Moment}
use openuu_server.Rendezvous.Tcp.Secure.{accept}
use openuu_server.Rendezvous.Tcp.Connection.{
  Phase, clear, offered, secured, Codec, receive, read_frames, handle_bytes,
}

module _ {ℓ} {Enc : Type ℓ} (k : Codec Enc) where
  abbrev go_on :
      Moment → Option (Bytes × Enc) → (Enc → List (Moment × Bytes)) → List (Moment × Bytes)
  go_on m none rest = []
  go_on m (some (bytes, d)) rest = (m, bytes) ∷ rest d

  -- The plain text of frames under one key, up to the first that does not decrypt.
  abbrev pub decrypt : Enc → List (Moment × Bytes) → List (Moment × Bytes)
  decrypt d [] = []
  decrypt d ((m, bytes) ∷ frames) = go_on m (k.dec d bytes) (λ d'. decrypt d' frames)

  abbrev opened : Option Bytes → List (Moment × Bytes) → List (Moment × Bytes)
  opened none frames = []
  opened (some key) frames = decrypt (k.new_encrypt key) frames

  abbrev agreed :
      Bytes
      → Option (List Bytes)
      → List (Moment × Bytes)
      → List (Moment × Bytes)
      → List (Moment × Bytes)
  agreed sk none all frames = all
  agreed sk (some keys) all frames = opened (accept k.sodium sk keys) frames

  -- What there is to handle: after an offer, all frames as they are if the first is no key exchange,
  -- none if it is one that the server does not accept, and else the plain text of the others.
  abbrev pub readable : Phase Enc → List (Moment × Bytes) → List (Moment × Bytes)
  readable clear frames = frames
  readable (secured d) frames = decrypt d frames
  readable (offered sk) [] = []
  readable (offered sk) ((m, bytes) ∷ frames) =
      agreed sk (k.exchange_keys bytes) ((m, bytes) ∷ frames) frames

  module _ (x : Outside) (addr : SocketAddr) (key : String) where
    read_frames-decrypt :
        (d : Enc) (frames : List (Moment × Bytes)) (c : Conn)
        → read_frames k x addr key (secured d) frames c
          ≡ read_frames k x addr key clear (decrypt d frames) c
    unfolding read_frames receive
    read_frames-decrypt d [] c = refl
    read_frames-decrypt d ((m, bytes) ∷ frames) c = elim (Option-cases (k.dec d bytes)) [
      | inl bad ↦ rw bad refl
      | inr ((plain, d'), good) ↦
          rw (good, read_frames-decrypt d' frames (handle_bytes k x addr key false m plain c).1)
            refl
    ]

    -- Whatever the phase, a connection handles exactly the frames that are readable in it, like a
    -- connection in clear text.
    pub read_frames-readable :
        (phase : Phase Enc) (frames : List (Moment × Bytes)) (c : Conn)
        → read_frames k x addr key phase frames c
          ≡ read_frames k x addr key clear (readable phase frames) c
    unfolding read_frames receive
    read_frames-readable clear frames c = refl
    read_frames-readable (secured d) frames c = read_frames-decrypt d frames c
    read_frames-readable (offered sk) [] c = refl
    read_frames-readable (offered sk) ((m, bytes) ∷ frames) c =
        elim (Option-cases (k.exchange_keys bytes)) [
          | inl other ↦ rw other refl
          | inr (keys, ex) ↦ elim (Option-cases (accept k.sodium sk keys)) [
            | inl refused ↦ rw (ex, refused) refl
            | inr (new_key, agreed) ↦
                rw (ex, agreed) (read_frames-decrypt (k.new_encrypt new_key) frames c)
          ]
        ]
