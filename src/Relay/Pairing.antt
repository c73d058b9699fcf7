-- ===== src/Relay/Pairing.antt =====
-- Pairing at the relay: `make_pair_` of src/relay_server/connection.rs. It locks PEERS once to look
-- for a partner, once more to wait, and again after thirty seconds, so an arrival is up to three
-- steps and those of other connections come between. A connection goes by a number.
pub mod Waiting
use openuu_server.Prelude.{
  ℕ, String, Bool, true, false, not, ◌&&◌, ◌||◌, Option, none, some, List, ◌∷◌, eqb,
  String_discrete, if◌then◌else◌,
}
use openuu_server.Prelude.Map.{get, insert, remove}
use openuu_server.Prelude.Text.{is_empty_text}

pub record Relay : Type 0 where
  -- PEERS, by uuid
  pub peers : List (String × ℕ)
  -- the pairs that were made, the one that waited first
  pub pairs : List (ℕ × ℕ)

-- what hbbr reads of the message RequestRelay
pub record RequestRelay : Type 0 where
  pub uuid : String
  pub licence_key : String

-- the guards, after `ticket::redeem`
unfoldable pub admits : Bool → String → RequestRelay → Bool
admits redeemed key rf =
    redeemed
    && (is_empty_text key || eqb String_discrete rf.licence_key key)
    && not (is_empty_text rf.uuid)

abbrev pub paired_with : String → ℕ → Option ℕ → Relay → Bool × Relay
paired_with uuid conn none s = (false, s)
paired_with uuid conn (some peer) s =
    (true, record s { peers = remove String_discrete uuid s.peers; pairs = (peer, conn) ∷ s.pairs })

-- PEERS.remove, and the pairing if there was a peer
unfoldable pub take : String → ℕ → Relay → Bool × Relay
take uuid conn s = paired_with uuid conn (get String_discrete uuid s.peers) s

-- PEERS.insert
unfoldable pub wait : String → ℕ → Relay → Relay
wait uuid conn s = record s { peers = insert String_discrete uuid conn s.peers }

-- PEERS.remove after the sleep
unfoldable pub give_up : String → Relay → Relay
give_up uuid s = record s { peers = remove String_discrete uuid s.peers }

-- an admitted arrival with no step of another connection between its own, up to the sleep
unfoldable pub arrive : String → ℕ → Relay → Bool × Relay
unfolding take wait
arrive uuid conn s =
    let (paired, s') = take uuid conn s in if paired then (true, s') else (false, wait uuid conn s')

abbrev pub waiting : String → Relay → Option ℕ
waiting uuid s = get String_discrete uuid s.peers
