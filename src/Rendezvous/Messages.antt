-- ===== src/Rendezvous/Messages.antt =====
-- The rendezvous messages as far as hbbs builds or reads them (the protobuf definitions are the
-- client's; only the fields that the code names are here).
use openuu_server.Prelude.{ℕ, String, Bytes}

-- NatType on the wire: the one value that hbbs sets, and what a client sent
pub data NatType : Type 0 where
  symmetric : NatType
  other : ℕ → NatType

-- punch_hole_response::Failure
pub data Failure : Type 0 where
  license_mismatch id_not_exist offline : Failure

pub record PunchHoleRequest : Type 0 where
  pub id : String
  pub nat_type : NatType
  pub licence_key : String
  pub token : String

pub data Message : Type 0 where
  punch_hole_failure : Failure → Message
  -- the controller's mangled address, and the relay server
  fetch_local_addr : Bytes → String → Message
  punch_hole : Bytes → NatType → String → Message
