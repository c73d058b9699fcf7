-- ===== src/Rendezvous/Udp.antt =====
-- The messages that hbbs takes over UDP: `handle_udp` of src/rendezvous_server/udp.rs. The answers
-- to the sender come back in order; a send that fails is not modelled. A serial is an i32, which
-- stands here as its value plus 2 ^ 31.
pub mod Dispatch
use openuu_server.Prelude.{
  ℕ, String, Bool, true, false, not, ◌&&◌, ◌||◌, Option, none, some, List, [], ◌∷◌, ltb,
  if◌then◌else◌, Bytes, keep, is_empty, eqb, String_discrete,
}
use openuu_server.Prelude.Text.{is_empty_text}
use openuu_server.Net.{SocketAddr, AddrTools, is_loopback}
use openuu_server.Rendezvous.Peers.{InfoCodec, RegisterResult}
use openuu_server.Rendezvous.Register.{
  RegisterPk, Registry, register_peer_response, register_pk_result,
}

-- the union of RendezvousMessage, as far as the handler tells its cases apart
pub data UdpMessage : Type 0 where
  -- id and serial
  register_peer : String → ℕ → UdpMessage
  register_pk : RegisterPk → UdpMessage
  test_nat_request : ℕ → UdpMessage
  punch_hole_request punch_hole_sent local_addr : UdpMessage
  -- serial and rendezvous servers
  configure_update : ℕ → List String → UdpMessage
  -- url
  software_update : String → UdpMessage
  other_message : UdpMessage

pub data UdpAnswer : Type 0 where
  -- `request_pk`
  register_peer_result : Bool → UdpAnswer
  register_pk_response : RegisterResult → UdpAnswer
  config_update : ℕ → List String → UdpAnswer
  -- port, and `cu`
  test_nat_response : ℕ → Option (ℕ × List String) → UdpAnswer
  software_update_url : String → UdpAnswer

-- What the handler reads and writes of the server.
pub record UdpServer : Type 0 where
  pub registry : Registry
  pub serial : ℕ
  pub rendezvous_servers : List String
  pub version : String
  pub software_url : String

module _ (net : AddrTools) (codec : InfoCodec) (valid : String → Bool) (now : ℕ)
    (new_guid : Bytes) where
  abbrev pub heartbeat : String → ℕ → SocketAddr → UdpServer → List UdpAnswer × UdpServer
  heartbeat id serial addr s =
      if is_empty_text id
      then ([], s)
      else (let (request_pk, pm) = register_peer_response net now id addr s.registry.pm in
          (
            register_peer_result request_pk
                ∷ (if ltb serial s.serial
                    then config_update s.serial s.rendezvous_servers ∷ []
                    else []),
            record s { registry = record s.registry { pm = pm } },
          ))

  abbrev pub registration : RegisterPk → SocketAddr → UdpServer → List UdpAnswer × UdpServer
  registration rk addr s =
      if is_empty rk.uuid || is_empty rk.pk
      then ([], s)
      else (let (r, registry) = register_pk_result net codec now new_guid rk addr s.registry in
          (register_pk_response r ∷ [], record s { registry = registry }))

  -- `valid` is test_if_valid_server
  abbrev pub configured : ℕ → List String → SocketAddr → UdpServer → UdpServer
  configured serial servers addr s =
      if is_loopback (net.try_into_v4 addr).ip && ltb s.serial serial
      then record s {
        serial = serial;
        rendezvous_servers = keep (λ x. not (is_empty_text x) && valid x) servers;
      }
      else s

  -- on a packet that parses; one that does not is dropped
  unfoldable pub handle_udp : UdpMessage → SocketAddr → UdpServer → List UdpAnswer × UdpServer
  handle_udp (register_peer id serial) addr s = heartbeat id serial addr s
  handle_udp (register_pk rk) addr s = registration rk addr s
  handle_udp (test_nat_request serial) addr s = (
    test_nat_response addr.port
          (if ltb serial s.serial then some (s.serial, s.rendezvous_servers) else none)
        ∷ [],
    s,
  )
  handle_udp punch_hole_request addr s = ([], s)
  handle_udp punch_hole_sent addr s = ([], s)
  handle_udp local_addr addr s = ([], s)
  handle_udp (configure_update serial servers) addr s = ([], configured serial servers addr s)
  handle_udp (software_update url) addr s = (
    (if not (is_empty_text s.version) && not (eqb String_discrete url s.version)
        then software_update_url s.software_url ∷ []
        else []),
    s,
  )
  handle_udp other_message addr s = ([], s)
