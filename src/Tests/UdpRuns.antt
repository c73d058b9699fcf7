-- ===== src/Tests/UdpRuns.antt =====
-- Runs of the UDP dispatch.
use openuu_server.Prelude.{String, [], ◌∷◌, true, Bool}
use openuu_server.Rendezvous.Register.{RegisterPk}
use openuu_server.Rendezvous.Udp.{UdpServer}
use openuu_server.Tests.Data.{peer_id, one_peer}

abbrev server : UdpServer
server = record {
  registry = record { pm = one_peer; ip_blocker = []; ip_changes = [] };
  serial = 5;
  rendezvous_servers = "a" ∷ [];
  version = "";
  software_url = "";
}

abbrev all_valid : String → Bool
all_valid x = true

abbrev stranger : RegisterPk
stranger = record { id = peer_id; uuid = 9 ∷ []; pk = 8 ∷ [] }
