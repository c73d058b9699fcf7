-- ===== src/Rendezvous/SecondListener.antt =====
-- The second port of hbbs: `handle_listener2` of src/rendezvous_server/io.rs, where the console answers
-- to the loopback address, and tests of the NAT and online queries to others.
use openuu_server.Prelude.{
  ℕ, String, Bool, false, Option, none, some, List, Bytes, ◌≡◌, refl, if◌then◌else◌,
}
use openuu_server.Net.{SocketAddr, AddrTools, is_loopback}
use openuu_server.Rendezvous.Console.{Answer, Data, check_cmd}
use openuu_server.Rendezvous.Online.{handle_online_request}
use openuu_server.Rendezvous.Tcp.Wire.{TcpServer, pm_of}

-- the union of the message, as far as the handler tells its cases apart
pub data Request : Type 0 where
  test_nat_request : Request
  online_request : List String → Request
  other_request : Request

-- What arrives first within the time-out: the text of at most 1024 bytes that one read gives, if it is
-- UTF-8, and the message of one frame, if it parses.
pub record Arrival : Type 0 where
  pub text : Option String
  pub message : Option Request

pub data Reply : Type 0 where
  no_reply : Reply
  console_reply : Answer → Reply
  test_nat_response : ℕ → Reply
  online_response : Bytes → Reply

module _ (net : AddrTools) (is_ip : String → Bool) (now : ℕ) where
  abbrev pub console : Option String → TcpServer → Reply × Option Data × TcpServer
  console none s = (no_reply, none, s)
  console (some cmd) s =
      let (a, data_sent, s') = check_cmd is_ip now cmd s in (console_reply a, data_sent, s')

  abbrev answered : SocketAddr → Option Request → TcpServer → Reply
  answered addr none s = no_reply
  answered addr (some test_nat_request) s = test_nat_response addr.port
  answered addr (some (online_request peers)) s =
      online_response (handle_online_request now (pm_of s) peers)
  answered addr (some other_request) s = no_reply

  unfoldable pub handle_listener2 :
      SocketAddr → Arrival → TcpServer → Reply × Option Data × TcpServer
  unfolding check_cmd handle_online_request
  handle_listener2 addr a s =
      if is_loopback (net.try_into_v4 addr).ip
      then console a.text s
      else (answered addr a.message s, none, s)

  -- A connection to the second port that is not from the loopback address changes nothing of the
  -- server, and sends nothing to its loop.
  handle_listener2_remote :
      (addr : SocketAddr) (a : Arrival) (s : TcpServer)
      → is_loopback (net.try_into_v4 addr).ip ≡ false
      → ((handle_listener2 addr a s).1 ≡ none) × ((handle_listener2 addr a s).2 ≡ s)
  unfolding handle_listener2
  handle_listener2_remote addr a s remote = rw remote (refl, refl)
