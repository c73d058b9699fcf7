-- ===== src/Net.antt =====
-- std::net addresses as far as the program looks into them, and what it takes from the crate
-- hbb_common about addresses.

pub mod Proxy
use openuu_server.Prelude.{
  ℕ, ◌/◌, ◌%◌, ◌^◌, Bool, ◌||◌, Option, none, some, String, ◌==◌, if◌then◌else◌, ℕ_discrete, Bytes,
}

-- the 32 or 128 bits of the address
pub data IpAddr : Type 0 where
  v4 : ℕ → IpAddr
  v6 : ℕ → IpAddr

pub record SocketAddr : Type 0 where
  pub ip : IpAddr
  pub port : ℕ

unfoldable pub IpAddr-discrete : Discrete IpAddr
unfolding ℕ_discrete
IpAddr-discrete = hlevel ℕ_discrete

unfoldable pub SocketAddr-discrete : Discrete SocketAddr
unfolding IpAddr-discrete
SocketAddr-discrete = hlevel (IpAddr-discrete, ℕ_discrete)

unfoldable pub is_loopback : IpAddr → Bool
is_loopback (v4 n) = n / 2 ^ 24 == 127
is_loopback (v6 n) = n == 1

-- Ipv4Addr::is_private: 10/8, 172.16/12, 192.168/16
unfoldable pub is_private_v4 : ℕ → Bool
is_private_v4 n = n / 2 ^ 24 == 10 || n / 2 ^ 20 == 2753 || n / 2 ^ 16 == 49320

-- Ipv6Addr::to_ipv4: `::a.b.c.d` and `::ffff:a.b.c.d`
unfoldable pub to_ipv4 : ℕ → Option ℕ
to_ipv4 n = if n / 2 ^ 32 == 0 || n / 2 ^ 32 == 0xffff then some (n % 2 ^ 32) else none

-- What the program takes from elsewhere: `try_into_v4` and `AddrMangle` of hbb_common, and the
-- textual form of an address.
pub record AddrTools : Type 0 where
  pub try_into_v4 : SocketAddr → SocketAddr
  pub encode : SocketAddr → Bytes
  pub decode : Bytes → SocketAddr
  pub ip_text : IpAddr → String
