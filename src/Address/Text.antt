-- ===== src/Address/Text.antt =====
-- The texts of IP addresses: `IpAddr::to_string` and `str::parse::<IpAddr>`, which address.rs and
-- control/mod.rs call.
use snell_rs.Prelude.{◌≡◌, Option, some, length, All}
use snell_rs.Kernel.Slice.{Bytes, IsByte}
use snell_rs.Address.{IpAddr, SocketAddr, Address, ip, domain}
use snell_rs.Address.Wire.{IsHost}

pub record IpText : Type 0 where
  pub to_string : IpAddr → Bytes
  pub parse : Bytes → Option IpAddr

abbrev pub IsIpAddr : IpAddr → Type 0
IsIpAddr (IpAddr.v4 o) = (length o ≡ 4) × All IsByte o
IsIpAddr (IpAddr.v6 o) = (length o ≡ 16) × All IsByte o

-- What the documentation of `std::net` says of the two: an address is parsed back from its text,
-- and the text is short ASCII.
pub record IsIpText (t : IpText) : Type 0 where
  pub parse-to_string : (a : IpAddr) → IsIpAddr a → t.parse (t.to_string a) ≡ some a
  pub to_string-IsHost : (a : IpAddr) → IsIpAddr a → IsHost (t.to_string a)

-- `SocketAddr::ip`
abbrev pub ip_of : SocketAddr → IpAddr
ip_of (SocketAddr.v4 o _) = IpAddr.v4 o
ip_of (SocketAddr.v6 o _ _ _) = IpAddr.v6 o

-- `AddressRef::host`
unfoldable pub host : IpText → Address → Bytes
host t (ip a) = t.to_string (ip_of a)
host t (domain h _) = h
