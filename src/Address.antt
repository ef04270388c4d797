-- ===== src/Address.antt =====
-- crates/snell-protocol/src/address.rs: destinations, and the two address layouts that the
-- SOCKS5 and the Snell messages share. `Address` and its view `AddressRef` are one type here.
pub mod Wire
pub mod Text
use snell_rs.Prelude.{ℕ, ◌+◌, [], ◌∷◌, Option, some, Bool, true, false, length, ltb}
use mathlib.Core.Option
use snell_rs.Kernel.Error.{
  truncated, empty_host, host_contains_nul, host_too_long, invalid_host_utf8, Result, ok, ◌>>=◌,
  ◌>>◌, fail_if, ok_or,
}
use snell_rs.Kernel.Consts.{max_domain_len}
use snell_rs.Kernel.Slice.{Bytes, split_first, split_at_checked, contains, from_be_bytes}
use snell_rs.Kernel.Utf8.{from_utf8}

-- `std::net::IpAddr`, by its octets.
pub data IpAddr : Type 0 where
  v4 v6 : Bytes → IpAddr

-- `std::net::SocketAddr`. The flow label and the scope of a V6 address are not on the wire.
pub data SocketAddr : Type 0 where
  v4 : (octets : Bytes) (port : ℕ) → SocketAddr
  v6 : (octets : Bytes) (port flowinfo scope_id : ℕ) → SocketAddr

-- `SocketAddr::new`
abbrev pub socket_addr : IpAddr → ℕ → SocketAddr
socket_addr (IpAddr.v4 o) port = SocketAddr.v4 o port
socket_addr (IpAddr.v6 o) port = SocketAddr.v6 o port 0 0

-- A host is the bytes of a text.
pub data Address : Type 0 where
  ip : SocketAddr → Address
  domain : (host : Bytes) (port : ℕ) → Address

abbrev pub is_empty : Bytes → Bool
is_empty [] = true
is_empty (_ ∷ _) = false

unfoldable pub validate_domain : Bytes → Result (Unit {0})
validate_domain host = do
  fail_if (is_empty host) empty_host
  fail_if (contains host 0) host_contains_nul
  fail_if (ltb max_domain_len (length host)) host_too_long
  ok tt

-- `AddressRef::domain` (and `Address::domain`): the checked constructor.
unfoldable pub new_domain : Bytes → ℕ → Result Address
new_domain host port = validate_domain host >> ok (domain host port)

unfoldable pub port : Address → ℕ
port (ip (SocketAddr.v4 _ p)) = p
port (ip (SocketAddr.v6 _ p _ _)) = p
port (domain _ p) = p

-- `ip_port::<N>`: `ADDR(N) PORT(2)`, with `IpAddr::from` on arrays of N bytes.
unfoldable pub ip_port : ℕ → (Bytes → IpAddr) → Bytes → Option SocketAddr
ip_port n from src = Option.bind (split_at_checked n src) λ p.
    Option.bind (split_at_checked 2 (p.1))
      λ q. some (socket_addr (from (p.0)) (from_be_bytes (q.0)))

-- `LEN(1) HOST(LEN) PORT(2)` with no check of the host but that it is a text.
unfoldable pub split_host_port : Bytes → Result (Bytes × ℕ × ℕ)
split_host_port src = do
  (host_len, rest) ← ok_or (split_first src) truncated
  (host, rest') ← ok_or (split_at_checked host_len rest) truncated
  (port, _) ← ok_or (split_at_checked 2 rest') truncated
  text ← ok_or (from_utf8 host) invalid_host_utf8
  ok (text, from_be_bytes port, 1 + length text + 2)
