-- ===== src/Control.antt =====
-- crates/snell-protocol/src/control/mod.rs: the control messages in record plaintext. Here are the
-- decoders; the encoders are in `Encode`.
pub mod Encode
pub mod Written
pub mod RoundTrip
pub mod Assembly
pub mod Prefix
pub mod Incremental
pub mod Stream
pub mod Datagram
pub mod Decode
use snell_rs.Prelude.{
  ℕ, ◌+◌, List, [], ◌∷◌, Option, none, some, Bool, true, false, not, length, ltb, ◌==◌,
  if◌then◌else◌, ◌≡◌,
}
use snell_rs.Kernel.Error.{
  Error, truncated, empty_host, invalid_version, unknown_command, invalid_address_type, malformed,
  trailing_bytes, ParseState, need, done, Result, ok, err, panic, ◌>>=◌, ◌>>◌, fail_if, ok_or,
}
use snell_rs.Kernel.Consts.{
  protocol_version, command_connect, command_connect_v2, command_udp, command_udp_forward,
  command_tunnel, command_error, udp_request_ip_len, atyp_ipv4, atyp_ipv6,
}
use snell_rs.Kernel.Slice.{Bytes, split_first, get_to, get_from, index_from}
use snell_rs.Address.{
  IpAddr, SocketAddr, Address, ip, domain, socket_addr, new_domain, ip_port, split_host_port,
}
use snell_rs.Address.Text.{IpText}

-- `VERSION CMD CLIENT_ID_LEN`
pub record WireControlHead : Type 0 where
  pub version : ℕ
  pub command : ℕ
  pub client_id_len : ℕ

-- `WireControlHead::ref_from_prefix`
unfoldable pub control_head : Bytes → Option (WireControlHead × Bytes)
control_head (v ∷ c ∷ n ∷ after) =
    some (record { version = v; command = c; client_id_len = n }, after)
control_head _ = none

pub record ConnectRequest : Type 0 where
  pub destination : Address
  pub reuse : Bool

-- `reuse` of the command byte.
unfoldable pub reuse_of : ℕ → Result Bool
reuse_of command =
    if command == command_connect
    then ok false
    else if command == command_connect_v2
    then ok true
    else err (unknown_command command)

-- The length byte of the host is there, and is not zero.
unfoldable pub check_host_len : Bytes → Result (Unit {0})
check_host_len [] = err truncated
check_host_len (n ∷ _) = fail_if (n == 0) empty_host

-- The text of an IP address is an address, any other host a domain.
unfoldable pub destination_of : IpText → Bytes → ℕ → Result Address
destination_of t host port = elim (t.parse host) [
  | some a ↦ ok (ip (socket_addr a port))
  | none ↦ new_domain host port
]

unfoldable pub decode_connect_request_prefix : IpText → Bytes → Result (ConnectRequest × ℕ)
decode_connect_request_prefix t src = do
  (head, after) ← ok_or (control_head src) truncated
  fail_if (not (head.version == protocol_version)) (invalid_version head.version)
  reuse ← reuse_of head.command
  host_port ← ok_or (get_from after head.client_id_len) truncated
  check_host_len host_port
  (host, port, host_port_len) ← split_host_port host_port
  destination ← destination_of t host port
  ok (record { destination = destination; reuse = reuse }, 3 + head.client_id_len + host_port_len)

unfoldable pub decode_connect_request : IpText → Bytes → Result ConnectRequest
decode_connect_request t src = do
  (request, consumed) ← decode_connect_request_prefix t src
  fail_if (not (length src == consumed)) (malformed trailing_bytes)
  ok request

unfoldable pub decode_udp_setup_prefix : Bytes → Result ℕ
decode_udp_setup_prefix src = do
  (wire, after) ← ok_or (control_head src) truncated
  fail_if (not (wire.version == protocol_version)) (invalid_version wire.version)
  fail_if (not (wire.command == command_udp)) (unknown_command wire.command)
  fail_if (ltb (length after) wire.client_id_len) truncated
  ok (3 + wire.client_id_len)

pub data ServerReply : Type 0 where
  tunnel : ServerReply
  error : (code : ℕ) (message : Bytes) → ServerReply

-- `[COMMAND_ERROR, code, msg_len, ref rest @ ..]`, and the arm for a shorter buffer.
unfoldable pub error_reply : Bytes → ParseState (ServerReply × ℕ)
error_reply [] = need 3
error_reply (_ ∷ []) = need 3
error_reply (code ∷ msg_len ∷ rest) = elim (get_to rest msg_len) [
  | some message ↦ done (error code message, 3 + msg_len)
  | none ↦ need (3 + msg_len)
]

-- The arms of the slice pattern match, from the first byte on.
unfoldable pub decode_server_reply : Bytes → Result (ParseState (ServerReply × ℕ))
decode_server_reply [] = ok (need 1)
decode_server_reply (first ∷ after) =
    if first == command_tunnel
    then ok (done (tunnel, 1))
    else if first == command_error
    then ok (error_reply after)
    else err (unknown_command first)

pub record UdpPacket : Type 0 where
  pub address : Address
  pub payload : Bytes
  pub header_len : ℕ

-- The address behind its tag, and its length.
unfoldable pub tagged_ip : ℕ → Bytes → Result (Option SocketAddr × ℕ)
tagged_ip atyp rest =
    if atyp == atyp_ipv4
    then ok (ip_port 4 IpAddr.v4 rest, 4)
    else if atyp == atyp_ipv6
    then ok (ip_port 16 IpAddr.v6 rest, 16)
    else err (invalid_address_type atyp)

unfoldable pub parse_ip_tail : Bytes → Result (Address × ℕ)
parse_ip_tail src = do
  (atyp, rest) ← ok_or (split_first src) truncated
  (addr, ip_len) ← tagged_ip atyp rest
  a ← ok_or addr truncated
  ok (ip a, 1 + ip_len + 2)

unfoldable pub parse_domain_tail : Bytes → Result (Address × ℕ)
parse_domain_tail src = do
  (host, port, len) ← split_host_port src
  address ← new_domain host port
  ok (address, len)

unfoldable pub decode_udp_datagram : Bytes → ℕ → (Bytes → Result (Address × ℕ)) → Result UdpPacket
decode_udp_datagram src marker_len parse_tail = do
  tail ← index_from src marker_len
  (address, tail_len) ← parse_tail tail
  let header_len = marker_len + tail_len
  payload ← index_from src header_len
  ok (record { address = address; payload = payload; header_len = header_len })

unfoldable pub decode_udp_request : Bytes → Result UdpPacket
decode_udp_request [] = err truncated
decode_udp_request (_ ∷ []) = err truncated
decode_udp_request (command ∷ host_len ∷ rest) = do
  let src = command ∷ host_len ∷ rest
  fail_if (not (command == command_udp_forward)) (unknown_command command)
  if host_len == udp_request_ip_len
      then decode_udp_datagram src 2 parse_ip_tail
      else decode_udp_datagram src 1 parse_domain_tail

-- A response carries an IP source only.
unfoldable pub decode_udp_response : Bytes → Result UdpPacket
decode_udp_response src = decode_udp_datagram src 0 parse_ip_tail
