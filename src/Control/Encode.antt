-- ===== src/Control/Encode.antt =====
-- The encoders of control/mod.rs. Each returns the number of bytes and the new content of `dst`.
use snell_rs.Prelude.{ℕ, ◌+◌, ◌%◌, [], ◌∷◌, ◌++◌, Bool, ◌||◌, length, ltb, ◌==◌, if◌then◌else◌, min}
use snell_rs.Kernel.Error.{host_too_long, Result, ok, ◌>>=◌, ◌>>◌, fail_if}
use snell_rs.Kernel.Consts.{
  protocol_version, command_connect, command_connect_v2, command_udp, command_udp_forward,
  command_tunnel, command_error, error_reject, udp_request_ip_len, atyp_ipv4, atyp_ipv6,
}
use snell_rs.Kernel.Slice.{
  Bytes, dst_prefix, split_at_mut, copy_from_slice, set_first, index_to, to_be_bytes,
}
use snell_rs.Address.{SocketAddr, Address, ip, domain, validate_domain, port}
use snell_rs.Address.Text.{IpText, host}

-- `size_of::<WireControlPrefix>() + host_len + 2`; an empty host is "too long" here.
unfoldable pub connect_len : ℕ → Result ℕ
connect_len host_len = do
  fail_if (host_len == 0 || ltb 255 host_len) host_too_long
  ok (4 + host_len + 2)

unfoldable pub connect_request_len : IpText → Address → Result ℕ
connect_request_len t destination = connect_len (length (host t destination))

unfoldable pub encode_connect_request : IpText → Bytes → Address → Bool → Result (ℕ × Bytes)
encode_connect_request t dst destination reuse = do
  let h = host t destination
  needed ← connect_len (length h)
  let command = if reuse then command_connect_v2 else command_connect
  let wire : Bytes = protocol_version ∷ command ∷ 0 ∷ (length h % 256) ∷ []
  (front, behind) ← dst_prefix dst needed
  (head, rest) ← split_at_mut front 4
  head' ← copy_from_slice head wire
  (host_dst, port_dst) ← split_at_mut rest (length h)
  host' ← copy_from_slice host_dst h
  port' ← copy_from_slice port_dst (to_be_bytes (port destination))
  ok (needed, (head' ++ (host' ++ port')) ++ behind)

unfoldable pub encode_udp_setup : Bytes → Result (ℕ × Bytes)
encode_udp_setup dst = do
  (front, behind) ← dst_prefix dst 3
  front' ← copy_from_slice front (protocol_version ∷ command_udp ∷ 0 ∷ [])
  ok (3, front' ++ behind)

unfoldable pub encode_tunnel_reply : Bytes → Result (ℕ × Bytes)
encode_tunnel_reply dst = do
  (front, behind) ← dst_prefix dst 1
  front' ← set_first front command_tunnel
  ok (1, front' ++ behind)

unfoldable pub encode_reject : Bytes → Bytes → Result (ℕ × Bytes)
encode_reject dst message = do
  msg ← index_to message (min (length message) 255)
  let needed = 3 + length msg
  (front, behind) ← dst_prefix dst needed
  (head, tail) ← split_at_mut front 3
  head' ← copy_from_slice head (command_error ∷ error_reject ∷ (length msg % 256) ∷ [])
  tail' ← copy_from_slice tail msg
  ok (needed, (head' ++ tail') ++ behind)

unfoldable pub udp_tail_len : Address → Result ℕ
udp_tail_len (domain h _) = validate_domain h >> ok (1 + length h + 2)
udp_tail_len (ip (SocketAddr.v4 _ _)) = ok (1 + 4 + 2)
udp_tail_len (ip (SocketAddr.v6 _ _ _ _)) = ok (1 + 16 + 2)

unfoldable pub marker_len : Address → ℕ
marker_len (ip _) = 2
marker_len (domain _ _) = 1

unfoldable pub udp_request_header_len : Address → Result ℕ
udp_request_header_len address = do tail ← udp_tail_len address; ok (marker_len address + tail)

unfoldable pub udp_request_len : Address → ℕ → Result ℕ
udp_request_len address payload_len = do
  header ← udp_request_header_len address
  ok (header + payload_len)

unfoldable pub udp_response_len : SocketAddr → ℕ → ℕ
udp_response_len (SocketAddr.v4 _ _) payload_len = 1 + 4 + 2 + payload_len
udp_response_len (SocketAddr.v6 _ _ _ _) payload_len = 1 + 16 + 2 + payload_len

-- The tag and the address bytes that `encode_udp_datagram` writes.
unfoldable pub tail_parts : Address → ℕ × Bytes
tail_parts (domain h _) = (length h % 256, h)
tail_parts (ip (SocketAddr.v4 o _)) = (atyp_ipv4, o)
tail_parts (ip (SocketAddr.v6 o _ _ _)) = (atyp_ipv6, o)

unfoldable pub encode_udp_datagram : Bytes → ℕ → Bytes → Address → Bytes → Result (ℕ × Bytes)
encode_udp_datagram dst header_len marker address payload = do
  let needed = header_len + length payload
  (front, behind) ← dst_prefix dst needed
  (header, payload_dst) ← split_at_mut front header_len
  (marker_dst, tail) ← split_at_mut header (length marker)
  marker' ← copy_from_slice marker_dst marker
  let tag = (tail_parts address).0
  let addr = (tail_parts address).1
  (tag_dst, rest) ← split_at_mut tail 1
  tag' ← set_first tag_dst tag
  (addr_dst, port_dst) ← split_at_mut rest (length addr)
  addr' ← copy_from_slice addr_dst addr
  port' ← copy_from_slice port_dst (to_be_bytes (port address))
  payload' ← copy_from_slice payload_dst payload
  ok (needed, ((marker' ++ (tag' ++ (addr' ++ port'))) ++ payload') ++ behind)

unfoldable pub request_marker : Address → Bytes
request_marker (ip _) = command_udp_forward ∷ udp_request_ip_len ∷ []
request_marker (domain _ _) = command_udp_forward ∷ []

unfoldable pub encode_udp_request : Bytes → Address → Bytes → Result (ℕ × Bytes)
encode_udp_request dst address payload = do
  header_len ← udp_request_header_len address
  encode_udp_datagram dst header_len (request_marker address) address payload

unfoldable pub encode_udp_response : Bytes → SocketAddr → Bytes → Result (ℕ × Bytes)
encode_udp_response dst source payload =
    encode_udp_datagram dst (udp_response_len source 0) [] (ip source) payload
