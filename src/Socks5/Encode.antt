-- ===== src/Socks5/Encode.antt =====
-- The encoders of socks5.rs. Each returns the number of bytes and the new content of `dst`.
use snell_rs.Prelude.{ℕ, ◌+◌, ◌%◌, [], ◌∷◌, ◌++◌, length, ltb}
use snell_rs.Kernel.Error.{
  empty_host, host_too_long, malformed, empty_method_list, Result, ok, ◌>>=◌, ◌>>◌, fail_if,
}
use snell_rs.Kernel.Consts.{max_domain_len}
use snell_rs.Kernel.Slice.{Bytes, dst_prefix, split_at_mut, copy_from_slice, to_be_bytes}
use snell_rs.Address.{SocketAddr, Address, ip, domain, is_empty, port}
use snell_rs.Socks5.Codes.{
  version, atyp_ipv4, atyp_domain, atyp_ipv6, Command, Reply, command_into, reply_into,
}

unfoldable pub encode_greeting : Bytes → Bytes → Result (ℕ × Bytes)
encode_greeting dst methods = do
  fail_if (is_empty methods) (malformed empty_method_list)
  let needed = 2 + length methods
  (front, behind) ← dst_prefix dst needed
  (head, tail) ← split_at_mut front 2
  head' ← copy_from_slice head (version ∷ (length methods % 256) ∷ [])
  tail' ← copy_from_slice tail methods
  ok (needed, (head' ++ tail') ++ behind)

unfoldable pub encode_method_selection : Bytes → ℕ → Result (ℕ × Bytes)
encode_method_selection dst method = do
  (front, behind) ← dst_prefix dst 2
  front' ← copy_from_slice front (version ∷ method ∷ [])
  ok (2, front' ++ behind)

unfoldable pub encoded_addr_len : Address → Result ℕ
encoded_addr_len (ip (SocketAddr.v4 _ _)) = ok (1 + 4 + 2)
encoded_addr_len (ip (SocketAddr.v6 _ _ _ _)) = ok (1 + 16 + 2)
encoded_addr_len (domain host _) = do
  fail_if (is_empty host) empty_host
  fail_if (ltb max_domain_len (length host)) host_too_long
  ok (1 + 1 + length host + 2)

-- The tag and the address bytes that `write_three_addr` writes.
unfoldable pub addr_parts : Address → Bytes × Bytes
addr_parts (ip (SocketAddr.v4 o _)) = (atyp_ipv4 ∷ [], o)
addr_parts (ip (SocketAddr.v6 o _ _ _)) = (atyp_ipv6 ∷ [], o)
addr_parts (domain host _) = (atyp_domain ∷ (length host % 256) ∷ [], host)

unfoldable pub write_three_addr : Bytes → Bytes → Address → Result Bytes
write_three_addr dst head address = do
  (head_dst, field) ← split_at_mut dst 3
  head' ← copy_from_slice head_dst head
  let tag = (addr_parts address).0
  let addr = (addr_parts address).1
  (tag_dst, rest) ← split_at_mut field (length tag)
  tag' ← copy_from_slice tag_dst tag
  (addr_dst, port_dst) ← split_at_mut rest (length addr)
  addr' ← copy_from_slice addr_dst addr
  port' ← copy_from_slice port_dst (to_be_bytes (port address))
  ok (head' ++ (tag' ++ (addr' ++ port')))

unfoldable pub encode_three_addr : Bytes → Bytes → Address → Result (ℕ × Bytes)
encode_three_addr dst head address = do
  addr_len ← encoded_addr_len address
  let needed = 3 + addr_len
  (front, behind) ← dst_prefix dst needed
  front' ← write_three_addr front head address
  ok (needed, front' ++ behind)

unfoldable pub encode_request : Bytes → Command → Address → Result (ℕ × Bytes)
encode_request dst command destination =
    encode_three_addr dst (version ∷ command_into command ∷ 0 ∷ []) destination

unfoldable pub encode_reply : Bytes → Reply → Address → Result (ℕ × Bytes)
encode_reply dst reply bind = encode_three_addr dst (version ∷ reply_into reply ∷ 0 ∷ []) bind

unfoldable pub encode_udp_header : Bytes → ℕ → Address → Result (ℕ × Bytes)
encode_udp_header dst frag destination = encode_three_addr dst (0 ∷ 0 ∷ frag ∷ []) destination

unfoldable pub encode_udp_packet : Bytes → ℕ → Address → Bytes → Result (ℕ × Bytes)
encode_udp_packet dst frag destination payload = do
  addr_len ← encoded_addr_len destination
  let header_len = 3 + addr_len
  let needed = header_len + length payload
  (front, behind) ← dst_prefix dst needed
  (header, payload_dst) ← split_at_mut front header_len
  header' ← write_three_addr header (0 ∷ 0 ∷ frag ∷ []) destination
  payload' ← copy_from_slice payload_dst payload
  ok (needed, (header' ++ payload') ++ behind)
