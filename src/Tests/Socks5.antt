-- ===== src/Tests/Socks5.antt =====
-- The messages of crates/snell-protocol/src/socks5.rs, at concrete inputs.
use snell_rs.Prelude.{ℕ, ◌-◌, ◌≡◌, refl, [], ◌∷◌, ◌++◌, replicate, take, drop, length, arith}
use mathlib.Core.Option
use snell_rs.Kernel.Error.{ok, done}
use snell_rs.Kernel.Slice.{
  Bytes, index, index_from, get_to, split_at_checked, from_be_bytes, to_be_bytes, dst_prefix,
  split_at_mut, copy_from_slice,
}
use snell_rs.Address.{SocketAddr, Address, ip, ip_port, port}
use snell_rs.Address.Wire.{IsAddress, on_wire}
use snell_rs.Socks5.{
  Greeting, Request, greeting_need, request_need, reply_need, parse_udp_packet, parse_cmd_addr,
  parse_addr, addr_len, addr_body,
}
use snell_rs.Socks5.Codes.{
  connect, host_unreachable, command_from, command_into, reply_from, reply_into,
}
use snell_rs.Socks5.Encode.{
  encode_request, encode_reply, encode_udp_packet, encode_three_addr, encoded_addr_len,
  write_three_addr, addr_parts,
}
use snell_rs.Socks5.RoundTrip.{
  request_need-encode_request, reply_need-encode_reply, parse_udp_packet-encode_udp_packet,
}

abbrev home : Address
home = ip (SocketAddr.v4 (127 ∷ 0 ∷ 0 ∷ 1 ∷ []) 80)

home-IsAddress : IsAddress home
home-IsAddress = omega arith

abbrev zeros : Bytes
zeros = replicate 12 0

abbrev wire : ℕ → Bytes
wire code = 5 ∷ code ∷ 0 ∷ 1 ∷ 127 ∷ 0 ∷ 0 ∷ 1 ∷ 0 ∷ 80 ∷ []

request_written : encode_request zeros connect home ≡ ok (10, wire 1 ++ (0 ∷ 0 ∷ []))
unfolding encode_request encode_three_addr encoded_addr_len write_three_addr addr_parts command_into
    dst_prefix split_at_mut copy_from_slice to_be_bytes port
request_written = refl

request_need-encode_request_example :
    (request_need (wire 1 ++ (0 ∷ 0 ∷ []))
      ≡ ok (
          done (record {
            command = command_from (command_into connect);
            destination = on_wire home;
            header_len = 10;
          })))
    × (drop 10 (wire 1 ++ (0 ∷ 0 ∷ [])) ≡ drop 10 zeros)
    × (length (wire 1 ++ (0 ∷ 0 ∷ [])) ≡ length zeros)
request_need-encode_request_example =
    request_need-encode_request zeros connect home home-IsAddress request_written

reply_written : encode_reply zeros host_unreachable home ≡ ok (10, wire 4 ++ (0 ∷ 0 ∷ []))
unfolding encode_reply encode_three_addr encoded_addr_len write_three_addr addr_parts reply_into
    dst_prefix split_at_mut copy_from_slice to_be_bytes port
reply_written = refl

reply_need-encode_reply_example :
    (reply_need (wire 4 ++ (0 ∷ 0 ∷ []))
      ≡ ok (
          done (record {
            reply = reply_from (reply_into host_unreachable);
            bind = on_wire home;
            header_len = 10;
          })))
    × (drop 10 (wire 4 ++ (0 ∷ 0 ∷ [])) ≡ drop 10 zeros)
    × (length (wire 4 ++ (0 ∷ 0 ∷ [])) ≡ length zeros)
reply_need-encode_reply_example =
    reply_need-encode_reply zeros host_unreachable home home-IsAddress reply_written

abbrev packet : Bytes
packet = 0 ∷ 0 ∷ 2 ∷ 1 ∷ 127 ∷ 0 ∷ 0 ∷ 1 ∷ 0 ∷ 80 ∷ 9 ∷ 0 ∷ []

packet_written : encode_udp_packet zeros 2 home (9 ∷ []) ≡ ok (11, packet)
unfolding encode_udp_packet encoded_addr_len write_three_addr addr_parts dst_prefix split_at_mut
    copy_from_slice to_be_bytes port
packet_written = refl

parse_udp_packet-encode_udp_packet_example :
    parse_udp_packet (take 11 packet)
    ≡ ok (record { frag = 2; destination = on_wire home; header_len = 11 - 1; payload = 9 ∷ [] })
parse_udp_packet-encode_udp_packet_example =
    parse_udp_packet-encode_udp_packet zeros 2 home (9 ∷ []) home-IsAddress packet_written

abbrev greeted : Greeting
greeted = record { methods = 1 ∷ 0 ∷ []; consumed_len = 4 }

greeting_read : greeting_need ((5 ∷ 2 ∷ 1 ∷ []) ++ (0 ∷ 5 ∷ [])) ≡ ok (done greeted)
unfolding greeting_need get_to
greeting_read = refl

abbrev requested : Request
requested = record { command = connect; destination = home; header_len = 10 }

request_read : request_need (take 6 (wire 1) ++ drop 6 (wire 1)) ≡ ok (done requested)
unfolding request_need parse_cmd_addr parse_addr addr_len addr_body index index_from ip_port
    Option.bind split_at_checked from_be_bytes command_from
request_read = refl
