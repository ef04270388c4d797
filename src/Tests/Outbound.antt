-- ===== src/Tests/Outbound.antt =====
-- The SOCKS5 client of the server, which connects to 127.0.0.1:80.
use snell_rs.Prelude.{◌≡◌, refl, [], ◌∷◌, ◌++◌, replicate, arith}
use mathlib.Core.Option
use snell_rs.Kernel.Error.{ok, done}
use snell_rs.Kernel.Slice.{
  Bytes, index, index_from, get_to, split_at_checked, from_be_bytes, split_at_mut, copy_from_slice,
  dst_prefix,
}
use snell_rs.Kernel.Slice
use snell_rs.Address
use snell_rs.Address.{SocketAddr, Address, ip, ip_port}
use snell_rs.Address.Wire.{on_wire}
use snell_rs.Socks5.{ReplyMessage, reply_need, parse_cmd_addr, parse_addr, addr_len, addr_body}
use snell_rs.Socks5.Codes.{connect, command_into, reply_from, succeeded}
use snell_rs.Socks5.Encode.{
  encode_request, encode_three_addr, encoded_addr_len, write_three_addr, addr_parts,
}
use snell_rs.Client.{returned, accept_socks5, connect_to}
use snell_rs.Outbound.{socks5_request}
use snell_rs.Outbound.Exchange.{answered, socks5_request_lem, accept_socks5-socks5_request}

abbrev site : Address
site = ip (SocketAddr.v4 (127 ∷ 0 ∷ 0 ∷ 1 ∷ []) 80)

abbrev asked : Bytes
asked = 5 ∷ 1 ∷ 0 ∷ 1 ∷ 127 ∷ 0 ∷ 0 ∷ 1 ∷ 0 ∷ 80 ∷ []

asked_written : encode_request answered connect site ≡ ok (10, asked ++ replicate 252 0)
unfolding encode_request encode_three_addr encoded_addr_len write_three_addr addr_parts dst_prefix
    split_at_mut copy_from_slice command_into Slice.to_be_bytes Address.port
asked_written = refl

abbrev reply : Bytes
reply = 5 ∷ 0 ∷ 0 ∷ 1 ∷ 10 ∷ 0 ∷ 0 ∷ 2 ∷ 0 ∷ 90 ∷ []

abbrev replied : ReplyMessage
replied = record {
  reply = succeeded;
  bind = ip (SocketAddr.v4 (10 ∷ 0 ∷ 0 ∷ 2 ∷ []) 90);
  header_len = 10;
}

reply_read : reply_need reply ≡ ok (done replied)
unfolding reply_need parse_cmd_addr parse_addr addr_len addr_body index index_from ip_port
    Option.bind split_at_checked from_be_bytes reply_from
reply_read = refl

socks5_request_lem_example :
    socks5_request connect site (record { incoming = 5 ∷ 0 ∷ (reply ++ (9 ∷ [])); written = [] })
    ≡ returned replied.bind (record { incoming = 9 ∷ []; written = 5 ∷ 1 ∷ 0 ∷ asked })
socks5_request_lem_example =
    socks5_request_lem connect site 10 (asked ++ replicate 252 0) reply (9 ∷ []) [] replied
      asked_written (omega arith) reply_read refl (omega arith) refl

accept_socks5-socks5_request_example :
    accept_socks5 (record { incoming = (5 ∷ 1 ∷ 0 ∷ asked) ++ (8 ∷ []); written = [] })
    ≡ returned (connect_to (on_wire site)) (record { incoming = 8 ∷ []; written = 5 ∷ 0 ∷ [] })
accept_socks5-socks5_request_example =
    accept_socks5-socks5_request site replied.bind (5 ∷ 0 ∷ (reply ++ (9 ∷ []))) (8 ∷ []) []
      (record { incoming = 9 ∷ []; written = 5 ∷ 1 ∷ 0 ∷ asked }) (refl, omega arith, omega arith)
      socks5_request_lem_example
