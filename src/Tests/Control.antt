-- ===== src/Tests/Control.antt =====
-- The messages of crates/snell-protocol/src/control, at concrete inputs.
use snell_rs.Prelude.{
  ◌-◌, ◌≡◌, refl, [], ◌∷◌, ◌++◌, true, false, none, replicate, take, drop, min, arith,
}
use snell_rs.Kernel.Error.{ok, done}
use snell_rs.Kernel.Consts.{error_reject}
use snell_rs.Kernel.Slice.{
  Bytes, get_to, get_from, contains, split_at_checked, from_be_bytes, to_be_bytes, dst_prefix,
  split_at_mut, copy_from_slice, set_first, index_to,
}
use snell_rs.Kernel.Utf8.{is_utf8, is_utf8_from, from_utf8}
use snell_rs.Kernel.Incremental.{CutOf}
use snell_rs.Address.{
  SocketAddr, Address, ip, domain, port, validate_domain, split_host_port, new_domain,
}
use snell_rs.Address.Wire.{IsAddress, on_wire}
use snell_rs.Address.Text.{host}
use snell_rs.Control.{
  error, control_head, reuse_of, check_host_len, destination_of, decode_connect_request_prefix,
  decode_server_reply, error_reply, decode_udp_request, decode_udp_response,
}
use snell_rs.Control.Encode.{
  connect_len, encode_connect_request, encode_udp_setup, encode_reject, encode_udp_request,
  encode_udp_response, encode_udp_datagram, udp_request_header_len, udp_tail_len, marker_len,
  udp_request_len, udp_response_len, tail_parts, request_marker,
}
use snell_rs.Control.RoundTrip.{decode_connect-encode_connect, decode_server_reply-encode_reject}
use snell_rs.Control.Datagram.{
  decode_udp_request-encode_udp_request, decode_udp_response-encode_udp_response,
}
use snell_rs.Control.Stream.{connect, need_more_on_truncated}
use snell_rs.Control.Assembly.{connect_cut}
use snell_rs.Tests.HexText.{hex_text, hex_text-IsIpText}

-- `a.io`
abbrev name : Bytes
name = 97 ∷ 46 ∷ 105 ∷ 111 ∷ []

abbrev site : Address
site = domain name 443

site-IsAddress : IsAddress site
unfolding is_utf8 is_utf8_from
site-IsAddress = (record { text = refl; nonempty = omega arith; short = omega arith }, omega arith)

abbrev zeros : Bytes
zeros = replicate 12 0

abbrev connect_wire : Bytes
connect_wire = 1 ∷ 5 ∷ 0 ∷ 4 ∷ (name ++ (1 ∷ 187 ∷ []))

encoded : encode_connect_request hex_text zeros site true ≡ ok (10, connect_wire ++ (0 ∷ 0 ∷ []))
unfolding encode_connect_request connect_len host port dst_prefix split_at_mut copy_from_slice
    to_be_bytes
encoded = refl

not_ip : hex_text.parse name ≡ none
not_ip = refl

no_nul : contains name 0 ≡ false
unfolding contains
no_nul = refl

decode_connect-encode_connect_example :
    decode_connect_request_prefix hex_text (connect_wire ++ (0 ∷ 0 ∷ []))
    ≡ ok (record { destination = on_wire site; reuse = true }, 10)
decode_connect-encode_connect_example =
    decode_connect-encode_connect hex_text zeros site true hex_text-IsIpText site-IsAddress
      (not_ip, no_nul) encoded

decoded :
    connect hex_text (take 5 connect_wire ++ drop 5 connect_wire)
    ≡ ok (done (record { destination = site; reuse = true }, 10))
unfolding connect need_more_on_truncated decode_connect_request_prefix control_head reuse_of
    get_from check_host_len destination_of split_host_port split_at_checked from_utf8 is_utf8
    is_utf8_from from_be_bytes new_domain validate_domain contains
decoded = refl

connect_cut_example :
    CutOf
      (connect hex_text)
      (λ r. r.1)
      (take 5 connect_wire)
      (record { destination = site; reuse = true }, 10)
connect_cut_example =
    connect_cut hex_text (take 5 connect_wire) (drop 5 connect_wire)
      (record { destination = site; reuse = true }, 10) decoded

rejected : encode_reject zeros (104 ∷ 105 ∷ []) ≡ ok (5, 2 ∷ 1 ∷ 2 ∷ 104 ∷ 105 ∷ replicate 7 0)
unfolding encode_reject index_to dst_prefix split_at_mut copy_from_slice
rejected = refl

decode_server_reply-encode_reject_example :
    decode_server_reply (2 ∷ 1 ∷ 2 ∷ 104 ∷ 105 ∷ replicate 7 0)
    ≡ ok (done (error error_reject (take (min 2 255) (104 ∷ 105 ∷ [])), 5))
decode_server_reply-encode_reject_example =
    decode_server_reply-encode_reject zeros (104 ∷ 105 ∷ []) rejected

reply_read :
    decode_server_reply ((2 ∷ 1 ∷ []) ++ (2 ∷ 104 ∷ 105 ∷ 9 ∷ []))
    ≡ ok (done (error 1 (104 ∷ 105 ∷ []), 5))
unfolding decode_server_reply error_reply get_to
reply_read = refl

set_up : encode_udp_setup zeros ≡ ok (3, 1 ∷ 6 ∷ 0 ∷ replicate 9 0)
unfolding encode_udp_setup dst_prefix copy_from_slice
set_up = refl

-- The datagram `hi` to the site, and from 10.0.0.1:53.
abbrev request_wire : Bytes
request_wire = 1 ∷ 4 ∷ (name ++ (1 ∷ 187 ∷ 104 ∷ 105 ∷ []))

request_written :
    encode_udp_request zeros site (104 ∷ 105 ∷ []) ≡ ok (10, request_wire ++ (0 ∷ 0 ∷ []))
unfolding encode_udp_request udp_request_header_len udp_tail_len marker_len request_marker
    validate_domain contains tail_parts encode_udp_datagram dst_prefix split_at_mut copy_from_slice
    set_first to_be_bytes port
request_written = refl

decode_udp_request-encode_udp_request_example :
    (decode_udp_request (take 10 (request_wire ++ (0 ∷ 0 ∷ [])))
      ≡ ok (record { address = on_wire site; payload = 104 ∷ 105 ∷ []; header_len = 10 - 2 }))
    × (udp_request_len site 2 ≡ ok 10)
decode_udp_request-encode_udp_request_example =
    decode_udp_request-encode_udp_request zeros site (104 ∷ 105 ∷ []) site-IsAddress request_written

abbrev source : SocketAddr
source = SocketAddr.v4 (10 ∷ 0 ∷ 0 ∷ 1 ∷ []) 53

abbrev response_wire : Bytes
response_wire = 4 ∷ 10 ∷ 0 ∷ 0 ∷ 1 ∷ 0 ∷ 53 ∷ 104 ∷ 105 ∷ []

response_written :
    encode_udp_response zeros source (104 ∷ 105 ∷ []) ≡ ok (9, response_wire ++ (0 ∷ 0 ∷ 0 ∷ []))
unfolding encode_udp_response udp_response_len tail_parts encode_udp_datagram dst_prefix
    split_at_mut copy_from_slice set_first to_be_bytes port
response_written = refl

decode_udp_response-encode_udp_response_example :
    (decode_udp_response (take 9 (response_wire ++ (0 ∷ 0 ∷ 0 ∷ [])))
      ≡ ok (record { address = on_wire (ip source); payload = 104 ∷ 105 ∷ []; header_len = 9 - 2 }))
    × (udp_response_len source 2 ≡ 9)
decode_udp_response-encode_udp_response_example =
    decode_udp_response-encode_udp_response zeros source (104 ∷ 105 ∷ []) (omega arith)
      response_written
