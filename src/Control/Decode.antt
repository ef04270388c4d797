-- ===== src/Control/Decode.antt =====
-- The decoders of control/mod.rs on arbitrary bytes.
use snell_rs.Prelude.{ℕ, ◌+◌, ◌≤◌, ◌≡◌, [], ◌∷◌, arith, length, drop, ◌≢◌, length-drop, some}
use snell_rs.Kernel.Error.{Result, ok, panic, Returns}
use snell_rs.Kernel.Slice.{Bytes, index_from, split_at_checked}
use mathlib.Core.Option
use snell_rs.Address.{
  IpAddr, SocketAddr, Address, split_host_port, ip_port, new_domain, validate_domain,
}
use snell_rs.Address.Text.{IpText}
use snell_rs.Address.Wire.{split_host_port_within}
use snell_rs.Control.{
  reuse_of, check_host_len, destination_of, decode_connect_request_prefix, tagged_ip, parse_ip_tail,
  parse_domain_tail, decode_udp_datagram, decode_udp_request, decode_udp_response,
}

new_domain-ne-panic : (h : Bytes) (p : ℕ) → new_domain h p ≢ panic
unfolding new_domain validate_domain
new_domain-ne-panic h p e = ground arith

split_host_port-ne-panic : (src : Bytes) → split_host_port src ≢ panic
unfolding split_host_port
split_host_port-ne-panic [] e = ground arith
split_host_port-ne-panic (n ∷ rest) e = ground arith

destination_of-ne-panic : (t : IpText) (h : Bytes) (p : ℕ) → destination_of t h p ≢ panic
unfolding destination_of
destination_of-ne-panic t h p e = ground (arith, new_domain-ne-panic h p)

reuse_of-ne-panic : (c : ℕ) → reuse_of c ≢ panic
unfolding reuse_of
reuse_of-ne-panic c e = ground arith

check_host_len-ne-panic : (b : Bytes) → check_host_len b ≢ panic
unfolding check_host_len
check_host_len-ne-panic [] e = ground arith
check_host_len-ne-panic (n ∷ rest) e = ground arith

-- No bytes make the decoder of CONNECT requests panic.
pub decode_connect_request_prefix-Returns :
    (t : IpText) (src : Bytes) → Returns (decode_connect_request_prefix t src)
unfolding decode_connect_request_prefix
decode_connect_request_prefix-Returns t src = grind (
  arith, reuse_of-ne-panic, check_host_len-ne-panic, split_host_port-ne-panic,
  destination_of-ne-panic,
)

parse_ip_tail-ne-panic : (src : Bytes) → parse_ip_tail src ≢ panic
unfolding parse_ip_tail tagged_ip
parse_ip_tail-ne-panic [] e = ground arith
parse_ip_tail-ne-panic (t ∷ rest) e = ground arith

ip_port_short :
    (n : ℕ) (from : Bytes → IpAddr) (src : Bytes) {a : SocketAddr}
    → ip_port n from src ≡ some a
    → n + 2 ≤ length src
unfolding ip_port Option.bind split_at_checked
ip_port_short n from src e = ground (arith, length-drop n src)

parse_ip_tail_bound : (src : Bytes) (r : Address × ℕ) → parse_ip_tail src ≡ ok r → r.1 ≤ length src
unfolding parse_ip_tail tagged_ip
parse_ip_tail_bound [] r e = ground arith
parse_ip_tail_bound (t ∷ rest) r e =
    grind (arith, ip_port_short 4 IpAddr.v4 rest, ip_port_short 16 IpAddr.v6 rest)

parse_domain_tail-ne-panic : (src : Bytes) → parse_domain_tail src ≢ panic
unfolding parse_domain_tail
parse_domain_tail-ne-panic src e = grind (arith, split_host_port-ne-panic, new_domain-ne-panic)

parse_domain_tail_bound :
    (src : Bytes) (r : Address × ℕ) → parse_domain_tail src ≡ ok r → r.1 ≤ length src
unfolding parse_domain_tail
parse_domain_tail_bound src r e = grind (arith, split_host_port_within src)

decode_udp_datagram-Returns :
    (src : Bytes) (k : ℕ) (parse_tail : Bytes → Result (Address × ℕ))
    → k ≤ length src
    → parse_tail (drop k src) ≢ panic
    → ((r : Address × ℕ) → parse_tail (drop k src) ≡ ok r → r.1 ≤ length (drop k src))
    → Returns (decode_udp_datagram src k parse_tail)
unfolding decode_udp_datagram index_from
decode_udp_datagram-Returns src k parse_tail h p b = grind (arith, length-drop k src)

-- No datagram makes the decoder of UDP requests panic: all its slices are in range.
pub decode_udp_request-Returns : (src : Bytes) → Returns (decode_udp_request src)
unfolding decode_udp_request
decode_udp_request-Returns [] = tt
decode_udp_request-Returns (c ∷ []) = tt
decode_udp_request-Returns (c ∷ n ∷ rest) = ground (
  arith,
  decode_udp_datagram-Returns (c ∷ n ∷ rest) 2 parse_ip_tail (omega arith)
      (parse_ip_tail-ne-panic rest) (parse_ip_tail_bound rest),
  decode_udp_datagram-Returns (c ∷ n ∷ rest) 1 parse_domain_tail (omega arith)
      (parse_domain_tail-ne-panic (n ∷ rest)) (parse_domain_tail_bound (n ∷ rest)),
)

pub decode_udp_response-Returns : (src : Bytes) → Returns (decode_udp_response src)
unfolding decode_udp_response
decode_udp_response-Returns src =
    decode_udp_datagram-Returns src 0 parse_ip_tail (omega arith) (parse_ip_tail-ne-panic src)
      (parse_ip_tail_bound src)
