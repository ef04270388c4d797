-- ===== src/Control/Datagram.antt =====
-- The UDP datagrams of control/mod.rs, written and read.
use snell_rs.Prelude.{
  ℕ, ◌+◌, ◌-◌, ◌<◌, ◌≡◌, ap, ◌∙◌, [], ◌∷◌, ◌++◌, arith, length, take, drop, length-append,
  append_assoc, take-append_length, drop-append_length,
}
use snell_rs.Kernel.Error.{Result, ok, >>=-eq-ok}
use snell_rs.Kernel.Slice.{Bytes, to_be_bytes, index_from, length-to_be_bytes}
use snell_rs.Address.{IpAddr, SocketAddr, Address, ip, domain, port, new_domain, validate_domain}
use snell_rs.Address.Wire.{
  IsHost, IsAddress, IsSocketAddr, on_wire, ip_port-append, split_host_port-append,
}
use snell_rs.Control.{
  tagged_ip, parse_ip_tail, parse_domain_tail, decode_udp_datagram, decode_udp_request,
  decode_udp_response,
}
use snell_rs.Control.Encode.{
  encode_udp_datagram, encode_udp_request, encode_udp_response, tail_parts, request_marker,
  udp_request_header_len, udp_response_len, udp_tail_len, marker_len, udp_request_len,
}
use snell_rs.Control.Written.{datagram_bytes, datagram_len, encode_udp_datagram_lem}

-- `TAG ADDR PORT`, and the length of it.
abbrev tail_bytes : Address → Bytes → Bytes
tail_bytes a more = (tail_parts a).0 ∷ ((tail_parts a).1 ++ (to_be_bytes (port a) ++ more))

abbrev tail_len : Address → ℕ
tail_len a = 1 + length (tail_parts a).1 + 2

parse_ip_tail-tail_bytes :
    (a : SocketAddr) (more : Bytes)
    → IsSocketAddr a
    → parse_ip_tail (tail_bytes (ip a) more) ≡ ok (on_wire (ip a), tail_len (ip a))
unfolding parse_ip_tail tagged_ip tail_parts on_wire port
parse_ip_tail-tail_bytes (SocketAddr.v4 o p) more v =
    ground (arith, ip_port-append 4 IpAddr.v4 o p more)
parse_ip_tail-tail_bytes (SocketAddr.v6 o p f s) more v =
    ground (arith, ip_port-append 16 IpAddr.v6 o p more)

parse_domain_tail-tail_bytes :
    (h : Bytes) (p : ℕ) (more : Bytes)
    → IsHost h
    → p < 65536
    → validate_domain h ≡ ok tt
    → parse_domain_tail (tail_bytes (domain h p) more) ≡ ok (domain h p, tail_len (domain h p))
unfolding parse_domain_tail tail_parts port new_domain
parse_domain_tail-tail_bytes h p more v hp valid =
    ground (arith, split_host_port-append h p more v hp)

length-tail_bytes :
    (a : Address) (more : Bytes) → length (tail_bytes a more) ≡ tail_len a + length more
length-tail_bytes a more = omega (
  arith,
  length-append (tail_parts a).1 (to_be_bytes (port a) ++ more),
  length-append (to_be_bytes (port a)) more,
  length-to_be_bytes (port a),
)

-- The payload stands behind the marker and the tail.
drop-datagram_bytes :
    (marker : Bytes) (a : Address) (payload : Bytes)
    → drop (length marker + tail_len a) (datagram_bytes marker a payload) ≡ payload
drop-datagram_bytes marker a payload =
    ap (λ t. drop (length marker + tail_len a) t) regroup
    ∙ ap (λ k. drop k (datagram_bytes marker a [] ++ payload))
        {y = length (datagram_bytes marker a [])}
        (omega (arith, length-append marker (tail_bytes a []), length-tail_bytes a []))
    ∙ drop-append_length (datagram_bytes marker a []) payload
  where
    regroup : datagram_bytes marker a payload ≡ datagram_bytes marker a [] ++ payload
    regroup = simp append_assoc

take-datagram_bytes :
    (marker : Bytes) (a : Address) (payload more : Bytes)
    → take (datagram_len marker a + length payload) (datagram_bytes marker a (payload ++ more))
      ≡ datagram_bytes marker a payload
take-datagram_bytes marker a payload more =
    ap (λ t. take (datagram_len marker a + length payload) t) regroup
    ∙ ap (λ k. take k (datagram_bytes marker a payload ++ more))
        {y = length (datagram_bytes marker a payload)}
        (omega (arith, length-append marker (tail_bytes a payload), length-tail_bytes a payload))
    ∙ take-append_length (datagram_bytes marker a payload) more
  where
    regroup : datagram_bytes marker a (payload ++ more) ≡ datagram_bytes marker a payload ++ more
    regroup = simp append_assoc

-- `decode_udp_datagram` with a parser that reads the tail.
decode_udp_datagram-bytes :
    (marker : Bytes) (a b : Address) (payload : Bytes) (parse_tail : Bytes → Result (Address × ℕ))
    → parse_tail (tail_bytes a payload) ≡ ok (b, tail_len a)
    → decode_udp_datagram (datagram_bytes marker a payload) (length marker) parse_tail
      ≡ ok (record { address = b; payload = payload; header_len = length marker + tail_len a })
unfolding decode_udp_datagram index_from
decode_udp_datagram-bytes marker a b payload parse_tail e = ground (
  arith,
  e,
  length-append marker (tail_bytes a payload),
  length-tail_bytes a payload,
  drop-append_length marker (tail_bytes a payload),
  drop-datagram_bytes marker a payload,
)

request_header :
    (a : Address) {n : ℕ}
    → IsAddress a
    → udp_request_header_len a ≡ ok n
    → n ≡ datagram_len (request_marker a) a
unfolding udp_request_header_len udp_tail_len marker_len request_marker tail_parts
request_header (ip (SocketAddr.v4 o p)) v h = ground arith
request_header (ip (SocketAddr.v6 o p f s)) v h = ground arith
request_header (domain h p) v e = ground arith

response_header : (a : SocketAddr) → IsSocketAddr a → udp_response_len a 0 ≡ datagram_len [] (ip a)
unfolding udp_response_len tail_parts
response_header (SocketAddr.v4 o p) v = ground arith
response_header (SocketAddr.v6 o p f s) v = ground arith

response_len : (a : SocketAddr) (k : ℕ) → udp_response_len a k ≡ udp_response_len a 0 + k
unfolding udp_response_len
response_len (SocketAddr.v4 o p) k = omega arith
response_len (SocketAddr.v6 o p f s) k = omega arith

domain_header :
    (h : Bytes) (p : ℕ) {n : ℕ}
    → udp_request_header_len (domain h p) ≡ ok n
    → validate_domain h ≡ ok tt
unfolding udp_request_header_len udp_tail_len
domain_header h p e = ground arith

decode_udp_request-bytes :
    (a : Address) (payload : Bytes) {n : ℕ}
    → IsAddress a
    → udp_request_header_len a ≡ ok n
    → decode_udp_request (datagram_bytes (request_marker a) a payload)
      ≡ ok (record { address = on_wire a; payload = payload; header_len = n })
unfolding decode_udp_request request_marker
decode_udp_request-bytes (ip a) payload v e = ground (
  arith,
  request_header (ip a) v e,
  decode_udp_datagram-bytes (1 ∷ 0 ∷ []) (ip a) (on_wire (ip a)) payload parse_ip_tail
      (parse_ip_tail-tail_bytes a payload v),
)
decode_udp_request-bytes (domain h p) payload v e =
    unfold tail_parts on_wire in
    ground (
      arith,
      v.0,
      request_header (domain h p) v e,
      decode_udp_datagram-bytes (1 ∷ []) (domain h p) (domain h p) payload parse_domain_tail
          (parse_domain_tail-tail_bytes h p payload v.0 v.1 (domain_header h p e)),
    )

-- What an encoder that returned has written.
encode_udp_datagram-eq :
    (dst marker : Bytes) (a : Address) (payload : Bytes) (header_len : ℕ) {n : ℕ} {dst' : Bytes}
    → header_len ≡ datagram_len marker a
    → encode_udp_datagram dst header_len marker a payload ≡ ok (n, dst')
    → (n ≡ header_len + length payload) × (take n dst' ≡ datagram_bytes marker a payload)
encode_udp_datagram-eq dst marker a payload header_len e h = ground (
  arith,
  encode_udp_datagram_lem dst marker a payload,
  take-datagram_bytes marker a payload (drop (datagram_len marker a + length payload) dst),
)

-- A UDP request that was encoded for a well-formed address is decoded, from the bytes that the
-- encoder reports, to the address as the wire carries it and to exactly the payload, and
-- `udp_request_len` announces that number of bytes.
pub decode_udp_request-encode_udp_request :
    (dst : Bytes) (a : Address) (payload : Bytes) {n : ℕ} {dst' : Bytes}
    → IsAddress a
    → encode_udp_request dst a payload ≡ ok (n, dst')
    → (decode_udp_request (take n dst')
        ≡ ok (record { address = on_wire a; payload = payload; header_len = n - length payload }))
      × (udp_request_len a (length payload) ≡ ok n)
unfolding udp_request_len encode_udp_request
decode_udp_request-encode_udp_request dst a payload {n} {dst'} v h =
    let (header_len, e, h') =
      >>=-eq-ok (udp_request_header_len a)
        (λ k. encode_udp_datagram dst k (request_marker a) a payload) h in
    let (count, front) =
      encode_udp_datagram-eq dst (request_marker a) a payload header_len (request_header a v e)
        h' in
    (
      rw front (
          decode_udp_request-bytes a payload v e
          ∙ ap (λ k. ok (record { address = on_wire a; payload = payload; header_len = k }))
              (omega arith)),
      rw e (ap ok (omega arith)),
    )

-- A UDP response that was encoded for a well-formed source is decoded, from the bytes that the
-- encoder reports, to the source as the wire carries it and to exactly the payload, and
-- `udp_response_len` announces that number of bytes.
pub decode_udp_response-encode_udp_response :
    (dst : Bytes) (a : SocketAddr) (payload : Bytes) {n : ℕ} {dst' : Bytes}
    → IsSocketAddr a
    → encode_udp_response dst a payload ≡ ok (n, dst')
    → (decode_udp_response (take n dst')
        ≡ ok (record {
          address = on_wire (ip a);
          payload = payload;
          header_len = n - length payload;
        }))
      × (udp_response_len a (length payload) ≡ n)
unfolding encode_udp_response decode_udp_response
decode_udp_response-encode_udp_response dst a payload {n} {dst'} v h =
    let (count, front) = encode_udp_datagram-eq dst [] (ip a) payload _ (response_header a v) h in
    (
      rw front (
          ground (
            arith,
            decode_udp_datagram-bytes [] (ip a) (on_wire (ip a)) payload parse_ip_tail
                (parse_ip_tail-tail_bytes a payload v),
            response_header a v,
          )),
      response_len a (length payload) ∙ omega arith,
    )
