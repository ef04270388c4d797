-- ===== src/Control/RoundTrip.antt =====
-- The decoders of control/mod.rs on what its encoders write.
use snell_rs.Prelude.{
  ℕ, ◌+◌, ◌<◌, ◌≡◌, [], ◌∷◌, arith, length, take, drop, length-append, Bool, false, length-take,
  min, take-append_length, none,
}
use snell_rs.Kernel.Error.{ok, done, ◌>>=◌}
use snell_rs.Kernel.Consts.{error_reject}
use snell_rs.Kernel.Slice.{Bytes, contains, dst_prefix, get_from, get_to, copy_from_slice}
use snell_rs.Address.{IpAddr, SocketAddr, Address, ip, domain, port, new_domain, validate_domain}
use snell_rs.Address.Wire.{IsHost, IsAddress, on_wire, split_host_port-append}
use snell_rs.Address.Text.{IpText, IsIpText, host}
use snell_rs.Control.{
  control_head, reuse_of, check_host_len, destination_of, decode_connect_request_prefix, error,
  error_reply, decode_server_reply, decode_udp_setup_prefix,
}
use snell_rs.Control.Encode.{encode_connect_request, encode_udp_setup, encode_reject}
use snell_rs.Control.Written.{connect_bytes, encode_connect_request_lem, encode_reject_lem}

-- A domain that the peer takes for the same domain: no text of an IP address, and with no NUL.
abbrev pub IsName : IpText → Address → Type 0
IsName t (ip a) = Unit {0}
IsName t (domain h p) = (t.parse h ≡ none) × (contains h 0 ≡ false)

destination_of-host :
    (t : IpText) (a : Address)
    → IsIpText t
    → IsAddress a
    → IsName t a
    → destination_of t (host t a) (port a) ≡ ok (on_wire a)
unfolding destination_of host port on_wire new_domain validate_domain
destination_of-host t (ip (SocketAddr.v4 o p)) laws v n =
    ground (arith, laws.parse-to_string (IpAddr.v4 o) (v.0, v.2))
destination_of-host t (ip (SocketAddr.v6 o p f s)) laws v n =
    ground (arith, laws.parse-to_string (IpAddr.v6 o) (v.0, v.2))
destination_of-host t (domain [] p) laws v n = absurd (omega (arith, v.0.nonempty))
destination_of-host t (domain (x ∷ h) p) laws v n = ground arith

host-IsHost : (t : IpText) (a : Address) → IsIpText t → IsAddress a → IsHost (host t a)
unfolding host
host-IsHost t (ip (SocketAddr.v4 o p)) laws v = laws.to_string-IsHost (IpAddr.v4 o) (v.0, v.2)
host-IsHost t (ip (SocketAddr.v6 o p f s)) laws v = laws.to_string-IsHost (IpAddr.v6 o) (v.0, v.2)
host-IsHost t (domain h p) laws v = v.0

port_lt : (a : Address) → IsAddress a → port a < 65536
unfolding port
port_lt (ip (SocketAddr.v4 o p)) v = v.1
port_lt (ip (SocketAddr.v6 o p f s)) v = v.1
port_lt (domain h p) v = v.1

decode_connect-connect_bytes :
    (t : IpText) (reuse : Bool) (h : Bytes) (p : ℕ) (more : Bytes)
    → IsHost h
    → p < 65536
    → decode_connect_request_prefix t (connect_bytes reuse h p more) ≡ (
        destination_of t h p >>= λ d.
        ok (record { destination = d; reuse = reuse }, 3 + 0 + (1 + length h + 2)))
unfolding decode_connect_request_prefix control_head reuse_of get_from check_host_len
decode_connect-connect_bytes t reuse h p more v hp =
    ground (arith, v, split_host_port-append h p more v hp)

-- A CONNECT that the client encoded, with whatever stands behind it, is decoded to the destination
-- and reuse flag it was made from, in as many bytes as the encoder reported. The destination is
-- any IP address (without flow label and scope) or any domain of 1 to 255 bytes of UTF-8 that has
-- no NUL and is not the text of an IP address, and the texts of IP addresses have the laws of
-- `IsIpText`.
pub decode_connect-encode_connect :
    (t : IpText) (dst : Bytes) (a : Address) (reuse : Bool) {n : ℕ} {dst' : Bytes}
    → IsIpText t
    → IsAddress a
    → IsName t a
    → encode_connect_request t dst a reuse ≡ ok (n, dst')
    → decode_connect_request_prefix t dst'
      ≡ ok (record { destination = on_wire a; reuse = reuse }, n)
decode_connect-encode_connect t dst a reuse {n} {dst'} laws v name h = ground (
  arith,
  encode_connect_request_lem t dst a reuse (host-IsHost t a laws v).nonempty
      (host-IsHost t a laws v).short,
  decode_connect-connect_bytes t reuse (host t a) (port a) (drop (4 + length (host t a) + 2) dst)
      (host-IsHost t a laws v) (port_lt a v),
  destination_of-host t a laws v name,
)

-- A reject that was encoded is decoded, with whatever stands behind it, to the reject code and the
-- first 255 bytes of the message, in as many bytes as the encoder reported.
pub decode_server_reply-encode_reject :
    (dst message : Bytes) {n : ℕ} {dst' : Bytes}
    → encode_reject dst message ≡ ok (n, dst')
    → decode_server_reply dst'
      ≡ ok (done (error error_reject (take (min (length message) 255) message), n))
unfolding decode_server_reply error_reply get_to
decode_server_reply-encode_reject dst message {n} {dst'} h = ground (
  arith,
  encode_reject_lem dst message,
  length-take (min (length message) 255) message,
  take-append_length (take (min (length message) 255) message)
      (drop (3 + length (take (min (length message) 255) message)) dst),
  length-append (take (min (length message) 255) message)
      (drop (3 + length (take (min (length message) 255) message)) dst),
)

-- A UDP setup and a tunnel reply are read back.
pub decode_udp_setup-encode_udp_setup :
    (dst : Bytes) {n : ℕ} {dst' : Bytes}
    → encode_udp_setup dst ≡ ok (n, dst')
    → decode_udp_setup_prefix dst' ≡ ok n
unfolding encode_udp_setup decode_udp_setup_prefix dst_prefix copy_from_slice control_head
decode_udp_setup-encode_udp_setup dst h = ground (arith, length-take 3 dst)
