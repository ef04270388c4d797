-- ===== src/Socks5/Written.antt =====
-- What `write_three_addr` and its callers in socks5.rs write.
use snell_rs.Prelude.{
  ℕ, suc, ◌+◌, ◌≤◌, ◌≡◌, sym, ap, ◌∙◌, [], ◌∷◌, ◌++◌, arith, length, take, drop, length-append,
  append_assoc, if◌then◌else◌, leb, append-nil, length-drop, length-take, drop-append_length,
}
use snell_rs.Kernel.Error.{buffer_too_small, ok, err, done}
use snell_rs.Kernel.Slice.{
  Bytes, index, index_from, to_be_bytes, dst_prefix, split_copy, copy_from_slice-eq,
  length-to_be_bytes,
}
use snell_rs.Address.{IpAddr, SocketAddr, Address, ip, domain, port}
use snell_rs.Address.Wire.{IsAddress, on_wire, ip_port-append, split_host_port-append}
use snell_rs.Socks5.{addr_len, addr_body, parse_addr}
use snell_rs.Socks5.Encode.{encoded_addr_len, addr_parts, write_three_addr, encode_three_addr}

-- `ATYP ADDR PORT` of an address, with the bytes behind it.
abbrev pub addr_field : Address → Bytes → Bytes
addr_field a more = (addr_parts a).0 ++ ((addr_parts a).1 ++ (to_be_bytes (port a) ++ more))

pub addr_field-append : (a : Address) (more : Bytes) → addr_field a [] ++ more ≡ addr_field a more
addr_field-append a more = simp append_assoc

-- The length that the encoders reserve.
abbrev pub field_len : Address → ℕ
field_len a = length (addr_parts a).0 + length (addr_parts a).1 + 2

pub encoded_addr_len-field_len : (a : Address) → IsAddress a → encoded_addr_len a ≡ ok (field_len a)
unfolding encoded_addr_len addr_parts
encoded_addr_len-field_len (ip (SocketAddr.v4 o p)) v = ground arith
encoded_addr_len-field_len (ip (SocketAddr.v6 o p f s)) v = ground arith
encoded_addr_len-field_len (domain [] p) v = absurd (omega (arith, v.0.nonempty))
encoded_addr_len-field_len (domain (x ∷ h) p) v = ground arith

pub parse_addr-addr_field :
    (a : Address) (more : Bytes)
    → IsAddress a
    → parse_addr (addr_field a more) ≡ ok (done (on_wire a, field_len a))
unfolding parse_addr addr_len addr_body addr_parts index index_from on_wire port
parse_addr-addr_field (ip (SocketAddr.v4 o p)) more v = ground (
  arith,
  ip_port-append 4 IpAddr.v4 o p more,
  length-append o (to_be_bytes p ++ more),
  length-append (to_be_bytes p) more,
  length-to_be_bytes p,
)
parse_addr-addr_field (ip (SocketAddr.v6 o p f s)) more v = ground (
  arith,
  ip_port-append 16 IpAddr.v6 o p more,
  length-append o (to_be_bytes p ++ more),
  length-append (to_be_bytes p) more,
  length-to_be_bytes p,
)
parse_addr-addr_field (domain h p) more v = ground (
  arith,
  v.0,
  split_host_port-append h p more (v.0) (v.1),
  length-append h (to_be_bytes p ++ more),
  length-append (to_be_bytes p) more,
  length-to_be_bytes p,
)

-- `write_three_addr` fills a destination of the reserved length, and does not panic.
pub write_three_addr_lem :
    (dst : Bytes) (x y z : ℕ) (a : Address)
    → length dst ≡ 3 + field_len a
    → write_three_addr dst (x ∷ y ∷ z ∷ []) a ≡ ok (x ∷ y ∷ z ∷ addr_field a [])
unfolding write_three_addr
write_three_addr_lem dst x y z a e =
    split_copy dst (x ∷ y ∷ z ∷ []) _ (omega arith)
    ∙ split_copy (drop 3 dst) (addr_parts a).0 _ (omega (arith, length-drop 3 dst))
    ∙ split_copy (drop tag (drop 3 dst)) (addr_parts a).1 _
        (omega (arith, length-drop 3 dst, length-drop tag (drop 3 dst)))
    ∙ rw (copy_from_slice-eq port_dst (to_be_bytes (port a)) fits, append-nil)
  where
    tag : ℕ
    tag = length (addr_parts a).0

    port_dst : Bytes
    port_dst = drop (length (addr_parts a).1) (drop tag (drop 3 dst))

    fits : length port_dst ≡ length (to_be_bytes (port a))
    fits = omega (
      arith,
      length-drop 3 dst,
      length-drop tag (drop 3 dst),
      length-drop (length (addr_parts a).1) (drop tag (drop 3 dst)),
      length-to_be_bytes (port a),
    )

-- For a well-formed address the shared SOCKS5 encoder writes the three leading bytes and the
-- address field, leaves the rest of the buffer alone and reports the number of bytes, if they fit;
-- else it reports the room that it needs and the room that there is.
pub encode_three_addr_lem :
    (dst : Bytes) (x y z : ℕ) (a : Address)
    → IsAddress a
    → encode_three_addr dst (x ∷ y ∷ z ∷ []) a ≡ (
        if leb (3 + field_len a) (length dst)
        then ok (3 + field_len a, x ∷ y ∷ z ∷ addr_field a (drop (3 + field_len a) dst))
        else err (buffer_too_small (3 + field_len a) (length dst)))
unfolding encode_three_addr dst_prefix
encode_three_addr_lem dst x y z a v = ground (
  arith,
  encoded_addr_len-field_len a v,
  write_three_addr_lem (take (3 + field_len a) dst) x y z a,
  length-take (3 + field_len a) dst,
  addr_field-append a (drop (3 + field_len a) dst),
)

pub three_add : (n : ℕ) → 3 + n ≡ suc (suc (suc n))
three_add n = omega arith

pub tag_pos : (a : Address) → 1 ≤ length (addr_parts a).0
unfolding addr_parts
tag_pos (ip (SocketAddr.v4 o p)) = omega arith
tag_pos (ip (SocketAddr.v6 o p f s)) = omega arith
tag_pos (domain h p) = omega arith

pub length-addr_field :
    (a : Address) (more : Bytes) → length (addr_field a more) ≡ field_len a + length more
length-addr_field a more = omega (
  arith,
  length-append (addr_parts a).0 ((addr_parts a).1 ++ (to_be_bytes (port a) ++ more)),
  length-append (addr_parts a).1 (to_be_bytes (port a) ++ more),
  length-append (to_be_bytes (port a)) more,
  length-to_be_bytes (port a),
)

pub drop-addr_field : (a : Address) (more : Bytes) → drop (field_len a) (addr_field a more) ≡ more
drop-addr_field a more =
    ap (λ t. drop (field_len a) t) (sym (addr_field-append a more))
    ∙ ap (λ n. drop n (addr_field a [] ++ more)) (omega (arith, length-addr_field a []))
    ∙ drop-append_length (addr_field a []) more
